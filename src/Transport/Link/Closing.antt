-- ===== src/Transport/Link/Closing.antt =====
-- `failLink` and `closeNow` of src/transport/link.cpp, and the sessions of the link they close.
use shine.Prelude.{
  ℕ, zero, suc, ◌≡◌, refl, sym, ◌∙◌, ap, subst, inl, inr, List, [], ◌∷◌, Option, none, some, Bool,
  true, false, get_elem?, set, ◌==◌, if◌then◌else◌, Bool-cases,
}
use shine.Proto.Frame.{ShineFrame}
use shine.Transport.Session.{Session, SessionState, init, closed}
use shine.Transport.Session
use shine.Transport.Link.State.{
  Link, Output, on_session, reset_all, fail_open, fail_link, close_now, posts_close, on_found,
  unless_closed, enqueue_frame, lookup,
}

-- The object at a position is there and closed.
abbrev pub IsClosedAt : ℕ → Link → Type 0
IsClosedAt i l = (s : Session) × (get_elem? l.objects i ≡ some s) × (s.state ≡ closed)

get_elem?-set_eq :
    (xs : List Session) (i : ℕ) (s v : Session)
    → get_elem? xs i ≡ some s
    → get_elem? (set xs i v) i ≡ some v
get_elem?-set_eq [] i s v h = cc
get_elem?-set_eq (x ∷ xs) zero s v h = refl
get_elem?-set_eq (x ∷ xs) (suc i) s v h = get_elem?-set_eq xs i s v h

-- A write keeps a property of the element at a position, where the new element has it.
pub get_elem?-set_keeps {κ} :
    (P : Session → Type κ) (xs : List Session) (i j : ℕ) (s v : Session)
    → get_elem? xs i ≡ some s
    → P s
    → (get_elem? xs j ≡ some s → P s → P v)
    → (t : Session) × (get_elem? (set xs j v) i ≡ some t) × P t
get_elem?-set_keeps P [] i j s v e p n = absurd (cc)
get_elem?-set_keeps P (x ∷ xs) zero zero s v e p n = (v, refl, n e p)
get_elem?-set_keeps P (x ∷ xs) zero (suc j) s v e p n = (s, e, p)
get_elem?-set_keeps P (x ∷ xs) (suc i) zero s v e p n = (s, e, p)
get_elem?-set_keeps P (x ∷ xs) (suc i) (suc j) s v e p n = get_elem?-set_keeps P xs i j s v e p n

reset_keeps :
    (i j : ℕ) (l : Link) (o : Option Session)
    → get_elem? l.objects j ≡ o
    → IsClosedAt i l
    → IsClosedAt i (on_found j Session.on_reset l o).0
unfolding on_found Session.on_reset
reset_keeps i j l none h c = c
reset_keeps i j l (some t) h (s, e, p) =
    get_elem?-set_keeps (λ x. x.state ≡ closed) l.objects i j s _ e p (λ _ _. refl)

reset_closes :
    (i : ℕ) (l : Link) (s : Session)
    → get_elem? l.objects i ≡ some s
    → IsClosedAt i (on_session i Session.on_reset l).0
unfolding on_session on_found Session.on_reset
reset_closes i l s e = rw e (_, get_elem?-set_eq l.objects i s _ e, refl)

reset_all_keeps :
    (table : List (ℕ × ℕ)) (i : ℕ) (l : Link) → IsClosedAt i l → IsClosedAt i (reset_all table l).0
unfolding reset_all on_session
reset_all_keeps [] i l h = h
reset_all_keeps ((k, j) ∷ table) i l h =
    reset_all_keeps table i _ (reset_keeps i j l (get_elem? l.objects j) refl h)

-- A write keeps the positions that are taken.
set_there :
    (xs : List Session) (i j : ℕ) (v : Session) (s : Session)
    → get_elem? xs i ≡ some s
    → (t : Session) × (get_elem? (set xs j v) i ≡ some t)
set_there xs i j v s e =
    let r = get_elem?-set_keeps {0} (λ _. Unit) xs i j s v e tt (λ _ _. tt) in (r.0, r.1)

on_found_there :
    (i j : ℕ) (l : Link) (o : Option Session) (s : Session)
    → get_elem? l.objects i ≡ some s
    → (t : Session) × (get_elem? (on_found j Session.on_reset l o).0.objects i ≡ some t)
unfolding on_found
on_found_there i j l none s e = (s, e)
on_found_there i j l (some v) s e = set_there l.objects i j (Session.on_reset v).0 s e

reset_all_closes :
    (table : List (ℕ × ℕ)) (sid i : ℕ) (l : Link) (s : Session)
    → lookup sid table ≡ some i
    → get_elem? l.objects i ≡ some s
    → IsClosedAt i (reset_all table l).0
unfolding reset_all on_session lookup
reset_all_closes [] sid i l s h e = absurd cc
reset_all_closes ((k, j) ∷ table) sid i l s h e =
    let there = on_found_there i j l (get_elem? l.objects j) s e in
    elim (Bool-cases (k == sid)) [
      | inl c ↦
          let same : some j ≡ some i =
            subst (λ b. (if b then some j else lookup sid table) ≡ some i) c h in
          let at : j ≡ i = cc in
          reset_all_keeps table i _ (
            subst (λ p. IsClosedAt i (on_session p Session.on_reset l).0) (sym at)
              (reset_closes i l s e))
      | inr c ↦
          reset_all_closes table sid i _ there.0
            (subst (λ b. (if b then some j else lookup sid table) ≡ some i) c h) there.1
    ]

on_found_same :
    (j : ℕ) (l : Link) (o : Option Session)
    → ((on_found j Session.on_reset l o).0.closed ≡ l.closed)
      × ((on_found j Session.on_reset l o).0.sessions ≡ l.sessions)
unfolding on_found
on_found_same j l none = (refl, refl)
on_found_same j l (some s) = (refl, refl)

reset_all_same :
    (table : List (ℕ × ℕ)) (l : Link)
    → ((reset_all table l).0.closed ≡ l.closed) × ((reset_all table l).0.sessions ≡ l.sessions)
unfolding reset_all on_session
reset_all_same [] l = (refl, refl)
reset_all_same ((k, j) ∷ table) l =
    let first = on_found_same j l (get_elem? l.objects j) in
    let rest = reset_all_same table (on_found j Session.on_reset l (get_elem? l.objects j)).0 in
    (rest.0 ∙ first.0, rest.1 ∙ first.1)

unless_closed-fail_open :
    (b : Bool) (l : Link) → l.closed ≡ b → (unless_closed b l (fail_open l)).0.closed ≡ true
unfolding fail_open unless_closed
unless_closed-fail_open true l h = h
unless_closed-fail_open false l h =
    (reset_all_same l.sessions (record l { closed = true; sessions = [] })).0

pub fail_link_closed : (l : Link) → (fail_link l).0.closed ≡ true
unfolding fail_link
fail_link_closed l = unless_closed-fail_open l.closed l refl

-- A closed link sends nothing.
pub enqueue_frame_closed : (l : Link) (f : ShineFrame) → l.closed ≡ true → enqueue_frame l f ≡ []
unfolding enqueue_frame
enqueue_frame_closed l f h = rw h refl

-- `failLink` on a link that is not closed.
pub fail_link_open : (l : Link) → l.closed ≡ false → fail_link l ≡ fail_open l
unfolding fail_link unless_closed
fail_link_open l h = ap (λ b. unless_closed b l (fail_open l)) h

-- Failing an open link closes it, empties its table, and resets every session whose object was in
-- the table; afterwards the link writes no frame.
pub fail_link-resets :
    (l : Link) (sid i : ℕ) (s : Session) (f : ShineFrame)
    → l.closed ≡ false
    → lookup sid l.sessions ≡ some i
    → get_elem? l.objects i ≡ some s
    → ((fail_link l).0.sessions ≡ [])
      × IsClosedAt i (fail_link l).0
      × (enqueue_frame (fail_link l).0 f ≡ [])
unfolding fail_open
fail_link-resets l sid i s f h t e =
    let shut : Link = record l { closed = true; sessions = [] } in
    let r = fail_link_open l h in
    (
      ap (λ x. x.0.sessions) r ∙ (reset_all_same l.sessions shut).1,
      subst (λ x. IsClosedAt i x.0) (sym r) (reset_all_closes l.sessions sid i shut s t e),
      enqueue_frame_closed (fail_link l).0 f (fail_link_closed l),
    )

close_now_same :
    (b : Bool) (l : Link) (calls : List Output)
    → l.closed ≡ b
    → ((unless_closed b l (record l { closed = true }, calls)).0.closed ≡ true)
      × ((unless_closed b l (record l { closed = true }, calls)).0.sessions ≡ l.sessions)
      × ((unless_closed b l (record l { closed = true }, calls)).0.objects ≡ l.objects)
unfolding unless_closed
close_now_same true l calls h = (h, refl, refl)
close_now_same false l calls h = (refl, refl, refl)

-- After `closeNow` a call of `failLink`, which the reader makes when its socket is closed, does
-- nothing: the sessions stay in the table, and their objects are as before.
pub fail_link-close_now :
    (l : Link)
    → (fail_link (close_now l).0 ≡ ((close_now l).0, []))
      × ((close_now l).0.sessions ≡ l.sessions)
      × ((close_now l).0.objects ≡ l.objects)
unfolding fail_link close_now unless_closed
fail_link-close_now l =
    let r = close_now_same l.closed l (posts_close ∷ []) refl in
    (ap (λ b. unless_closed b (close_now l).0 (fail_open (close_now l).0)) r.0, r.1, r.2)
