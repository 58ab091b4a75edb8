-- ===== src/Transport/Link/Dispatch/Table.antt =====
-- The session table of a link over the frames that it dispatches and the sessions that it opens.
use shine.Prelude.{
  ℕ, zero, suc, ◌≡◌, refl, sym, ◌∙◌, ap, subst, inl, inr, ◌⊎◌, List, [], ◌∷◌, ◌++◌, Option, none,
  some, Bool, true, false, Bytes, Result, ok, err, length, get_elem?, ◌==◌, if◌then◌else◌, arith,
  Bool-cases,
}
use shine.Proto.Frame.{ShineFrame}
use shine.Proto.Frame
use shine.Transport.Address.{Address, default_address, parse_binary}
use shine.Transport.Session.{
  Session, SessionState, init, opened, half_closed_local, half_closed_remote, closed, Protocol, tcp,
  udp, Call,
}
use shine.Transport.Session
use shine.Transport.Link.State.{
  Link, Output, lookup, erase, emplace, find_session, erase_session, on_found, on_session,
  add_session,
}
use shine.Transport.Link.Closing.{get_elem?-set_keeps}
use shine.Transport.Link.Dispatch.{
  with_session, only_calls, accept, accept_parsed, deliver_udp, erase_closed, on_close, on_reset,
  on_pong, dispatch_frame,
}

-- The object at a position is there and has the sid.
abbrev pub IsAt : ℕ → ℕ → List Session → Type 0
IsAt sid i objects = (s : Session) × (get_elem? objects i ≡ some s) × (s.sid ≡ sid)

-- Every entry of the table leads to an object with the sid it is entered under.
unfoldable pub IsTable : List (ℕ × ℕ) → List Session → Type 0
IsTable table objects = (sid i : ℕ) → lookup sid table ≡ some i → IsAt sid i objects

lookup-erase_eq : (sid : ℕ) (table : List (ℕ × ℕ)) → lookup sid (erase sid table) ≡ none
unfolding lookup erase
lookup-erase_eq sid [] = refl
lookup-erase_eq sid ((m, j) ∷ table) = grind (arith, lookup-erase_eq sid table)

pub lookup-erase :
    (sid k i : ℕ) (table : List (ℕ × ℕ))
    → lookup k (erase sid table) ≡ some i
    → lookup k table ≡ some i
unfolding lookup erase
lookup-erase sid k i [] h = h
lookup-erase sid k i ((m, j) ∷ table) h =
    grind (arith, lookup-erase sid k i table, lookup-erase_eq sid table)

pub lookup-emplace :
    (sid j k i : ℕ) (table : List (ℕ × ℕ))
    → lookup k (emplace sid j table) ≡ some i
    → (lookup k table ≡ some i) ⊎ ((sid ≡ k) × (j ≡ i))
unfolding lookup emplace
lookup-emplace sid j k i table h = grind arith

IsTable-erase :
    (sid : ℕ) (table : List (ℕ × ℕ)) (objects : List Session)
    → IsTable table objects
    → IsTable (erase sid table) objects
unfolding IsTable
IsTable-erase sid table objects h k i e = h k i (lookup-erase sid k i table e)

IsAt-append : (sid i : ℕ) (xs ys : List Session) → IsAt sid i xs → IsAt sid i (xs ++ ys)
IsAt-append sid i [] ys (s, e, p) = absurd cc
IsAt-append sid zero (x ∷ xs) ys h = h
IsAt-append sid (suc i) (x ∷ xs) ys h = IsAt-append sid i xs ys h

IsAt-last : (xs : List Session) (s : Session) → IsAt s.sid (length xs) (xs ++ (s ∷ []))
IsAt-last [] s = (s, refl, refl)
IsAt-last (x ∷ xs) s = IsAt-last xs s

IsTable-add_session :
    (sid : ℕ) (s : Session) (l : Link)
    → s.sid ≡ sid
    → IsTable l.sessions l.objects
    → IsTable (add_session sid s l).sessions (add_session sid s l).objects
unfolding IsTable add_session
IsTable-add_session sid s l e h k i t =
    elim (lookup-emplace sid (length l.objects) k i l.sessions t) [
      | inl old ↦ IsAt-append k i l.objects (s ∷ []) (h k i old)
      | inr (same, last) ↦
          subst (λ p. IsAt k p (l.objects ++ (s ∷ []))) last
            (subst (λ m. IsAt m (length l.objects) (l.objects ++ (s ∷ []))) (e ∙ same)
              (IsAt-last l.objects s))
    ]

-- A method of a session keeps its sid.
abbrev KeepsSid : (Session → Session × List Call) → Type 0
KeepsSid method = (s : Session) → (method s).0.sid ≡ s.sid

IsTable-on_found :
    (j : ℕ) (method : Session → Session × List Call) (l : Link) (o : Option Session)
    → get_elem? l.objects j ≡ o
    → KeepsSid method
    → IsTable l.sessions l.objects
    → IsTable (on_found j method l o).0.sessions (on_found j method l o).0.objects
unfolding IsTable on_found
IsTable-on_found j method l none g keeps h k i t = h k i t
IsTable-on_found j method l (some s) g keeps h k i t =
    let (x, at, same) = h k i t in
    get_elem?-set_keeps (λ y. y.sid ≡ k) l.objects i j x _ at same
      λ there _.
        let both : some s ≡ some x = sym g ∙ there in
        let one : s ≡ x = cc in keeps s ∙ ap (λ y. y.sid) one ∙ same

IsTable-on_session :
    (j : ℕ) (method : Session → Session × List Call) (l : Link)
    → KeepsSid method
    → IsTable l.sessions l.objects
    → IsTable (on_session j method l).0.sessions (on_session j method l).0.objects
unfolding on_session
IsTable-on_session j method l = IsTable-on_found j method l (get_elem? l.objects j) refl

only_calls_keeps : (f : Session → List Call) → KeepsSid (only_calls f)
only_calls_keeps f s = refl

on_window_keeps : (delta : ℕ) → KeepsSid (Session.on_window delta)
unfolding Session.on_window
on_window_keeps delta s = refl

on_reset_keeps : KeepsSid Session.on_reset
unfolding Session.on_reset
on_reset_keeps s = refl

on_peer_close_keeps : KeepsSid Session.on_peer_close
unfolding Session.on_peer_close
on_peer_close_keeps s = refl

-- A link with a good table, and the result of an operation on it.
abbrev pub HasTable : Link → Type 0
HasTable l = IsTable l.sessions l.objects

with_session-HasTable :
    (l : Link) (o : Option ℕ) (act : ℕ → Link × List Output)
    → HasTable l
    → ((i : ℕ) → HasTable (act i).0)
    → HasTable (elim o as (λ _. Link × List Output) [ none ↦ (l, []) | some i ↦ act i ]).0
with_session-HasTable l none act h each = h
with_session-HasTable l (some i) act h each = each i

erase_closed-HasTable :
    (st : SessionState) (sid : ℕ) (l : Link) → HasTable l → HasTable (erase_closed st sid l)
unfolding erase_closed erase_session
erase_closed-HasTable closed sid l h = IsTable-erase sid l.sessions l.objects h
erase_closed-HasTable _ sid l h = h

accept-HasTable :
    (l : Link) (sid win : ℕ) (target : Address) (protocol : Protocol)
    → HasTable l
    → HasTable (accept l sid win target protocol).0
unfolding accept Session.create
accept-HasTable l sid win target protocol h = IsTable-add_session sid _ l refl h

accept_parsed-HasTable :
    (l : Link) (sid win : ℕ) (r : Result Address)
    → HasTable l
    → HasTable (accept_parsed l sid win r).0
unfolding accept_parsed
accept_parsed-HasTable l sid win (err status) h = h
accept_parsed-HasTable l sid win (ok target) h = accept-HasTable l sid win target tcp h

deliver_udp-HasTable :
    (l : Link) (i : ℕ) (payload : Bytes) (r : Result Address)
    → HasTable l
    → HasTable (deliver_udp l i payload r).0
unfolding deliver_udp
deliver_udp-HasTable l i payload (err status) h = h
deliver_udp-HasTable l i payload (ok addr) h =
    IsTable-on_session i _ l (only_calls_keeps (Session.on_udp_data payload addr)) h

if-HasTable :
    (b : Bool) (l : Link) (r : Link × List Output)
    → HasTable l
    → HasTable r.0
    → HasTable (if b then r else (l, [])).0
if-HasTable true l r h k = k
if-HasTable false l r h k = h

on_pong-HasTable : (now : ℕ) (l : Link) (nonce : ℕ) → HasTable l → HasTable (on_pong now l nonce)
unfolding on_pong
on_pong-HasTable now l nonce h = elim (Bool-cases (l.pending_ping_nonce == nonce)) [
  | inl e ↦ rw e h
  | inr e ↦ rw e h
]

-- Whatever frame is dispatched, afterwards every entry of the session table still leads to an object
-- that has the sid it is entered under, when that held before.
pub dispatch_frame-IsTable :
    (now : ℕ) (l : Link) (f : ShineFrame)
    → IsTable l.sessions l.objects
    → IsTable (dispatch_frame now l f).0.sessions (dispatch_frame now l f).0.objects
unfolding dispatch_frame with_session on_close on_reset erase_session
dispatch_frame-IsTable now l (Frame.data_frame sid payload) h =
    with_session-HasTable l (find_session l sid) _ h
      λ i. IsTable-on_session i _ l (only_calls_keeps (Session.on_data payload)) h
dispatch_frame-IsTable now l (Frame.udp_data sid addr_blob payload) h =
    with_session-HasTable l (find_session l sid) _ h
      λ i. deliver_udp-HasTable l i payload (parse_binary addr_blob) h
dispatch_frame-IsTable now l (Frame.new sid addr_blob win) h =
    if-HasTable l.has_handler l _ h (accept_parsed-HasTable l sid win (parse_binary addr_blob) h)
dispatch_frame-IsTable now l (Frame.new_udp sid) h =
    if-HasTable l.has_handler l _ h (accept-HasTable l sid 0 default_address udp h)
dispatch_frame-IsTable now l (Frame.close sid reason) h =
    with_session-HasTable l (find_session l sid) _ h
      λ i. erase_closed-HasTable _ sid _ (IsTable-on_session i _ l on_peer_close_keeps h)
dispatch_frame-IsTable now l (Frame.reset sid) h =
    with_session-HasTable l (find_session l sid) _ h
      λ i. IsTable-erase sid _ _ (IsTable-on_session i _ l on_reset_keeps h)
dispatch_frame-IsTable now l (Frame.window sid delta) h =
    with_session-HasTable l (find_session l sid) _ h
      λ i. IsTable-on_session i _ l (on_window_keeps delta) h
dispatch_frame-IsTable now l (Frame.pong nonce) h = on_pong-HasTable now l nonce h
dispatch_frame-IsTable now l _ h = h
