-- ===== src/Outbound/Shine/Pool.antt =====
-- The pool of src/outbound/shine_outbound.cpp.
pub mod InTurn
use shine.Prelude.{
  ℕ, zero, suc, ◌%◌, ◌<◌, ◌≤◌, ◌+◌, ◌^◌, ◌≡◌, ◌≢◌, ◌∙◌, ◌⊎◌, inl, inr, refl, sym, ap, subst, List,
  [], ◌∷◌, Option, none, some, true, false, arith, Mem, length, length-append, get_elem?, ltb,
  Bool-cases,
}
use shine.Outbound.Shine.{
  Outbound, fresh, is_closed, live, pick_of, pick_begin, pick_resume, unless_picked, stop, Step,
  picks, dialled, link_closes, stops, Reach, here, next, pick_or_make, Turn, requests, closes,
  Turns, none_yet, then_turn,
}

length-live : (closed links : List ℕ) → length (live closed links) ≤ length links
unfolding live
length-live closed [] = omega arith
length-live closed (l ∷ links) = elim (Bool-cases (is_closed closed l)) [
  | inl e ↦ rw e (omega (arith, length-live closed links))
  | inr e ↦ rw e (omega (arith, length-live closed links))
]

pub pool-pick_of : (links : List ℕ) (o : Outbound) → (pick_of links o).1.pool ≡ links
unfolding pick_of
pool-pick_of [] o = refl
pool-pick_of (l ∷ links) o = refl

pool-pick_begin : (o : Outbound) → (pick_begin o).1.pool ≡ live o.closed o.pool
unfolding pick_begin
pool-pick_begin o = pool-pick_of (live o.closed o.pool) o

pool-pick_resume :
    (size : ℕ) (answer : Option ℕ) (o : Outbound)
    → length o.pool ≤ size
    → length (pick_resume size answer o).1.pool ≤ size
unfolding pick_resume
pool-pick_resume size none o h = h
pool-pick_resume size (some l) o h = elim (Bool-cases (ltb (length o.pool) size)) [
  | inl e ↦ rw e (
      let room : length o.pool < size = ground arith in
      omega (arith, length-append o.pool (l ∷ [])))
  | inr e ↦ rw e h
]

Step-bounded :
    {size : ℕ} {o last : Outbound}
    → Step size o last
    → length o.pool ≤ size
    → length last.pool ≤ size
unfolding stop
Step-bounded {o = o} picks h =
    omega (arith, ap length (pool-pick_begin o), length-live o.closed o.pool)
Step-bounded {size} {o} (dialled answer) h = pool-pick_resume size answer o h
Step-bounded (link_closes l) h = h
Step-bounded stops h = omega arith

-- However the requests, the dials, the closing of links and `stop` interleave, the pool never has
-- more links than `pool_size`.
pub pool_bounded : {size : ℕ} {o : Outbound} → Reach size fresh o → length o.pool ≤ size
pool_bounded here = omega arith
pool_bounded (next r s) = Step-bounded s (pool_bounded r)

pub live-open :
    (closed links : List ℕ) (l : ℕ) → Mem l (live closed links) → is_closed closed l ≡ false
unfolding live
live-open closed [] l m = elim m [ ]
live-open closed (x ∷ links) l m = elim (Bool-cases (is_closed closed x)) [
  | inl e ↦ live-open closed links l (rw e at m)
  | inr e ↦ elim (rw e at m) [
    | inl same ↦ subst (λ t. is_closed closed t ≡ false) (sym same) e
    | inr m' ↦ live-open closed links l m'
  ]
]

pub Mem-get_elem? : (links : List ℕ) (i l : ℕ) → get_elem? links i ≡ some l → Mem l links
Mem-get_elem? [] i l h = absurd cc
Mem-get_elem? (x ∷ links) zero l h = let same : x ≡ l = cc in inl (sym same)
Mem-get_elem? (x ∷ links) (suc i) l h = inr (Mem-get_elem? links i l h)

pub get_elem?_there :
    (links : List ℕ) (i : ℕ) → i < length links → (l : ℕ) × (get_elem? links i ≡ some l)
get_elem?_there [] i h = absurd (omega arith)
get_elem?_there (x ∷ links) zero h = (x, refl)
get_elem?_there (x ∷ links) (suc i) h = get_elem?_there links i (omega arith)

-- A dial that answers after `stop`, where the pool may have a link, puts its link into the pool,
-- where it stays open.
pub late_dial :
    (size l : ℕ) (o : Outbound)
    → 0 < size
    → is_closed (stop o).closed l ≡ false
    → let o' = (pick_resume size (some l) (stop o)).1 in
      (o'.stopping ≡ true) × (o'.pool ≡ l ∷ []) × (is_closed o'.closed l ≡ false)
unfolding pick_resume stop
late_dial size l o room alive = let e : ltb 0 size ≡ true = ground arith in rw e (refl, refl, alive)

picked_kept :
    (size : ℕ) (answer : Option ℕ) (r : Option ℕ × Outbound) (l : ℕ)
    → r.0 ≡ some l
    → (unless_picked size answer r).1 ≡ r.1
unfolding unless_picked
picked_kept size answer (none, o) l h = absurd cc
picked_kept size answer (some k, o) l h = refl

pick_of-resumed :
    (size : ℕ) (answer : Option ℕ) (links : List ℕ) (o : Outbound)
    → length links ≤ 1
    → length (unless_picked size answer (pick_of links o)).1.pool ≤ 1
unfolding pick_of unless_picked pick_resume
pick_of-resumed size none [] o h = omega arith
pick_of-resumed size (some l) [] o h = elim (Bool-cases (ltb 0 size)) [
  | inl e ↦ rw e (omega arith)
  | inr e ↦ rw e (omega arith)
]
pick_of-resumed size answer (l ∷ []) o h =
    let (k, e) = get_elem?_there (l ∷ []) (o.rr % 1) (omega arith) in
    omega (arith, ap (λ o. length o.pool) (picked_kept size answer (pick_of (l ∷ []) o) k e))
pick_of-resumed size answer (l ∷ k ∷ links) o h = absurd (omega arith)

Turn-one :
    {size : ℕ} {o last : Outbound} → Turn size o last → length o.pool ≤ 1 → length last.pool ≤ 1
unfolding pick_or_make pick_begin
Turn-one {size} {o} (requests answer) h =
    pick_of-resumed size answer (live o.closed o.pool) o
      (omega (arith, length-live o.closed o.pool))
Turn-one (closes l) h = h

-- Where requests come one after another, whatever `pool_size` is, the pool never has more than one
-- link.
pub Turns-one : {size : ℕ} {o : Outbound} → Turns size o → length o.pool ≤ 1
Turns-one none_yet = omega arith
Turns-one (then_turn r s) = Turn-one s (Turns-one r)
