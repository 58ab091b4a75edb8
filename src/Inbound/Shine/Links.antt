-- ===== src/Inbound/Shine/Links.antt =====
-- No link of src/inbound/shine_inbound.cpp is lost.
use shine.Prelude.{
  ℕ, ◌≡◌, ◌⊎◌, inl, inr, refl, sym, subst, List, [], ◌∷◌, ◌++◌, true, Mem, arith, ◌==◌, Bool-cases,
}
use shine.Outbound.Shine.{is_closed, live}
use shine.Inbound.Shine.{Inbound, accepted, stop, Ran, begins, accepts, link_closes, stops}

is_closed-here : (closed : List ℕ) (l : ℕ) → is_closed (l ∷ closed) l ≡ true
unfolding is_closed
is_closed-here closed l = ground arith

is_closed-more :
    (closed : List ℕ) (c l : ℕ) → is_closed closed l ≡ true → is_closed (c ∷ closed) l ≡ true
unfolding is_closed
is_closed-more closed c l h = elim (Bool-cases (c == l)) [ inl e ↦ rw e refl | inr e ↦ rw e h ]

is_closed-append :
    (links closed : List ℕ) (l : ℕ)
    → is_closed closed l ≡ true
    → is_closed (links ++ closed) l ≡ true
is_closed-append [] closed l h = h
is_closed-append (x ∷ links) closed l h =
    is_closed-more (links ++ closed) x l (is_closed-append links closed l h)

Mem-is_closed : (links closed : List ℕ) (l : ℕ) → Mem l links → is_closed (links ++ closed) l ≡ true
Mem-is_closed [] closed l m = elim m [ ]
Mem-is_closed (x ∷ links) closed l (inl e) =
    subst (λ t. is_closed (x ∷ (links ++ closed)) t ≡ true) (sym e)
      (is_closed-here (links ++ closed) x)
Mem-is_closed (x ∷ links) closed l (inr m) =
    is_closed-more (links ++ closed) x l (Mem-is_closed links closed l m)

Mem-live :
    (closed links : List ℕ) (l : ℕ)
    → Mem l links
    → (is_closed closed l ≡ true) ⊎ Mem l (live closed links)
unfolding live
Mem-live closed [] l m = elim m [ ]
Mem-live closed (x ∷ links) l (inl e) = elim (Bool-cases (is_closed closed x)) [
  | inl t ↦ inl (subst (λ y. is_closed closed y ≡ true) (sym e) t)
  | inr t ↦ inr (rw t (inl e))
]
Mem-live closed (x ∷ links) l (inr m) = elim (Mem-live closed links l m) [
  | inl h ↦ inl h
  | inr h ↦ inr (elim (Bool-cases (is_closed closed x)) [ inl t ↦ rw t h | inr t ↦ rw t (inr h) ])
]

Mem-left : (xs ys : List ℕ) (l : ℕ) → Mem l xs → Mem l (xs ++ ys)
Mem-left [] ys l m = elim m [ ]
Mem-left (x ∷ xs) ys l (inl e) = inl e
Mem-left (x ∷ xs) ys l (inr m) = inr (Mem-left xs ys l m)

Mem-last : (xs : List ℕ) (l : ℕ) → Mem l (xs ++ (l ∷ []))
Mem-last [] l = inl refl
Mem-last (x ∷ xs) l = inr (Mem-last xs l)

-- A link is closed, or the inbound has it.
abbrev pub IsKept : ℕ → Inbound → Type 0
IsKept l i = (is_closed i.closed l ≡ true) ⊎ Mem l i.links

accepted-IsKept : (k l : ℕ) (i : Inbound) → IsKept l i → IsKept l (accepted k i)
unfolding accepted
accepted-IsKept k l i (inl h) = inl h
accepted-IsKept k l i (inr m) = elim (Mem-live i.closed i.links l m) [
  | inl h ↦ inl h
  | inr h ↦ inr (Mem-left (live i.closed i.links) (k ∷ []) l h)
]

stop-IsClosed : (l : ℕ) (i : Inbound) → IsKept l i → is_closed (stop i).closed l ≡ true
unfolding stop
stop-IsClosed l i (inl h) = is_closed-append i.links i.closed l h
stop-IsClosed l i (inr m) = Mem-is_closed i.links i.closed l m

Ran-IsKept : {all : List ℕ} {i : Inbound} → Ran all i → (l : ℕ) → Mem l all → IsKept l i
unfolding accepted
Ran-IsKept begins l m = elim m [ ]
Ran-IsKept (accepts {all} {i} k r) l (inl e) = inr (
    subst (λ t. Mem t (live i.closed i.links ++ (k ∷ []))) (sym e)
      (Mem-last (live i.closed i.links) k))
Ran-IsKept (accepts {all} {i} k r) l (inr m) = accepted-IsKept k l i (Ran-IsKept r l m)
Ran-IsKept (link_closes {all} {i} k r) l m = elim (Ran-IsKept r l m) [
  | inl h ↦ inl (is_closed-more i.closed k l h)
  | inr h ↦ inr h
]
Ran-IsKept (stops {all} {i} r) l m = inl (stop-IsClosed l i (Ran-IsKept r l m))

-- Whatever links were accepted and whichever of them have closed by themselves, `stop` leaves none
-- of them open.
pub stop_closes_all :
    {all : List ℕ} {i : Inbound} (l : ℕ)
    → Ran all i
    → Mem l all
    → is_closed (stop i).closed l ≡ true
stop_closes_all {all} {i} l r m = stop-IsClosed l i (Ran-IsKept r l m)
