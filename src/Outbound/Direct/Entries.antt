-- ===== src/Outbound/Direct/Entries.antt =====
-- The entries of the cache of src/outbound/direct_outbound.cpp: how many there are, and where they come
-- from.
use shine.Prelude.{
  suc, ◌<◌, ◌≤◌, ◌≡◌, inl, inr, refl, sym, ap, subst, List, [], ◌∷◌, Option, none, some, arith,
  Bytes, Mem, length, ltb, Bool-cases, bytes_eq, bytes_eq_sound,
}
use shine.Route.Category.{find_code}
use shine.Outbound.Direct.{Entry, Cache, overwrite, assign, remember, Datagram}

length-overwrite :
    (domain : Bytes) (entry : Entry) (cache : Cache)
    → length (overwrite domain entry cache) ≡ length cache
unfolding overwrite
length-overwrite domain entry [] = refl
length-overwrite domain entry ((d, old) ∷ cache) = elim (Bool-cases (bytes_eq d domain)) [
  | inl e ↦ rw e refl
  | inr e ↦ rw e (ap suc (length-overwrite domain entry cache))
]

length-assign :
    (domain : Bytes) (entry : Entry) (found : Option Entry) (cache : Cache)
    → length (assign domain entry found cache) ≤ suc (length cache)
unfolding assign
length-assign domain entry none cache = omega arith
length-assign domain entry (some old) cache = omega (arith, length-overwrite domain entry cache)

abbrev pub Bounded : Cache → Type 0
Bounded cache = length cache ≤ 1024

pub remember-Bounded :
    (domain : Bytes) (entry : Entry) (found : Option Entry) (cache : Cache)
    → Bounded cache
    → Bounded (remember domain entry found cache)
unfolding remember
remember-Bounded domain entry none cache h = elim (Bool-cases (ltb (length cache) 1024)) [
  | inl e ↦ rw e (
      let room : length cache < 1024 = ground arith in
      omega (arith, length-assign domain entry none cache))
  | inr e ↦ rw e h
]
remember-Bounded domain entry (some old) cache h = elim (Bool-cases (ltb (length cache) 1024)) [
  | inl e ↦ rw e (
      let room : length cache < 1024 = ground arith in
      omega (arith, length-assign domain entry (some old) cache))
  | inr e ↦ rw e (omega (arith, length-overwrite domain entry cache))
]

-- An entry is the answer to a resolution of its domain for one of the datagrams.
abbrev pub IsAnswer : List Datagram → Bytes → Entry → Type 0
IsAnswer ds domain entry =
    (d : Datagram) × Mem d ds
    × (d.target.domain ≡ domain)
    × (d.resolved ≡ some entry.0)
    × (d.later ≡ entry.1)

abbrev pub AllAnswers : List Datagram → Cache → Type 0
AllAnswers ds [] = Unit
AllAnswers ds ((domain, entry) ∷ cache) = IsAnswer ds domain entry × AllAnswers ds cache

pub AllAnswers-more :
    (d : Datagram) (ds : List Datagram) (cache : Cache)
    → AllAnswers ds cache
    → AllAnswers (d ∷ ds) cache
AllAnswers-more d ds [] h = tt
AllAnswers-more d ds ((domain, entry) ∷ cache) ((d', m, same, answered, at_time), h) =
    ((d', inr m, same, answered, at_time), AllAnswers-more d ds cache h)

pub find_code-IsAnswer :
    (ds : List Datagram) (domain : Bytes) (cache : Cache) (entry : Entry)
    → AllAnswers ds cache
    → find_code domain cache ≡ some entry
    → IsAnswer ds domain entry
unfolding find_code
find_code-IsAnswer ds domain [] entry h e = absurd cc
find_code-IsAnswer ds domain ((d, old) ∷ cache) entry (h, hs) e =
    elim (Bool-cases (bytes_eq d domain)) [
      | inl t ↦
          let found : some old ≡ some entry = rw t at e in
          let same : old ≡ entry = cc in
          subst (IsAnswer ds domain) same
            (subst (λ x. IsAnswer ds x old) (bytes_eq_sound d domain t) h)
      | inr t ↦ find_code-IsAnswer ds domain cache entry hs (rw t at e)
    ]

overwrite-AllAnswers :
    (ds : List Datagram) (domain : Bytes) (entry : Entry) (cache : Cache)
    → AllAnswers ds cache
    → IsAnswer ds domain entry
    → AllAnswers ds (overwrite domain entry cache)
unfolding overwrite
overwrite-AllAnswers ds domain entry [] h k = tt
overwrite-AllAnswers ds domain entry ((d, old) ∷ cache) (h, hs) k =
    elim (Bool-cases (bytes_eq d domain)) [
      | inl t ↦ rw t (subst (λ x. IsAnswer ds x entry) (sym (bytes_eq_sound d domain t)) k, hs)
      | inr t ↦ rw t (h, overwrite-AllAnswers ds domain entry cache hs k)
    ]

assign-AllAnswers :
    (ds : List Datagram) (domain : Bytes) (entry : Entry) (found : Option Entry) (cache : Cache)
    → AllAnswers ds cache
    → IsAnswer ds domain entry
    → AllAnswers ds (assign domain entry found cache)
unfolding assign
assign-AllAnswers ds domain entry none cache h k = (k, h)
assign-AllAnswers ds domain entry (some old) cache h k =
    overwrite-AllAnswers ds domain entry cache h k

pub remember-AllAnswers :
    (ds : List Datagram) (domain : Bytes) (entry : Entry) (found : Option Entry) (cache : Cache)
    → AllAnswers ds cache
    → IsAnswer ds domain entry
    → AllAnswers ds (remember domain entry found cache)
unfolding remember
remember-AllAnswers ds domain entry none cache h k = elim (Bool-cases (ltb (length cache) 1024)) [
  | inl e ↦ rw e (assign-AllAnswers ds domain entry none cache h k)
  | inr e ↦ rw e h
]
remember-AllAnswers ds domain entry (some old) cache h k =
    elim (Bool-cases (ltb (length cache) 1024)) [
      | inl e ↦ rw e (assign-AllAnswers ds domain entry (some old) cache h k)
      | inr e ↦ rw e (overwrite-AllAnswers ds domain entry cache h k)
    ]
