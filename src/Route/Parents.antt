-- ===== src/Route/Parents.antt =====
-- The loop over a domain and its parent domains in `GeoSiteMatcher::match` of
-- src/route/geo_matcher.cpp.
use shine.Prelude.{
  Mem, ◌≡◌, ◌↔◌, ◌⊎◌, inl, inr, refl, sym, ◌∙◌, ap, ap₂, subst, List, [], ◌∷◌, ◌++◌, Bool, true,
  false, ◌||◌, Bytes, bytes_eq, bytes_eq_sound, bytes_eq_refl, ◌==◌, if◌then◌else◌, Bool-cases,
  ==_iff,
}
use shine.Route.Suffix.{dot}

-- The loop over a domain and its parent domains: `cat.suffix.contains(d)`, `d.find('.')`.
unfoldable pub contains : List Bytes → Bytes → Bool
contains [] d = false
contains (s ∷ set) d = bytes_eq s d || contains set d

-- The parents of a domain, from the text behind its first dot on.
unfoldable pub parents : Bytes → List Bytes
parents [] = []
parents (c ∷ d) = let rest = parents d in if c == dot then d ∷ rest else rest

unfoldable pub any_of : List Bytes → List Bytes → Bool
any_of set [] = false
any_of set (d ∷ ds) = contains set d || any_of set ds

unfoldable pub suffix_match : List Bytes → Bytes → Bool
suffix_match set domain = any_of set (domain ∷ parents domain)

or_cases : (a b : Bool) → a || b ≡ true → (a ≡ true) ⊎ (b ≡ true)
or_cases true b h = inl refl
or_cases false b h = inr h

or_right : (a b : Bool) → b ≡ true → a || b ≡ true
or_right true b h = refl
or_right false b h = h

pub contains_sound : (set : List Bytes) (d : Bytes) → contains set d ≡ true → Mem d set
unfolding contains
contains_sound [] d h = absurd cc
contains_sound (s ∷ set) d h = elim (or_cases _ _ h) [
  | inl e ↦ inl (sym (bytes_eq_sound s d e))
  | inr e ↦ inr (contains_sound set d e)
]

pub contains_complete : (set : List Bytes) (d : Bytes) → Mem d set → contains set d ≡ true
unfolding contains
contains_complete [] d m = elim m [ ]
contains_complete (s ∷ set) d (inl e) = rw (e, bytes_eq_refl s) refl
contains_complete (s ∷ set) d (inr m) = or_right _ _ (contains_complete set d m)

any_of_sound : (set ds : List Bytes) → any_of set ds ≡ true → (d : Bytes) × Mem d ds × Mem d set
unfolding any_of
any_of_sound set [] h = absurd cc
any_of_sound set (x ∷ ds) h = elim (or_cases _ _ h) [
  | inl e ↦ (x, inl refl, contains_sound set x e)
  | inr e ↦ let (d, m, n) = any_of_sound set ds e in (d, inr m, n)
]

any_of_complete : (set ds : List Bytes) (d : Bytes) → Mem d ds → Mem d set → any_of set ds ≡ true
unfolding any_of
any_of_complete set [] d m n = elim m [ ]
any_of_complete set (x ∷ ds) d (inl e) n =
    ap (λ b. b || any_of set ds) (ap (contains set) (sym e) ∙ contains_complete set d n)
any_of_complete set (x ∷ ds) d (inr m) n = or_right _ _ (any_of_complete set ds d m n)

parents_sound :
    (domain d : Bytes) → Mem d (parents domain) → (pre : Bytes) × (domain ≡ pre ++ (dot ∷ d))
unfolding parents
parents_sound [] d m = elim m [ ]
parents_sound (c ∷ domain) d m = elim (Bool-cases (c == dot)) [
  | inl e ↦ elim (subst (λ b. Mem d (if b then domain ∷ parents domain else parents domain)) e m) [
    | inl same ↦ ([], ap₂ ◌∷◌ ((==_iff c dot).0 e) (sym same))
    | inr n ↦ let (pre, q) = parents_sound domain d n in (c ∷ pre, ap (◌∷◌ c) q)
  ]
  | inr e ↦
      let n = subst (λ b. Mem d (if b then domain ∷ parents domain else parents domain)) e m in
      let (pre, q) = parents_sound domain d n in (c ∷ pre, ap (◌∷◌ c) q)
]

Mem_if : (b : Bool) (x d : Bytes) (xs : List Bytes) → Mem d xs → Mem d (if b then x ∷ xs else xs)
Mem_if true x d xs m = inr m
Mem_if false x d xs m = m

parents_complete : (pre d : Bytes) → Mem d (parents (pre ++ (dot ∷ d)))
unfolding parents
parents_complete [] d = inl refl
parents_complete (c ∷ pre) d = Mem_if (c == dot) _ d _ (parents_complete pre d)

-- The loop finds a domain exactly when the set has a suffix that is the domain or follows a dot of
-- the domain.
pub suffix_match_iff :
    (set : List Bytes) (domain : Bytes)
    → (suffix_match set domain ≡ true)
      ↔ ((s : Bytes) × Mem s set × ((domain ≡ s) ⊎ ((pre : Bytes) × (domain ≡ pre ++ (dot ∷ s)))))
unfolding suffix_match
suffix_match_iff set domain = (
  λ h.
      let (d, m, n) = any_of_sound set (domain ∷ parents domain) h in
      (d, n, elim m [ inl e ↦ inl (sym e) | inr p ↦ inr (parents_sound domain d p) ]),
  λ (s, n, at).
      any_of_complete set (domain ∷ parents domain) s
        (elim at [
          | inl e ↦ inl (sym e)
          | inr (pre, e) ↦ inr (subst (λ x. Mem s (parents x)) (sym e) (parents_complete pre s))
        ])
        n,
)
