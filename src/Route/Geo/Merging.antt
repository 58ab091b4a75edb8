-- ===== src/Route/Geo/Merging.antt =====
-- What the merging and the search of src/route/geo_matcher.cpp promise.
use shine.Prelude.{
  ℕ, ◌-◌, ◌^◌, ◌≤◌, ◌<◌, ◌≡◌, refl, ◌∙◌, ap, inl, inr, ◌⊎◌, List, [], ◌∷◌, Option, none, some, Bool,
  true, false, ◌||◌, arith, ltb, leb, Bool-cases, lt→ltb, le→ltb_false, ltb_false→le, ltb→lt,
}
use shine.Route.Geo.{
  Range, insert, sort, reach, widen, merge_from, merge_sorted, merge, before_upper, inside, hit,
  match_ranges,
}

-- The search without any order: some range contains the value.
abbrev pub any_inside : ℕ → List Range → Bool
any_inside val [] = false
any_inside val (r ∷ rs) = inside val r || any_inside val rs

-- Sorted by `start`, from a value on.
pub Sorted : ℕ → List Range → Type 0
Sorted x [] = Unit
Sorted x (r ∷ rs) = (x ≤ r.start) × Sorted r.start rs

Sorted-weaken : (x y : ℕ) (rs : List Range) → x ≤ y → Sorted y rs → Sorted x rs
unfolding Sorted
Sorted-weaken x y [] h s = tt
Sorted-weaken x y (r ∷ rs) h s = (omega (arith, s.0), s.1)

none_inside : (val x : ℕ) (rs : List Range) → val < x → Sorted x rs → any_inside val rs ≡ false
unfolding Sorted inside
none_inside val x [] h s = refl
none_inside val x (r ∷ rs) h s =
    let later : val < r.start = omega (arith, s.0) in
    let out : leb r.start val ≡ false = ground arith in
    rw out (none_inside val r.start rs later s.1)

insert-Sorted :
    (x : ℕ) (r : Range) (rs : List Range) → x ≤ r.start → Sorted x rs → Sorted x (insert r rs)
unfolding Sorted insert
insert-Sorted x r [] h s = (h, tt)
insert-Sorted x r (y ∷ ys) h s = elim (Bool-cases (ltb y.start r.start)) [
  | inl e ↦
      let le : y.start ≤ r.start = omega (arith, ltb→lt y.start r.start e) in
      rw e (s.0, insert-Sorted y.start r ys le s.1)
  | inr e ↦ rw e (h, (ltb_false→le y.start r.start e, s.1))
]

sort-Sorted : (rs : List Range) → Sorted 0 (sort rs)
unfolding sort Sorted
sort-Sorted [] = tt
sort-Sorted (r ∷ rs) = insert-Sorted 0 r (sort rs) (omega arith) (sort-Sorted rs)

or_swap : (a b c : Bool) → a || (b || c) ≡ b || (a || c)
or_swap true true c = refl
or_swap true false c = refl
or_swap false true c = refl
or_swap false false c = refl

any_inside-insert :
    (val : ℕ) (r : Range) (rs : List Range)
    → any_inside val (insert r rs) ≡ inside val r || any_inside val rs
unfolding insert
any_inside-insert val r [] = refl
any_inside-insert val r (y ∷ ys) = elim (Bool-cases (ltb y.start r.start)) [
  | inl e ↦ rw e (
      ap (◌||◌ (inside val y)) (any_inside-insert val r ys)
      ∙ or_swap (inside val y) (inside val r) (any_inside val ys))
  | inr e ↦ rw e refl
]

any_inside-sort : (val : ℕ) (rs : List Range) → any_inside val (sort rs) ≡ any_inside val rs
unfolding sort
any_inside-sort val [] = refl
any_inside-sort val (r ∷ rs) =
    any_inside-insert val r (sort rs) ∙ ap (◌||◌ (inside val r)) (any_inside-sort val rs)

leb-cases : (a b : ℕ) → (leb a b ≡ true) × (a ≤ b) ⊎ (leb a b ≡ false) × (b < a)
leb-cases a b = ground arith

-- A value inside the last range or the next is inside what they are merged into.
inside-widen :
    (val top : ℕ) (last r : Range)
    → last.start ≤ r.start
    → r.start ≤ reach top last
    → inside val (widen last r) ≡ inside val last || inside val r
unfolding inside widen reach
inside-widen val top last r h near = ground arith

or_assoc : (a b c : Bool) → (a || b) || c ≡ a || (b || c)
or_assoc true b c = refl
or_assoc false b c = refl

-- The merged ranges begin where the last one does.
before_upper-early :
    (val top : ℕ) (previous : Option Range) (last : Range) (rs : List Range)
    → val < last.start
    → before_upper val previous (merge_from top last rs) ≡ previous
unfolding merge_from before_upper widen
before_upper-early val top previous last [] h = rw (lt→ltb val last.start h) refl
before_upper-early val top previous last (r ∷ rs) h =
    elim (leb r.start (reach top last))
      as (λ b.
        before_upper val previous (elim b as (λ _. List Range) [
          | true ↦ merge_from top (widen last r) rs
          | false ↦ last ∷ merge_from top r rs
        ])
        ≡ previous) [
          | true ↦ before_upper-early val top previous (widen last r) rs h
          | false ↦ rw (lt→ltb val last.start h) refl
        ]

-- A range behind a gap does not contain a value from the next range's start on.
outside_gap :
    (val top : ℕ) (last r : Range)
    → reach top last < r.start
    → r.start ≤ val
    → inside val last ≡ false
unfolding inside reach
outside_gap val top last r gap h = ground arith

outside_early : (val : ℕ) (r : Range) → val < r.start → inside val r ≡ false
unfolding inside
outside_early val r h = ground arith

or_false : (b : Bool) → b ≡ b || false
or_false true = refl
or_false false = refl

-- The step over a gap.
hit_gap :
    (val top : ℕ) (last r : Range) (rs : List Range)
    → reach top last < r.start
    → Sorted r.start rs
    → (r.start ≤ val
        → hit val (before_upper val (some last) (merge_from top r rs))
          ≡ inside val r || any_inside val rs)
    → hit val (before_upper val (some last) (merge_from top r rs))
      ≡ inside val last || (inside val r || any_inside val rs)
unfolding hit
hit_gap val top last r rs gap sorted later = elim (leb-cases r.start val) [
  | inl h ↦ later h.1 ∙ rw (outside_gap val top last r gap h.1) refl
  | inr h ↦
      rw
        (
          before_upper-early val top (some last) r rs h.1,
          outside_early val r h.1,
          none_inside val r.start rs h.1 sorted,
        )
        (or_false (inside val last))
]

merge_from_step :
    (top : ℕ) (last r : Range) (rs : List Range) (b : Bool)
    → leb r.start (reach top last) ≡ b
    → merge_from top last (r ∷ rs) ≡ elim b as (λ _. List Range) [
      | true ↦ merge_from top (widen last r) rs
      | false ↦ last ∷ merge_from top r rs
    ]
unfolding merge_from
merge_from_step top last r rs b h =
    ap
      (λ b. elim b as (λ _. List Range) [
        | true ↦ merge_from top (widen last r) rs
        | false ↦ last ∷ merge_from top r rs
      ])
      h

hit-merge_from :
    (val top : ℕ) (previous : Option Range) (last : Range) (rs : List Range)
    → last.start ≤ val
    → Sorted last.start rs
    → hit val (before_upper val previous (merge_from top last rs))
      ≡ inside val last || any_inside val rs
unfolding merge_from before_upper hit Sorted widen
hit-merge_from val top previous last [] h sorted =
    rw (le→ltb_false val last.start h) (or_false (inside val last))
hit-merge_from val top previous last (r ∷ rs) h sorted = elim (leb-cases r.start (reach top last)) [
  | inl near ↦
      ap (λ x. hit val (before_upper val previous x)) (merge_from_step top last r rs true near.0)
      ∙ hit-merge_from val top previous (widen last r) rs h
          (Sorted-weaken last.start r.start rs sorted.0 sorted.1)
      ∙ rw (inside-widen val top last r sorted.0 near.1)
          (or_assoc (inside val last) (inside val r) (any_inside val rs))
  | inr far ↦
      ap (λ x. hit val (before_upper val previous x)) (merge_from_step top last r rs false far.0)
      ∙ rw (le→ltb_false val last.start h) (
          hit_gap val top last r rs far.1 sorted.1
            λ from. hit-merge_from val top (some last) r rs from sorted.1)
]

match-merge_sorted :
    (val top : ℕ) (rs : List Range)
    → Sorted 0 rs
    → match_ranges val (merge_sorted top rs) ≡ any_inside val rs
unfolding match_ranges merge_sorted hit Sorted before_upper
match-merge_sorted val top [] sorted = refl
match-merge_sorted val top (r ∷ rs) sorted = elim (leb-cases r.start val) [
  | inl h ↦ hit-merge_from val top none r rs h.1 sorted.1
  | inr h ↦
      rw
        (
          before_upper-early val top none r rs h.1,
          outside_early val r h.1,
          none_inside val r.start rs h.1 sorted.1,
        )
        refl
]

-- The search in the sorted and merged ranges of any width finds a value exactly when some range that
-- was loaded contains it.
pub match_ranges-merge :
    (w val : ℕ) (rs : List Range) → match_ranges val (merge w rs) ≡ any_inside val rs
unfolding merge
match_ranges-merge w val rs =
    match-merge_sorted val (2 ^ w - 1) (sort rs) (sort-Sorted rs) ∙ any_inside-sort val rs
