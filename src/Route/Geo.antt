-- ===== src/Route/Geo.antt =====
-- `GeoIpMatcher` of src/route/geo_matcher.cpp: the address ranges of a country, merged on loading and
-- searched by bisection. The code has two copies, for 32 and for 128 bits; the width is an argument.
pub mod Merging
use Prim.Native.Nat.{bit_and, bit_or}
use shine.Prelude.{
  ℕ, ◌+◌, ◌-◌, ◌*◌, ◌%◌, ◌^◌, max, List, [], ◌∷◌, ◌++◌, Option, none, some, Bool, true, false, not,
  ◌&&◌, Bytes, bytes_eq, length, take, ltb, leb, ◌==◌, if◌then◌else◌, map,
}
use shine.Proto.Words.{fold_be}

-- `RangeV4` and `RangeV6`.
pub record Range : Type 0 where
  pub start : ℕ
  pub end : ℕ

-- `toU32` and `toU128`: the big-endian value of as many bytes as the width has.
unfoldable pub to_word : ℕ → Bytes → ℕ
to_word size s = if length s == size then fold_be 0 s else 0

-- The mask of a prefix in a width, and the range of an address under it. For a prefix above the width
-- the code shifts by a difference that has wrapped around, which is not defined in C++; the all ones
-- that come out here stand for no behaviour of the code.
unfoldable pub mask_of : ℕ → ℕ → ℕ
mask_of w prefix = if prefix == 0 then 0 else (2 ^ w - 1) * 2 ^ (w - prefix) % 2 ^ w

unfoldable pub range_of : ℕ → ℕ → ℕ → Range
range_of w val prefix =
    let mask = mask_of w prefix in
    let start = bit_and val mask in record { start = start; end = bit_or start (2 ^ w - 1 - mask) }

-- `std::sort` by `start`.
unfoldable pub insert : Range → List Range → List Range
insert r [] = r ∷ []
insert r (x ∷ xs) = let rest = insert r xs in if ltb x.start r.start then x ∷ rest else r ∷ x ∷ xs

unfoldable pub sort : List Range → List Range
sort [] = []
sort (r ∷ rs) = insert r (sort rs)

-- The end from which a range that starts no later is merged: `top` is the largest value.
unfoldable pub reach : ℕ → Range → ℕ
reach top last = last.end + (if last.end == top then 0 else 1)

unfoldable pub widen : Range → Range → Range
widen last r = record last { end = max last.end r.end }

-- The loop over the sorted ranges, with the last range of `merged`.
unfoldable pub merge_from : ℕ → Range → List Range → List Range
merge_from top last [] = last ∷ []
merge_from top last (r ∷ rs) = elim (leb r.start (reach top last)) [
  | true ↦ merge_from top (widen last r) rs
  | false ↦ last ∷ merge_from top r rs
]

unfoldable pub merge_sorted : ℕ → List Range → List Range
merge_sorted top [] = []
merge_sorted top (r ∷ rs) = merge_from top r rs

unfoldable pub merge : ℕ → List Range → List Range
merge w rs = merge_sorted (2 ^ w - 1) (sort rs)

-- The element in front of the one that `std::upper_bound` finds, where there is one.
unfoldable pub before_upper : ℕ → Option Range → List Range → Option Range
before_upper val previous [] = previous
before_upper val previous (r ∷ rs) =
    let rest = before_upper val (some r) rs in if ltb val r.start then previous else rest

unfoldable pub inside : ℕ → Range → Bool
inside val r = leb r.start val && leb val r.end

unfoldable pub hit : ℕ → Option Range → Bool
hit val none = false
hit val (some r) = inside val r

unfoldable pub match_ranges : ℕ → List Range → Bool
match_ranges val ranges = hit val (before_upper val none ranges)
