-- ===== src/Config/Values.antt =====
-- `parseDuration` and `parseSize` of src/config/yaml_loader.cpp.
pub mod Sizes
use shine.Prelude.{
  ℕ, zero, suc, ◌+◌, ◌-◌, ◌*◌, ◌/◌, ◌%◌, ◌^◌, List, [], ◌∷◌, ◌++◌, Option, none, some, Bool, true,
  false, not, ◌&&◌, ◌||◌, Bytes, codes, bytes_eq, Result, ok, err, invalid_argument, ◌>>=◌, ◌>>◌,
  leb, ◌==◌, if◌then◌else◌, ℤ, pos, negsuc, take, drop,
}
use shine.Absl.{Absl}

-- The numbers of `double`: `absl::SimpleAtod`, the product with a number, and the cast to `int64_t`.
pub record Doubles : Type 1 where
  pub Double : Type 0
  pub simple_atod : Bytes → Option Double
  pub times : Double → ℕ → Double
  pub to_i64 : Double → ℤ

abbrev pub is_digit : ℕ → Bool
is_digit c = leb b'0' c && leb c b'9'

-- How many bytes at the front pass a test: the loop over `idx`.
unfoldable pub span : (ℕ → Bool) → Bytes → ℕ
span test [] = 0
span test (c ∷ s) = let rest = span test s in if test c then suc rest else 0

-- The number at the front and the unit behind it; `kind` is the word in the messages.
unfoldable pub split_unit : (ℕ → Bool) → Bytes → Bytes → Result (Bytes × Bytes)
split_unit test kind [] = err (invalid_argument (codes "empty " ++ kind))
split_unit test kind (c ∷ s) =
    let idx = span test (c ∷ s) in
    if idx == 0
    then err (invalid_argument ((codes "bad " ++ kind) ++ (codes ": " ++ (c ∷ s))))
    else ok (take idx (c ∷ s), drop idx (c ∷ s))

unfoldable pub number_of : {A : Type 0} → Option A → Result A
number_of none = err (invalid_argument (codes "bad number"))
number_of (some a) = ok a

abbrev pub is_one_of : Bytes → List Bytes → Bool
is_one_of s [] = false
is_one_of s (t ∷ ts) = bytes_eq s t || is_one_of s ts

module _ (doubles : Doubles) where
  -- The milliseconds of a value in a unit, before the cast.
  unfoldable pub in_milliseconds : Bytes → doubles.Double → Result doubles.Double
  in_milliseconds unit val =
      if bytes_eq unit (codes "ms")
      then ok val
      else if is_one_of unit (codes "s" ∷ [] ∷ [])
      then ok (doubles.times val 1000)
      else if bytes_eq unit (codes "m")
      then ok (doubles.times (doubles.times val 60) 1000)
      else if bytes_eq unit (codes "h")
      then ok (doubles.times (doubles.times val 3600) 1000)
      else err (invalid_argument (codes "unknown unit: " ++ unit))

  unfoldable pub parse_duration : Bytes → Result ℤ
  parse_duration s = do
    parts ← split_unit (λ c. is_digit c || (c == b'.')) (codes "duration") s
    val ← number_of (doubles.simple_atod parts.0)
    ms ← in_milliseconds parts.1 val
    ok (doubles.to_i64 ms)

-- `duration_cast` to seconds, which cuts toward zero.
unfoldable pub to_seconds : ℤ → ℤ
to_seconds (pos n) = pos (n / 1000)
to_seconds (negsuc n) = negated (suc n / 1000)
  where
    negated : ℕ → ℤ
    negated zero = pos 0
    negated (suc k) = negsuc k

unfoldable pub multiplier : Bytes → Result ℕ
multiplier unit =
    if is_one_of unit ([] ∷ codes "B" ∷ [])
    then ok 1
    else if is_one_of unit (codes "K" ∷ codes "KB" ∷ codes "KiB" ∷ [])
    then ok 1024
    else if is_one_of unit (codes "M" ∷ codes "MB" ∷ codes "MiB" ∷ [])
    then ok (1024 * 1024)
    else if is_one_of unit (codes "G" ∷ codes "GB" ∷ codes "GiB" ∷ [])
    then ok (1024 * 1024 * 1024)
    else err (invalid_argument (codes "unknown size unit: " ++ unit))

-- The cast of an `int64_t` to `std::size_t`.
abbrev pub to_size : ℤ → ℕ
to_size (pos n) = n
to_size (negsuc n) = suc n * (2 ^ 64 - 1) % 2 ^ 64

unfoldable pub parse_size : Absl → Bytes → Result ℕ
parse_size absl s = do
  parts ← split_unit is_digit (codes "size") s
  val ← number_of (absl.simple_atoi parts.0)
  mult ← multiplier parts.1
  ok (to_size val * mult % 2 ^ 64)
