-- ===== src/Absl.antt =====
-- What the program takes from Abseil: the printing and reading of numbers. A parameter of the model.
use shine.Prelude.{ℕ, ◌≤◌, ◌<◌, ◌^◌, ◌≡◌, Option, some, Bytes, All, ℤ, pos}

pub record Absl : Type 0 where
  -- `absl::StrCat` of an unsigned number.
  pub str_cat : ℕ → Bytes
  -- `absl::StrCat` of `absl::Hex(n, absl::kZeroPad2)`.
  pub hex_pad2 : ℕ → Bytes
  -- `absl::SimpleAtoi` into an `int64_t`.
  pub simple_atoi : Bytes → Option ℤ

abbrev pub IsDigit : ℕ → Type 0
IsDigit c = (b'0' ≤ c) × (c ≤ b'9')

-- The documented behaviour that the program relies on: a number is printed in decimal digits, and
-- what was printed is read back as the same number where it fits.
pub record IsLawful (absl : Absl) : Type 0 where
  pub str_cat-IsDigit : (n : ℕ) → All IsDigit (absl.str_cat n)
  pub simple_atoi-str_cat : (n : ℕ) → n < 2 ^ 63 → absl.simple_atoi (absl.str_cat n) ≡ some (pos n)
