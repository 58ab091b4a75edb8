-- ===== src/Config/Values/Sizes.antt =====
-- The sizes that src/config/yaml_loader.cpp reads.
use shine.Prelude.{
  ℕ, suc, ◌*◌, ◌%◌, ◌^◌, ◌≡◌, refl, ap, [], ◌∷◌, ◌++◌, Bool, some, true, false, Bytes, All, ok,
  length, ◌==◌, take-append, drop-append, pos, arith,
}
use shine.Absl.{Absl}
use shine.Config.Values.{is_digit, span, split_unit, number_of, multiplier, parse_size}

span-append :
    (test : ℕ → Bool) (ds unit : Bytes)
    → All (λ c. test c ≡ true) ds
    → span test unit ≡ 0
    → span test (ds ++ unit) ≡ length ds
unfolding span
span-append test [] unit h e = e
span-append test (c ∷ ds) unit h e = rw (h.0) (ap suc (span-append test ds unit h.1 e))

-- A number in digits and a unit behind it are read as their product in 64 bits.
pub parse_size_digits :
    (absl : Absl) (c : ℕ) (ds unit : Bytes) (n m : ℕ)
    → All (λ c. is_digit c ≡ true) (c ∷ ds)
    → span is_digit unit ≡ 0
    → absl.simple_atoi (c ∷ ds) ≡ some (pos n)
    → multiplier unit ≡ ok m
    → parse_size absl ((c ∷ ds) ++ unit) ≡ ok (n * m % 2 ^ 64)
unfolding parse_size split_unit number_of
parse_size_digits absl c ds unit n m digits stop number mult =
    let some_digit : (length (c ∷ ds) == 0) ≡ false = ground arith in
    rw
      (
        span-append is_digit (c ∷ ds) unit digits stop,
        take-append (length (c ∷ ds)) (c ∷ ds) unit refl,
        drop-append (length (c ∷ ds)) (c ∷ ds) unit refl,
        some_digit,
        number,
        mult,
      )
      refl
