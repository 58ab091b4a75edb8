-- ===== src/Examples/Numbers.antt =====
-- Number printing and reading that behave as Abseil documents, in decimal.
use shine.Prelude.{
  ℕ, zero, suc, ◌+◌, ◌-◌, ◌*◌, ◌/◌, ◌%◌, ◌^◌, ◌<◌, ◌≡◌, ◌≢◌, refl, ◌∙◌, ap, inl, inr, [], ◌∷◌,
  Option, none, some, ◌||◌, arith, Bytes, All, ltb, ◌==◌, if◌then◌else◌, Bool-cases, ℤ, pos, negsuc,
}
use shine.Absl.{Absl, IsLawful, IsDigit}

-- The decimal digits of `n` in front of `s`; `n + 1` rounds are more than enough.
unfoldable pub emit : ℕ → ℕ → Bytes → Bytes
emit zero n s = s
emit (suc k) n s =
    let more = emit k (n / 10) ((b'0' + n % 10) ∷ s) in if ltb n 10 then (b'0' + n) ∷ s else more

unfoldable pub scan : ℕ → Bytes → Option ℕ
scan n [] = some n
scan n (c ∷ s) = if ltb c b'0' || ltb b'9' c then none else scan (n * 10 + (c - b'0')) s

-- Only what fits an `int64_t` is a number.
unfoldable pub as_i64 : Option ℕ → Option ℤ
as_i64 none = none
as_i64 (some n) = if ltb n (2 ^ 63) then some (pos n) else none

unfoldable pub negated : Option ℕ → Option ℤ
negated none = none
negated (some zero) = some (pos 0)
negated (some (suc n)) = if ltb n (2 ^ 63) then some (negsuc n) else none

unfoldable pub read : Bytes → Option ℤ
read [] = none
read (c ∷ s) = if c == b'-' then negated (scan 0 s) else as_i64 (scan 0 (c ∷ s))

unfoldable pub hex_digit : ℕ → ℕ
hex_digit d = if ltb d 10 then b'0' + d else b'a' + (d - 10)

abbrev pub decimal : Absl
decimal = record {
  str_cat = λ n. emit (suc n) n [];
  hex_pad2 = λ n. hex_digit (n / 16 % 16) ∷ hex_digit (n % 16) ∷ [];
  simple_atoi = read;
}

decimal_run : decimal.str_cat 120 ≡ b'1' ∷ b'2' ∷ b'0' ∷ []
unfolding emit
decimal_run = refl

emit-IsDigit : (k n : ℕ) (s : Bytes) → All IsDigit s → All IsDigit (emit k n s)
unfolding emit
emit-IsDigit zero n s h = h
emit-IsDigit (suc k) n s h = elim (Bool-cases (ltb n 10)) [
  | inl e ↦ rw e (ground arith, h)
  | inr e ↦ rw e (emit-IsDigit k (n / 10) ((b'0' + n % 10) ∷ s) (omega arith, h))
]

scan_digit : (n d : ℕ) (s : Bytes) → d < 10 → scan n ((b'0' + d) ∷ s) ≡ scan (n * 10 + d) s
unfolding scan
scan_digit n d s h = ground arith

scan-emit : (k n : ℕ) (s : Bytes) → n < k → scan 0 (emit k n s) ≡ scan n s
unfolding emit
scan-emit zero n s h = absurd (omega arith)
scan-emit (suc k) n s h = elim (Bool-cases (ltb n 10)) [
  | inl e ↦ rw e (scan_digit 0 n s (ground arith) ∙ ap (λ m. scan m s) (omega arith))
  | inr e ↦ rw e (
      scan-emit k (n / 10) ((b'0' + n % 10) ∷ s) (ground arith)
      ∙ scan_digit (n / 10) (n % 10) s (omega arith)
      ∙ ap (λ m. scan m s) (omega arith))
]

-- A text of digits is read without a sign.
read_digits : (s : Bytes) → s ≢ [] → All IsDigit s → read s ≡ as_i64 (scan 0 s)
unfolding read
read_digits [] h d = absurd (h refl)
read_digits (c ∷ s) h d = ground arith

emit-ne-nil : (k n c : ℕ) (s : Bytes) → emit k n (c ∷ s) ≢ []
unfolding emit
emit-ne-nil zero n c s = λ e. cc
emit-ne-nil (suc k) n c s = ground (arith, emit-ne-nil k (n / 10) (b'0' + n % 10) (c ∷ s))

printed-ne-nil : (n : ℕ) → emit (suc n) n [] ≢ []
unfolding emit
printed-ne-nil n = ground (arith, emit-ne-nil n (n / 10) (b'0' + n % 10) [])

read-emit : (n : ℕ) → n < 2 ^ 63 → read (emit (suc n) n []) ≡ some (pos n)
unfolding scan as_i64
read-emit n h =
    read_digits _ (printed-ne-nil n) (emit-IsDigit (suc n) n [] tt)
    ∙ ap as_i64 (scan-emit (suc n) n [] (omega arith))
    ∙ ground arith

pub decimal-IsLawful : IsLawful decimal
decimal-IsLawful = record {
  str_cat-IsDigit = λ n. emit-IsDigit (suc n) n [] tt;
  simple_atoi-str_cat = read-emit;
}
