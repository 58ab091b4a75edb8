-- ===== src/Proto/Words.antt =====
-- The big-endian words of src/proto/shine_frame.cpp. `v >> k` and `& 0xff` are division and
-- remainder; in `x << k | b` the two sides share no bit, so the sum stands for `|`.
use shine.Prelude.{
  ℕ, ◌+◌, ◌*◌, ◌/◌, ◌%◌, ◌^◌, ◌<◌, ◌≡◌, [], ◌∷◌, ◌++◌, Option, none, some, Bytes, arith, ◌==◌,
  if◌then◌else◌, length,
}

-- The byte of `v` at bit `k`.
abbrev pub byte_at : ℕ → ℕ → ℕ
byte_at v k = v / 2 ^ k % 256

-- `putU32BE` and `putU64BE`: `out` with the word appended.
unfoldable pub put_u32_be : Bytes → ℕ → Bytes
put_u32_be out v = out ++ (byte_at v 24 ∷ byte_at v 16 ∷ byte_at v 8 ∷ byte_at v 0 ∷ [])

unfoldable pub put_u64_be : Bytes → ℕ → Bytes
put_u64_be out v =
    out
    ++ (byte_at v 56
        ∷ byte_at v 48
        ∷ byte_at v 40
        ∷ byte_at v 32
        ∷ byte_at v 24
        ∷ byte_at v 16
        ∷ byte_at v 8
        ∷ byte_at v 0
        ∷ [])

-- The loop `v = (v << 8) | b` over 64 bits.
unfoldable pub fold_be : ℕ → Bytes → ℕ
fold_be v [] = v
fold_be v (b ∷ s) = fold_be (v * 256 % 2 ^ 64 + b) s

-- `readU32BE` and `readU64BE`: `none` where they return false.
unfoldable pub read_u32_be : Bytes → Option ℕ
read_u32_be (a ∷ b ∷ c ∷ d ∷ []) = some (a * 2 ^ 24 + b * 2 ^ 16 + c * 2 ^ 8 + d)
read_u32_be s = none

unfoldable pub read_u64_be : Bytes → Option ℕ
read_u64_be s = if length s == 8 then some (fold_be 0 s) else none

-- A 64-bit word is read back.
pub read_u64_be-put : (v : ℕ) → v < 2 ^ 64 → read_u64_be (put_u64_be [] v) ≡ some v
unfolding read_u64_be fold_be put_u64_be
read_u64_be-put v h = ground arith

pub read_u32_be-put : (v : ℕ) → v < 2 ^ 32 → read_u32_be (put_u32_be [] v) ≡ some v
unfolding read_u32_be put_u32_be
read_u32_be-put v h = ground arith
