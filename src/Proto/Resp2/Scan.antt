-- ===== src/Proto/Resp2/Scan.antt =====
-- Where `findCrlf` of src/proto/resp2_parser.cpp stops.
use shine.Prelude.{
  ℕ, ◌+◌, ◌≤◌, ◌≡◌, ◌≢◌, [], ◌∷◌, ◌++◌, some, arith, Bytes, All, length, drop, length-drop,
  length-append, drop-append_le,
}
use shine.Proto.Resp2.Writer.{crlf}
use shine.Proto.Resp2.Parser.{find_crlf_from, find_crlf}

-- A position that the loop reports has both bytes behind it in the input.
find_crlf_from_bounds :
    (i : ℕ) (s : Bytes) (j : ℕ) → find_crlf_from i s ≡ some j → (i ≤ j) × (j + 2 ≤ i + length s)
unfolding find_crlf_from
find_crlf_from_bounds i [] j h = cc
find_crlf_from_bounds i (a ∷ []) j h = cc
find_crlf_from_bounds i (a ∷ b ∷ s) j h = ground (arith, find_crlf_from_bounds (i + 1) (b ∷ s) j)

pub find_crlf_bounds :
    (s : Bytes) (from j : ℕ) → find_crlf s from ≡ some j → (from ≤ j) × (j + 2 ≤ length s)
unfolding find_crlf
find_crlf_bounds s from j h =
    ground (arith, find_crlf_from_bounds from (drop from s) j, length-drop from s)

find_crlf_from-append :
    (i : ℕ) (s t : Bytes) (j : ℕ) → find_crlf_from i s ≡ some j → find_crlf_from i (s ++ t) ≡ some j
unfolding find_crlf_from
find_crlf_from-append i [] t j h = cc
find_crlf_from-append i (a ∷ []) t j h = cc
find_crlf_from-append i (a ∷ b ∷ s) t j h =
    ground (arith, find_crlf_from-append (i + 1) (b ∷ s) t j)

-- More input does not move the first CRLF.
pub find_crlf-append :
    (s t : Bytes) (from j : ℕ) → find_crlf s from ≡ some j → find_crlf (s ++ t) from ≡ some j
find_crlf-append s t from j h =
    let (low, high) = find_crlf_bounds s from j h in
    unfold find_crlf in
    rw (drop-append_le from s t (omega (arith, low, high)))
      (ground (arith, length-append s t, find_crlf_from-append from (drop from s) t j))

-- The loop passes over bytes that are no CR.
pub find_crlf_from_past :
    (i : ℕ) (s rest : Bytes)
    → All (λ b. b ≢ b'\r') s
    → find_crlf_from i (s ++ (crlf ++ rest)) ≡ some (i + length s)
unfolding find_crlf_from
find_crlf_from_past i [] rest h = ground arith
find_crlf_from_past i (a ∷ []) rest h = ground arith
find_crlf_from_past i (a ∷ b ∷ s) rest h = ground (arith, find_crlf_from_past (i + 1) (b ∷ s) rest)
