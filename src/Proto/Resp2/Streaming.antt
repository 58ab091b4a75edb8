-- ===== src/Proto/Resp2/Streaming.antt =====
-- A frame that arrives byte by byte: the parser waits until it is whole.
use shine.Prelude.{
  ℕ, zero, suc, ◌<◌, ◌≡◌, inl, inr, ◌++◌, arith, Bytes, Result, ok, err, length, refl, sym, ◌∙◌,
}
use shine.Absl.{Absl}
use shine.Proto.Resp2.Parser.{try_parse, Resp2Frame}
use shine.Proto.Resp2.Bounds.{try_parse_bounds}
use shine.Proto.Resp2.Extension.{try_parse-append}

module _ (absl : Absl) (max_bulk : ℕ) (s t : Bytes) (out : Resp2Frame) where
  prefix_cases :
      (n : ℕ) (f : Resp2Frame) (r : Result (ℕ × Resp2Frame))
      → try_parse absl max_bulk s out ≡ r
      → try_parse absl max_bulk (s ++ t) out ≡ ok (n, f)
      → length s < n
      → r ≡ ok (0, out)
  prefix_cases n f (err e) q whole short =
      absurd (cc (try_parse-append absl max_bulk s t out (λ c. cc)))
  prefix_cases n f (ok (zero, g)) q whole short =
      elim (try_parse_bounds absl max_bulk s out (0, g) q) [
        | inl h ↦ ground (arith, h.1)
        | inr h ↦ absurd (omega (arith, h.0))
      ]
  prefix_cases n f (ok (suc m, g)) q whole short =
      elim (try_parse_bounds absl max_bulk s out (suc m, g) q) [
        | inl h ↦ absurd (omega (arith, h.0))
        | inr h ↦ absurd (
            ground (
              arith,
              h.1,
              sym q
                  ∙ sym (try_parse-append absl max_bulk s t out (λ c. ground (arith, sym q ∙ c)))
                  ∙ whole,
            ))
      ]

  -- A part of the input that ends before the frame does is reported as incomplete, never as an error
  -- and never as a shorter frame.
  pub try_parse_prefix :
      (n : ℕ) (f : Resp2Frame)
      → try_parse absl max_bulk (s ++ t) out ≡ ok (n, f)
      → length s < n
      → try_parse absl max_bulk s out ≡ ok (0, out)
  try_parse_prefix n f = prefix_cases n f _ refl
