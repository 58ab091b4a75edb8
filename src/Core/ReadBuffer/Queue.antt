-- ===== src/Core/ReadBuffer/Queue.antt =====
-- The read buffer of src/core/buffer.hpp as what it is for: a queue of bytes.
use shine.Prelude.{ℕ, ◌≤◌, ◌≡◌, refl, ◌∙◌, ap, [], ◌++◌, Bytes, drop, length, arith}
use shine.Core.ReadBuffer.{
  ReadBuffer, create, writable_size, fill, committed, contents, consume, ensure_writable, IsValid,
}
use shine.Core.ReadBuffer.Contents.{
  consume-IsValid, contents-consume, contents-ensure_writable, contents-committed,
}

-- The buffers that a reader comes to, with the bytes that were put in and not taken out: room is made,
-- a read from the socket puts as many bytes as fit, and bytes are used up.
pub data Queue (initial : ℕ) : ReadBuffer → Bytes → Type 0 where
  made : Queue initial (create initial) []
  ensures :
      {b : ReadBuffer} {s : Bytes} (n : ℕ)
      → Queue initial b s
      → Queue initial (ensure_writable n b) s
  commits :
      {b : ReadBuffer} {s : Bytes} (d : Bytes)
      → Queue initial b s
      → length d ≤ writable_size b
      → Queue initial (committed (length d) (fill d b)) (s ++ d)
  consumes :
      {b : ReadBuffer} {s : Bytes} (n : ℕ)
      → Queue initial b s
      → Queue initial (consume n b) (drop n s)

create_view : (initial : ℕ) → IsValid (create initial) × (contents (create initial) ≡ [])
unfolding create
create_view initial = (record { head_le = omega arith; size_le = omega arith }, refl)

-- Whatever a reader does with the buffer, its positions stay in the vector, and the readable bytes are
-- those that were put in and not taken out, in order.
pub Queue-contents :
    {initial : ℕ} {b : ReadBuffer} {s : Bytes} → Queue initial b s → IsValid b × (contents b ≡ s)
Queue-contents {initial} made = create_view initial
Queue-contents (ensures {b} n q) =
    let (v, e) = Queue-contents q in let (v', e') = contents-ensure_writable n b v in (v', e' ∙ e)
Queue-contents (commits {b} d q fits) =
    let (v, e) = Queue-contents q in
    let (v', e') = contents-committed d b v fits in (v', e' ∙ ap (λ t. t ++ d) e)
Queue-contents (consumes {b} n q) =
    let (v, e) = Queue-contents q in (consume-IsValid n b v, contents-consume n b v ∙ ap (drop n) e)
