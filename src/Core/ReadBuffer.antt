-- ===== src/Core/ReadBuffer.antt =====
-- `ReadBuffer` of src/core/buffer.hpp: a vector with a consumed and a committed position.
pub mod Contents
pub mod Capacity
pub mod Queue
use shine.Prelude.{
  ℕ, ◌+◌, ◌-◌, ◌*◌, ◌/◌, max, Bytes, ◌++◌, leb, ltb, if◌then◌else◌, length, take, drop, replicate,
  ◌≤◌,
}

pub record ReadBuffer : Type 0 where
  pub buf : Bytes
  pub head : ℕ
  pub size : ℕ

-- `ReadBuffer(initial)`: the vector holds `initial` zero bytes.
unfoldable pub create : ℕ → ReadBuffer
create initial = record { buf = replicate initial 0; head = 0; size = 0 }

abbrev pub writable_size : ReadBuffer → ℕ
writable_size b = length b.buf - b.size

-- What a read from the socket puts at `writable_ptr()`.
unfoldable pub fill : Bytes → ReadBuffer → ReadBuffer
fill d b = record b { buf = take b.size b.buf ++ (d ++ drop (b.size + length d) b.buf) }

unfoldable pub committed : ℕ → ReadBuffer → ReadBuffer
committed n b = record b { size = b.size + n }

-- The readable view, `data()` and `size()`.
abbrev pub contents : ReadBuffer → Bytes
contents b = take (b.size - b.head) (drop b.head b.buf)

-- `memmove` of the readable bytes to the front.
unfoldable pub compact : ReadBuffer → ReadBuffer
compact b = record {
  buf = take (b.size - b.head) (drop b.head b.buf) ++ drop (b.size - b.head) b.buf;
  head = 0;
  size = b.size - b.head;
}

-- `consume`, behind `head_ += n`.
unfoldable pub settle : ReadBuffer → ReadBuffer
settle b =
    if leb b.size b.head
    then record b { head = 0; size = 0 }
    else if ltb (length b.buf / 2) b.head
    then compact b
    else b

unfoldable pub consume : ℕ → ReadBuffer → ReadBuffer
consume n b = settle (record b { head = b.head + n })

-- `buf_.resize(max(2 * capacity, need))`.
unfoldable pub grow : ℕ → ReadBuffer → ReadBuffer
grow n b = record b { buf = b.buf ++ replicate (cap - length b.buf) 0 }
  where
    cap : ℕ
    cap = max (length b.buf * 2) (b.size - b.head + n)

-- `if (head_ > 0) consume(0);`.
unfoldable pub tidy : ReadBuffer → ReadBuffer
tidy b = if ltb 0 b.head then consume 0 b else b

-- The second test of `ensure_writable` and what follows it.
unfoldable pub grow_unless : ℕ → ReadBuffer → ReadBuffer
grow_unless n b = if leb n (writable_size b) then b else grow n b

unfoldable pub ensure_writable : ℕ → ReadBuffer → ReadBuffer
ensure_writable n b = if leb n (writable_size b) then b else grow_unless n (tidy b)

-- The positions lie in the vector, in order.
pub record IsValid (b : ReadBuffer) : Type 0 where
  pub head_le : b.head ≤ b.size
  pub size_le : b.size ≤ length b.buf
