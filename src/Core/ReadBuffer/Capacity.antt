-- ===== src/Core/ReadBuffer/Capacity.antt =====
-- The room that `ensure_writable` makes for the next read from the socket.
use shine.Prelude.{
  ℕ, ◌+◌, ◌-◌, ◌*◌, ◌/◌, ◌≤◌, ◌<◌, max, ◌≡◌, refl, inl, inr, arith, leb, Bool-cases, le→leb_false,
  length, take, drop, replicate, length-append, length-take, length-drop, length-replicate,
}
use shine.Core.ReadBuffer.{
  ReadBuffer, IsValid, writable_size, compact, settle, consume, tidy, grow, grow_unless,
  ensure_writable,
}
use shine.Core.ReadBuffer.Contents.{tidy_view}

capacity-settle : (b : ReadBuffer) → b.size ≤ length b.buf → length (settle b).buf ≡ length b.buf
unfolding settle compact
capacity-settle b h = ground (
  arith,
  length-append (take (b.size - b.head) (drop b.head b.buf)) (drop (b.size - b.head) b.buf),
  length-take (b.size - b.head) (drop b.head b.buf),
  length-drop b.head b.buf,
  length-drop (b.size - b.head) b.buf,
)

capacity-tidy : (b : ReadBuffer) → IsValid b → length (tidy b).buf ≡ length b.buf
unfolding tidy consume
capacity-tidy b v = ground (arith, capacity-settle (record b { head = b.head + 0 }) v.size_le)

length-grow :
    (n : ℕ) (b : ReadBuffer)
    → length (grow n b).buf ≡ max (length b.buf) (max (length b.buf * 2) (b.size - b.head + n))
unfolding grow
length-grow n b =
    let cap = max (length b.buf * 2) (b.size - b.head + n) in
    omega (
      arith,
      length-append b.buf (replicate (cap - length b.buf) 0),
      length-replicate {A = ℕ} (cap - length b.buf) 0,
    )

size-grow : (n : ℕ) (b : ReadBuffer) → (grow n b).size ≡ b.size
unfolding grow
size-grow n b = refl

grow_unless_room :
    (n : ℕ) (b : ReadBuffer)
    → b.size ≤ length b.buf
    → n ≤ length b.buf
    → n ≤ writable_size (grow_unless n b)
unfolding grow_unless
grow_unless_room n b h fits = elim (Bool-cases (leb n (writable_size b))) [
  | inl e ↦ rw e (ground arith)
  | inr e ↦ rw e (omega (arith, length-grow n b, size-grow n b))
]

-- A request that is at most the capacity is met: `n` bytes can be read into the buffer afterwards.
pub writable-ensure_writable :
    (n : ℕ) (b : ReadBuffer)
    → IsValid b
    → n ≤ length b.buf
    → n ≤ writable_size (ensure_writable n b)
unfolding ensure_writable
writable-ensure_writable n b v fits = elim (Bool-cases (leb n (writable_size b))) [
  | inl e ↦ rw e (ground arith)
  | inr e ↦ rw e (
      grow_unless_room n (tidy b) (tidy_view b v).0.size_le
        (omega (arith, capacity-tidy b v, fits)))
]

tidy_still : (b : ReadBuffer) → b.head ≤ length b.buf / 2 → b.head < b.size → tidy b ≡ b
unfolding tidy consume settle
tidy_still b low live = ground arith

-- A larger request may not be: in a full buffer whose first bytes, at most half of it, are consumed,
-- the bytes are not moved to the front and the new capacity does not count the consumed ones.
pub ensure_writable_short :
    (n : ℕ) (b : ReadBuffer)
    → 0 < b.head
    → b.head ≤ length b.buf / 2
    → b.head < b.size
    → b.size ≡ length b.buf
    → length b.buf < n
    → writable_size (ensure_writable n b) < n
unfolding ensure_writable grow_unless
ensure_writable_short n b pos low live full big =
    rw
      (
        le→leb_false n (writable_size b) (omega arith),
        tidy_still b low live,
        le→leb_false n (writable_size b) (omega arith),
      )
      (omega (arith, length-grow n b, size-grow n b))
