-- ===== src/Core/ReadBuffer/Contents.antt =====
-- The readable bytes as a queue: what each operation of the buffer does to them.
use shine.Prelude.{
  ℕ, ◌+◌, ◌-◌, ◌*◌, ◌/◌, ◌≤◌, max, ◌≡◌, refl, ◌∙◌, inl, inr, ◌++◌, Bytes, arith, leb, ltb,
  Bool-cases, length, take, drop, replicate, length-append, length-take, length-drop, take-append,
  take-append_le, drop-append_le, drop-drop, append_assoc, drop-take,
}
use shine.Core.ReadBuffer.{
  ReadBuffer, IsValid, fill, committed, contents, writable_size, compact, settle, consume, grow,
  tidy, grow_unless, ensure_writable,
}

compact-IsValid : (b : ReadBuffer) → IsValid b → IsValid (compact b)
unfolding compact
compact-IsValid b v = record {
  head_le = omega arith;
  size_le = omega (
    arith,
    length-append (contents b) (drop (b.size - b.head) b.buf),
    length-take (b.size - b.head) (drop b.head b.buf),
    length-drop b.head b.buf,
    v.head_le,
    v.size_le,
  );
}

length-contents : (b : ReadBuffer) → IsValid b → length (contents b) ≡ b.size - b.head
length-contents b v = omega (
  arith,
  length-take (b.size - b.head) (drop b.head b.buf),
  length-drop b.head b.buf,
  v.head_le,
  v.size_le,
)

contents-compact : (b : ReadBuffer) → IsValid b → contents (compact b) ≡ contents b
unfolding compact
contents-compact b v =
    take-append (b.size - b.head - 0) (contents b) (drop (b.size - b.head) b.buf)
      (omega (arith, length-contents b v))

settle_view :
    (b : ReadBuffer)
    → b.size ≤ length b.buf
    → IsValid (settle b) × (contents (settle b) ≡ contents b)
unfolding settle
settle_view b h = elim (Bool-cases (leb b.size b.head)) [
  | inl e ↦
      let z : b.size - b.head ≡ 0 = ground arith in
      rw e (record { head_le = omega arith; size_le = omega arith }, rw z refl)
  | inr e ↦ rw e (elim (Bool-cases (ltb (length b.buf / 2) b.head)) [
    | inl e' ↦
        let v : IsValid b = record { head_le = ground arith; size_le = h } in
        rw e' (compact-IsValid b v, contents-compact b v)
    | inr e' ↦ rw e' (record { head_le = ground arith; size_le = h }, refl)
  ])
]

pub consume-IsValid : (n : ℕ) (b : ReadBuffer) → IsValid b → IsValid (consume n b)
unfolding consume
consume-IsValid n b v = (settle_view _ v.size_le).0

-- Consuming takes bytes off the front of the readable bytes.
pub contents-consume :
    (n : ℕ) (b : ReadBuffer) → IsValid b → contents (consume n b) ≡ drop n (contents b)
unfolding consume
contents-consume n b v =
    (settle_view _ v.size_le).1
    ∙ (let e : b.size - (b.head + n) ≡ b.size - b.head - n = omega arith in
        rw (drop-take, drop-drop, e) refl)

grow_view :
    (n : ℕ) (b : ReadBuffer) → IsValid b → IsValid (grow n b) × (contents (grow n b) ≡ contents b)
unfolding grow
grow_view n b v = (
  record {
    head_le = v.head_le;
    size_le = omega (
      arith,
      v.size_le,
      length-append b.buf
          (replicate (max (length b.buf * 2) (b.size - b.head + n) - length b.buf) 0),
    );
  },
  rw (drop-append_le b.head b.buf _ (omega (arith, v.head_le, v.size_le))) (
      take-append_le (b.size - b.head) (drop b.head b.buf) _
        (omega (arith, length-drop b.head b.buf, v.size_le))),
)

pub tidy_view : (b : ReadBuffer) → IsValid b → IsValid (tidy b) × (contents (tidy b) ≡ contents b)
unfolding tidy
tidy_view b v = elim (Bool-cases (ltb 0 b.head)) [
  | inl e ↦ rw e (consume-IsValid 0 b v, contents-consume 0 b v)
  | inr e ↦ rw e (v, refl)
]

grow_unless_view :
    (n : ℕ) (b : ReadBuffer)
    → IsValid b
    → IsValid (grow_unless n b) × (contents (grow_unless n b) ≡ contents b)
unfolding grow_unless
grow_unless_view n b v = elim (Bool-cases (leb n (writable_size b))) [
  | inl e ↦ rw e (v, refl)
  | inr e ↦ rw e (grow_view n b v)
]

-- Making room loses no byte and moves none to another place of the queue.
pub contents-ensure_writable :
    (n : ℕ) (b : ReadBuffer)
    → IsValid b
    → IsValid (ensure_writable n b) × (contents (ensure_writable n b) ≡ contents b)
unfolding ensure_writable
contents-ensure_writable n b v = elim (Bool-cases (leb n (writable_size b))) [
  | inl e ↦ rw e (v, refl)
  | inr e ↦
      let (tidied, same) = tidy_view b v in
      let (grown, same') = grow_unless_view n (tidy b) tidied in rw e (grown, same' ∙ same)
]

-- A read from the socket that fits appends its bytes.
pub contents-committed :
    (d : Bytes) (b : ReadBuffer)
    → IsValid b
    → length d ≤ writable_size b
    → IsValid (committed (length d) (fill d b))
      × (contents (committed (length d) (fill d b)) ≡ contents b ++ d)
unfolding committed fill
contents-committed d b v fits =
    let tl = drop (b.size + length d) b.buf in
    let sized : length (take b.size b.buf) ≡ b.size =
      omega (arith, length-take b.size b.buf, v.size_le) in
    (
      record {
        head_le = omega (arith, v.head_le);
        size_le = omega (
          arith,
          fits,
          sized,
          v.size_le,
          length-append (take b.size b.buf) (d ++ tl),
          length-append d tl,
          length-drop (b.size + length d) b.buf,
        );
      },
      rw
          (
            drop-append_le b.head (take b.size b.buf) (d ++ tl) (omega (arith, sized, v.head_le)),
            drop-take b.head b.size b.buf,
            ← append_assoc (contents b) d tl,
          )
          (take-append (b.size + length d - b.head) (contents b ++ d) tl
            (omega (arith, length-append (contents b) d, length-contents b v, v.head_le))),
    )
