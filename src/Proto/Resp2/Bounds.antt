-- ===== src/Proto/Resp2/Bounds.antt =====
-- What the parser of src/proto/resp2_parser.cpp reports lies in its input.
use shine.Prelude.{
  ℕ, zero, suc, ◌+◌, ◌≤◌, ◌<◌, ◌≡◌, ◌⊎◌, refl, inl, inr, List, [], ◌∷◌, ◌++◌, Option, some, none,
  arith, Bytes, Result, ok, err, ◌>>=◌, ltb, ◌==◌, Bool-cases, length, length-append, pos, negsuc,
  ℤ,
}
use shine.Absl.{Absl}
use shine.Proto.Resp2.Parser.{
  Bulk, incomplete, value, slice, find_crlf, parse_bulk_body, bulk_of_length, bulk_of_header,
  parse_bulk_string, parse_elements, array_of_elements, array_of_length, array_of_header,
  frame_of_bulk, try_parse, Resp2Frame,
}
use shine.Proto.Resp2.Scan.{find_crlf_bounds}

module _ (absl : Absl) (s : Bytes) (max_bulk : ℕ) where
  -- Where a value and what is behind it stand.
  body_bounds :
      (hdr_end len vo vl eo : ℕ)
      → parse_bulk_body absl s max_bulk hdr_end len ≡ ok (value vo vl eo)
      → (hdr_end < vo) × (vo + vl + 2 ≡ eo) × (eo ≤ length s)
  unfolding parse_bulk_body
  body_bounds hdr_end len vo vl eo h = ground arith

  of_length_bounds :
      (hdr_end : ℕ) (o : Option ℤ) (vo vl eo : ℕ)
      → bulk_of_length absl s max_bulk hdr_end o ≡ ok (value vo vl eo)
      → (hdr_end < vo) × (vo + vl + 2 ≡ eo) × (eo ≤ length s)
  unfolding bulk_of_length
  of_length_bounds hdr_end none vo vl eo h = cc
  of_length_bounds hdr_end (some (negsuc n)) vo vl eo h = cc
  of_length_bounds hdr_end (some (pos len)) vo vl eo h = body_bounds hdr_end len vo vl eo h

  of_header_bounds :
      (off : ℕ) (o : Option ℕ) (vo vl eo : ℕ)
      → find_crlf s (off + 1) ≡ o
      → bulk_of_header absl s off max_bulk o ≡ ok (value vo vl eo)
      → (off < vo) × (vo + vl + 2 ≡ eo) × (eo ≤ length s)
  unfolding bulk_of_header
  of_header_bounds off none vo vl eo e h = cc
  of_header_bounds off (some hdr_end) vo vl eo e h =
      let (low, high) = find_crlf_bounds s (off + 1) hdr_end e in
      let (l, m, r) = of_length_bounds hdr_end _ vo vl eo h in (omega (arith, low, l), m, r)

  pub bulk_string_bounds :
      (off vo vl eo : ℕ)
      → parse_bulk_string absl s off max_bulk ≡ ok (value vo vl eo)
      → (off < vo) × (vo + vl + 2 ≡ eo) × (eo ≤ length s)
  unfolding parse_bulk_string
  bulk_string_bounds off vo vl eo h =
      ground (arith, of_header_bounds off (find_crlf s (off + 1)) vo vl eo refl)

  elements_bounds_step :
      (n off : ℕ) (es es' : List Bytes) (off' : ℕ) (r : Result Bulk)
      → parse_bulk_string absl s off max_bulk ≡ r
      → ((eo : ℕ) (es₁ : List Bytes)
          → eo ≤ length s
          → parse_elements absl s max_bulk n eo es₁ ≡ ok (some (es', off'))
          → (eo ≤ off') × (off' ≤ length s) × (length es' ≡ length es₁ + n))
      → parse_elements absl s max_bulk (suc n) off es ≡ ok (some (es', off'))
      → (off ≤ off') × (off' ≤ length s) × (length es' ≡ length es + suc n)
  unfolding parse_elements
  elements_bounds_step n off es es' off' (err e) q ih h = absurd (cc)
  elements_bounds_step n off es es' off' (ok incomplete) q ih h = absurd (cc)
  elements_bounds_step n off es es' off' (ok (value vo vl eo)) q ih h =
      let (low, mid, high) = bulk_string_bounds off vo vl eo q in
      let (l, m, r) = ih eo (es ++ (slice s vo vl ∷ [])) high (rw q at h) in
      (omega (arith, low, mid, l), m, omega (arith, r, length-append es (slice s vo vl ∷ [])))

  elements_bounds :
      (n off : ℕ) (es es' : List Bytes) (off' : ℕ)
      → off ≤ length s
      → parse_elements absl s max_bulk n off es ≡ ok (some (es', off'))
      → (off ≤ off') × (off' ≤ length s) × (length es' ≡ length es + n)
  elements_bounds zero off es es' off' fits h = unfold parse_elements in ground arith
  elements_bounds (suc n) off es es' off' fits h =
      elements_bounds_step n off es es' off' (parse_bulk_string absl s off max_bulk) refl
        (λ eo es₁ fits' h'. elements_bounds n eo es₁ es' off' fits' h') h

  -- What is reported of a parse: more input is wanted, or a frame that lies in the input.
  abbrev pub Fits : Resp2Frame → ℕ × Resp2Frame → Type 0
  Fits out p = ((p.0 ≡ 0) × (p.1 ≡ out)) ⊎ ((0 < p.0) × (p.0 ≤ length s))

  array_of_elements-Fits :
      (out : Resp2Frame) (n off : ℕ) (r : Result (Option (List Bytes × ℕ))) (p : ℕ × Resp2Frame)
      → 0 < off
      → off ≤ length s
      → parse_elements absl s max_bulk n off [] ≡ r
      → (r >>= array_of_elements absl out) ≡ ok p
      → Fits out p
  unfolding array_of_elements
  array_of_elements-Fits out n off (err e) p low fits q h = absurd (cc)
  array_of_elements-Fits out n off (ok none) p low fits q h = inl (ground arith, ground arith)
  array_of_elements-Fits out n off (ok (some (es, off'))) p low fits q h =
      let (l, m, r) = elements_bounds n off [] es off' fits q in inr (ground arith, ground arith)

  array_of_length-Fits :
      (out : Resp2Frame) (hdr_end : ℕ) (o : Option ℤ) (p : ℕ × Resp2Frame)
      → hdr_end + 2 ≤ length s
      → array_of_length absl s max_bulk hdr_end out o ≡ ok p
      → Fits out p
  unfolding array_of_length
  array_of_length-Fits out hdr_end none p fits h = absurd (cc)
  array_of_length-Fits out hdr_end (some (negsuc n)) p fits h = absurd (cc)
  array_of_length-Fits out hdr_end (some (pos n)) p fits h = elim (Bool-cases (ltb 1024 n)) [
    | inl e ↦ absurd (ground arith)
    | inr e ↦ array_of_elements-Fits out n (hdr_end + 2) _ p (omega arith) fits refl (rw e at h)
  ]

  array_of_header-Fits :
      (out : Resp2Frame) (o : Option ℕ) (p : ℕ × Resp2Frame)
      → find_crlf s 1 ≡ o
      → array_of_header absl s max_bulk out o ≡ ok p
      → Fits out p
  unfolding array_of_header
  array_of_header-Fits out none p e h = inl (ground arith, ground arith)
  array_of_header-Fits out (some hdr_end) p e h =
      array_of_length-Fits out hdr_end _ p (find_crlf_bounds s 1 hdr_end e).1 h

  frame_of_bulk-Fits :
      (out : Resp2Frame) (r : Result Bulk) (p : ℕ × Resp2Frame)
      → parse_bulk_string absl s 0 max_bulk ≡ r
      → (r >>= frame_of_bulk absl s out) ≡ ok p
      → Fits out p
  unfolding frame_of_bulk
  frame_of_bulk-Fits out (err e) p q h = absurd (cc)
  frame_of_bulk-Fits out (ok incomplete) p q h = inl (ground arith, ground arith)
  frame_of_bulk-Fits out (ok (value vo vl eo)) p q h =
      let (low, mid, high) = bulk_string_bounds 0 vo vl eo q in inr (ground arith, ground arith)

-- A successful parse wants more input and leaves `out` alone, or uses up at least one byte and no
-- more than there are.
pub try_parse_bounds :
    (absl : Absl) (max_bulk : ℕ) (s : Bytes) (out : Resp2Frame) (p : ℕ × Resp2Frame)
    → try_parse absl max_bulk s out ≡ ok p
    → ((p.0 ≡ 0) × (p.1 ≡ out)) ⊎ ((0 < p.0) × (p.0 ≤ length s))
unfolding try_parse
try_parse_bounds absl max_bulk [] out p h = inl (ground arith, ground arith)
try_parse_bounds absl max_bulk (type ∷ rest) out p h = elim (Bool-cases (type == b'$')) [
  | inl e ↦ frame_of_bulk-Fits absl (type ∷ rest) max_bulk out _ p refl (rw e at h)
  | inr e ↦ elim (Bool-cases (type == b'*')) [
    | inl e' ↦ array_of_header-Fits absl (type ∷ rest) max_bulk out _ p refl (rw (e, e') at h)
    | inr e' ↦ absurd (ground arith)
  ]
]
