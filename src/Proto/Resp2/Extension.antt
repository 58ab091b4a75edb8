-- ===== src/Proto/Resp2/Extension.antt =====
-- Input that arrives in pieces: once the parser of src/proto/resp2_parser.cpp has decided, more
-- input behind what it saw changes nothing.
use shine.Prelude.{
  ℕ, zero, suc, ◌+◌, ◌-◌, ◌≤◌, ◌≡◌, ◌≢◌, refl, inl, inr, List, [], ◌∷◌, ◌++◌, Option, some, none,
  arith, Bytes, Result, ok, err, ◌>>=◌, ltb, ◌==◌, Bool-cases, length, drop, length-drop,
  length-append, drop-append_le, take-append_le, get_or-append, pos, negsuc, ℤ,
}
use shine.Absl.{Absl}
use shine.Proto.Resp2.Parser.{
  Bulk, incomplete, value, slice, find_crlf, parse_bulk_body, bulk_of_length, bulk_of_header,
  parse_bulk_string, parse_elements, array_of_elements, array_of_length, array_of_header,
  frame_of_bulk, try_parse, Resp2Frame,
}
use shine.Proto.Resp2.Bounds.{bulk_string_bounds}
use shine.Proto.Resp2.Scan.{find_crlf_bounds, find_crlf-append}

pub slice-append :
    (s t : Bytes) (off len : ℕ) → off + len ≤ length s → slice (s ++ t) off len ≡ slice s off len
slice-append s t off len h =
    rw (drop-append_le off s t (omega (arith, h)))
      (take-append_le len (drop off s) t (omega (arith, length-drop off s, h)))

module _ (absl : Absl) (s t : Bytes) (max_bulk : ℕ) where
  body-append :
      (hdr_end len : ℕ)
      → parse_bulk_body absl s max_bulk hdr_end len ≢ ok incomplete
      → parse_bulk_body absl (s ++ t) max_bulk hdr_end len
        ≡ parse_bulk_body absl s max_bulk hdr_end len
  unfolding parse_bulk_body
  body-append hdr_end len h = ground (
    arith,
    length-append s t,
    get_or-append s t (hdr_end + 2 + len) 0,
    get_or-append s t (hdr_end + 2 + len + 1) 0,
  )

  of_length-append :
      (hdr_end : ℕ) (o : Option ℤ)
      → bulk_of_length absl s max_bulk hdr_end o ≢ ok incomplete
      → bulk_of_length absl (s ++ t) max_bulk hdr_end o ≡ bulk_of_length absl s max_bulk hdr_end o
  unfolding bulk_of_length
  of_length-append hdr_end none h = refl
  of_length-append hdr_end (some (negsuc n)) h = refl
  of_length-append hdr_end (some (pos len)) h = body-append hdr_end len h

  of_header-append :
      (off : ℕ) (o : Option ℕ)
      → find_crlf s (off + 1) ≡ o
      → bulk_of_header absl s off max_bulk o ≢ ok incomplete
      → bulk_of_header absl (s ++ t) off max_bulk (find_crlf (s ++ t) (off + 1))
        ≡ bulk_of_header absl s off max_bulk o
  unfolding bulk_of_header
  of_header-append off none e h = absurd (h refl)
  of_header-append off (some hdr_end) e h =
      let (low, high) = find_crlf_bounds s (off + 1) hdr_end e in
      rw
        (
          find_crlf-append s t (off + 1) hdr_end e,
          slice-append s t (off + 1) (hdr_end - off - 1) (omega (arith, low, high)),
        )
        (of_length-append hdr_end _ h)

  bulk_string-append :
      (off : ℕ)
      → parse_bulk_string absl s off max_bulk ≢ ok incomplete
      → parse_bulk_string absl (s ++ t) off max_bulk ≡ parse_bulk_string absl s off max_bulk
  unfolding parse_bulk_string
  bulk_string-append off h = ground (
    arith,
    length-append s t,
    get_or-append s t off 0,
    of_header-append off (find_crlf s (off + 1)) refl,
  )

module _ (absl : Absl) (s t : Bytes) (max_bulk : ℕ) where
  elements_step :
      (n off : ℕ) (es : List Bytes) (r : Result Bulk)
      → parse_bulk_string absl s off max_bulk ≡ r
      → ((eo : ℕ) (es' : List Bytes)
          → parse_elements absl s max_bulk n eo es' ≢ ok none
          → parse_elements absl (s ++ t) max_bulk n eo es'
            ≡ parse_elements absl s max_bulk n eo es')
      → parse_elements absl s max_bulk (suc n) off es ≢ ok none
      → parse_elements absl (s ++ t) max_bulk (suc n) off es
        ≡ parse_elements absl s max_bulk (suc n) off es
  unfolding parse_elements
  elements_step n off es (err e) q ih h =
      rw (bulk_string-append absl s t max_bulk off (λ c. cc), q) refl
  elements_step n off es (ok incomplete) q ih h = absurd (h (rw q refl))
  elements_step n off es (ok (value vo vl eo)) q ih h =
      let (low, mid, high) = bulk_string_bounds absl s max_bulk off vo vl eo q in
      rw
        (
          bulk_string-append absl s t max_bulk off (λ c. cc),
          q,
          slice-append s t vo vl (omega (arith, mid, high)),
        )
        (ih eo (es ++ (slice s vo vl ∷ [])) (rw q at h))

  elements-append :
      (n off : ℕ) (es : List Bytes)
      → parse_elements absl s max_bulk n off es ≢ ok none
      → parse_elements absl (s ++ t) max_bulk n off es ≡ parse_elements absl s max_bulk n off es
  elements-append zero off es h = unfold parse_elements in refl
  elements-append (suc n) off es h =
      elements_step n off es (parse_bulk_string absl s off max_bulk) refl (elements-append n) h

  module _ (out : Resp2Frame) where
    array_of_elements-append :
        (n off : ℕ) (r : Result (Option (List Bytes × ℕ)))
        → parse_elements absl s max_bulk n off [] ≡ r
        → (r >>= array_of_elements absl out) ≢ ok (0, out)
        → (parse_elements absl (s ++ t) max_bulk n off [] >>= array_of_elements absl out)
          ≡ (r >>= array_of_elements absl out)
    unfolding array_of_elements
    array_of_elements-append n off (ok none) q h = absurd (h refl)
    array_of_elements-append n off (err e) q h = rw (elements-append n off [] (λ c. cc), q) refl
    array_of_elements-append n off (ok (some p)) q h =
        rw (elements-append n off [] (λ c. cc), q) refl

    array_of_length-append :
        (hdr_end : ℕ) (o : Option ℤ)
        → array_of_length absl s max_bulk hdr_end out o ≢ ok (0, out)
        → array_of_length absl (s ++ t) max_bulk hdr_end out o
          ≡ array_of_length absl s max_bulk hdr_end out o
    unfolding array_of_length
    array_of_length-append hdr_end none h = refl
    array_of_length-append hdr_end (some (negsuc n)) h = refl
    array_of_length-append hdr_end (some (pos n)) h = elim (Bool-cases (ltb 1024 n)) [
      | inl e ↦ rw e refl
      | inr e ↦ rw e (array_of_elements-append n (hdr_end + 2) _ refl (rw e at h))
    ]

    array_of_header-append :
        (o : Option ℕ)
        → find_crlf s 1 ≡ o
        → array_of_header absl s max_bulk out o ≢ ok (0, out)
        → array_of_header absl (s ++ t) max_bulk out (find_crlf (s ++ t) 1)
          ≡ array_of_header absl s max_bulk out o
    unfolding array_of_header
    array_of_header-append none e h = absurd (h refl)
    array_of_header-append (some hdr_end) e h =
        let (low, high) = find_crlf_bounds s 1 hdr_end e in
        rw
          (
            find_crlf-append s t 1 hdr_end e,
            slice-append s t 1 (hdr_end - 1) (omega (arith, low, high)),
          )
          (array_of_length-append hdr_end _ h)

    frame_of_bulk-append :
        (r : Result Bulk)
        → parse_bulk_string absl s 0 max_bulk ≡ r
        → (r >>= frame_of_bulk absl s out) ≢ ok (0, out)
        → (parse_bulk_string absl (s ++ t) 0 max_bulk >>= frame_of_bulk absl (s ++ t) out)
          ≡ (r >>= frame_of_bulk absl s out)
    unfolding frame_of_bulk
    frame_of_bulk-append (ok incomplete) q h = absurd (h refl)
    frame_of_bulk-append (err e) q h = rw (bulk_string-append absl s t max_bulk 0 (λ c. cc), q) refl
    frame_of_bulk-append (ok (value vo vl eo)) q h =
        let (low, mid, high) = bulk_string_bounds absl s max_bulk 0 vo vl eo q in
        rw
          (
            bulk_string-append absl s t max_bulk 0 (λ c. cc),
            q,
            slice-append s t vo vl (omega (arith, mid, high)),
          )
          refl

module _ (absl : Absl) (max_bulk : ℕ) where
  -- Unless the parser wants more input, it answers the same, error or value, whatever follows.
  pub try_parse-append :
      (s t : Bytes) (out : Resp2Frame)
      → try_parse absl max_bulk s out ≢ ok (0, out)
      → try_parse absl max_bulk (s ++ t) out ≡ try_parse absl max_bulk s out
  unfolding try_parse
  try_parse-append [] t out h = absurd (h refl)
  try_parse-append (type ∷ rest) t out h = elim (Bool-cases (type == b'$')) [
    | inl e ↦ rw e (frame_of_bulk-append absl (type ∷ rest) t max_bulk out _ refl (rw e at h))
    | inr e ↦ rw e (elim (Bool-cases (type == b'*')) [
      | inl e' ↦
          rw e' (array_of_header-append absl (type ∷ rest) t max_bulk out _ refl (rw (e, e') at h))
      | inr e' ↦ rw e' refl
    ])
  ]
