-- ===== src/Proto/Resp2/Parser.antt =====
-- `Resp2Parser` of src/proto/resp2_parser.cpp. A position in the input is a number; the bytes at
-- `data` are a list. `size_t` sums stay below 2 ^ 64, since the input and `max_bulk` are far smaller.
use shine.Prelude.{
  ℕ, zero, suc, ◌+◌, ◌-◌, List, [], ◌∷◌, ◌++◌, Option, none, some, not, ◌&&◌, ◌||◌, Bytes, codes,
  Result, ok, err, Status, invalid_argument, resource_exhausted, ltb, leb, ◌==◌, if◌then◌else◌,
  length, get_or, take, drop, ◌>>=◌, ℤ, pos, negsuc,
}
use shine.Absl.{Absl}

-- `Resp2Frame`: `std::monostate`, a bulk string or an array of bulk strings.
pub data Resp2Frame : Type 0 where
  monostate : Resp2Frame
  bulk : Bytes → Resp2Frame
  array : List Bytes → Resp2Frame

-- The loop of `findCrlf` at index `i`, over the bytes from there on.
unfoldable pub find_crlf_from : ℕ → Bytes → Option ℕ
find_crlf_from i [] = none
find_crlf_from i (a ∷ []) = none
find_crlf_from i (a ∷ b ∷ s) =
    if a == b'\r' && b == b'\n' then some i else find_crlf_from (i + 1) (b ∷ s)

unfoldable pub find_crlf : Bytes → ℕ → Option ℕ
find_crlf data' from = if ltb (length data') 2 then none else find_crlf_from from (drop from data')

-- What `parseBulkString` reports beside an error: more input is wanted, or where the value stands
-- (its offset and length) and the offset behind it.
pub data Bulk : Type 0 where
  incomplete : Bulk
  value : ℕ → ℕ → ℕ → Bulk

-- The bytes of a value.
abbrev pub slice : Bytes → ℕ → ℕ → Bytes
slice data' off len = take len (drop off data')

module _ (absl : Absl) where
  pub too_long : ℕ → ℕ → Status
  too_long len max_bulk =
      resource_exhausted
        (codes "bulk length " ++ absl.str_cat len ++ codes " exceeds max " ++ absl.str_cat max_bulk)

  pub bad_type : ℕ → Status
  bad_type type = invalid_argument (codes "unexpected RESP2 type byte 0x" ++ absl.hex_pad2 type)

  -- `parseBulkString` from the test of the length against `max_bulk` on.
  unfoldable pub parse_bulk_body : Bytes → ℕ → ℕ → ℕ → Result Bulk
  parse_bulk_body data' max_bulk hdr_end len =
      let body_start = hdr_end + 2 in
      let body_end = body_start + len in
      if ltb max_bulk len
      then err (too_long len max_bulk)
      else if ltb (length data') (body_end + 2)
      then ok incomplete
      else if not (get_or data' body_end 0 == b'\r') || not (get_or data' (body_end + 1) 0 == b'\n')
      then err (invalid_argument (codes "missing CRLF after bulk body"))
      else ok (value body_start len (body_end + 2))

  -- `parseBulkString` on what `parseInt64` made of the length.
  unfoldable pub bulk_of_length : Bytes → ℕ → ℕ → Option ℤ → Result Bulk
  bulk_of_length data' max_bulk hdr_end none = err (invalid_argument (codes "bad bulk length"))
  bulk_of_length data' max_bulk hdr_end (some (negsuc n)) =
      err (invalid_argument (codes "null bulk not supported"))
  bulk_of_length data' max_bulk hdr_end (some (pos len)) =
      parse_bulk_body data' max_bulk hdr_end len

  -- `parseBulkString` on the result of `findCrlf`.
  unfoldable pub bulk_of_header : Bytes → ℕ → ℕ → Option ℕ → Result Bulk
  bulk_of_header data' off max_bulk none = ok incomplete
  bulk_of_header data' off max_bulk (some hdr_end) =
      bulk_of_length data' max_bulk hdr_end
        (absl.simple_atoi (slice data' (off + 1) (hdr_end - off - 1)))

  unfoldable pub parse_bulk_string : Bytes → ℕ → ℕ → Result Bulk
  parse_bulk_string data' off max_bulk =
      if leb (length data') off
      then ok incomplete
      else if not (get_or data' off 0 == b'$')
      then err (invalid_argument (codes "expected '$' bulk marker"))
      else bulk_of_header data' off max_bulk (find_crlf data' (off + 1))

  -- The loop over the elements, `n` of which are left: `none` where one is incomplete, else all the
  -- elements and the offset behind the last.
  unfoldable pub parse_elements : Bytes → ℕ → ℕ → ℕ → List Bytes → Result (Option (List Bytes × ℕ))
  parse_elements data' max_bulk zero off elements = ok (some (elements, off))
  parse_elements data' max_bulk (suc n) off elements =
      parse_bulk_string data' off max_bulk >>= elim [
        | incomplete ↦ ok none
        | value vo vl eo ↦ parse_elements data' max_bulk n eo (elements ++ (slice data' vo vl ∷ []))
      ]

  -- The array branch of `tryParse` behind its loop.
  unfoldable pub array_of_elements : Resp2Frame → Option (List Bytes × ℕ) → Result (ℕ × Resp2Frame)
  array_of_elements out none = ok (0, out)
  array_of_elements out (some (elements, off)) = ok (off, array elements)

  -- The array branch on what `parseInt64` made of the length.
  unfoldable pub array_of_length : Bytes → ℕ → ℕ → Resp2Frame → Option ℤ → Result (ℕ × Resp2Frame)
  array_of_length data' max_bulk hdr_end out none =
      err (invalid_argument (codes "bad array length"))
  array_of_length data' max_bulk hdr_end out (some (negsuc n)) =
      err (invalid_argument (codes "array length out of range"))
  array_of_length data' max_bulk hdr_end out (some (pos n)) =
      if ltb 1024 n
      then err (invalid_argument (codes "array length out of range"))
      else parse_elements data' max_bulk n (hdr_end + 2) [] >>= array_of_elements out

  -- The array branch on the result of `findCrlf`.
  unfoldable pub array_of_header : Bytes → ℕ → Resp2Frame → Option ℕ → Result (ℕ × Resp2Frame)
  array_of_header data' max_bulk out none = ok (0, out)
  array_of_header data' max_bulk out (some hdr_end) =
      array_of_length data' max_bulk hdr_end out (absl.simple_atoi (slice data' 1 (hdr_end - 1)))

  -- The bulk branch of `tryParse` behind `parseBulkString`.
  unfoldable pub frame_of_bulk : Bytes → Resp2Frame → Bulk → Result (ℕ × Resp2Frame)
  frame_of_bulk data' out incomplete = ok (0, out)
  frame_of_bulk data' out (value vo vl eo) = ok (eo, bulk (slice data' vo vl))

  -- `tryParse` over the readable bytes: how many are used up (0 where more are wanted) and `out`.
  unfoldable pub try_parse : ℕ → Bytes → Resp2Frame → Result (ℕ × Resp2Frame)
  try_parse max_bulk [] out = ok (0, out)
  try_parse max_bulk (type ∷ rest) out =
      if type == b'$'
      then parse_bulk_string (type ∷ rest) 0 max_bulk >>= frame_of_bulk (type ∷ rest) out
      else if type == b'*'
      then array_of_header (type ∷ rest) max_bulk out (find_crlf (type ∷ rest) 1)
      else err (bad_type type)
