-- ===== src/Proto/Resp2/RoundTrip.antt =====
-- The parser of src/proto/resp2_parser.cpp reads what the writer of src/proto/resp2_writer.cpp wrote.
use shine.Prelude.{
  ℕ, ◌+◌, ◌-◌, ◌≤◌, ◌<◌, ◌^◌, ◌≡◌, ◌≢◌, refl, sym, ◌∙◌, ap, ap₂, List, [], ◌∷◌, ◌++◌, some, arith,
  Bytes, ok, ◌>>=◌, length, drop, get_or, length-drop, length-append, take-append, get_or-drop,
  drop_past, append_assoc, append-nil, All, le→leb_false, le→ltb_false,
}
use shine.Absl.{Absl, IsLawful, IsDigit}
use shine.Proto.Resp2.Writer.{crlf, write_bulk_header, write_bulk, write_bulks, write_array}
use shine.Proto.Resp2.Parser.{
  value, slice, find_crlf, parse_bulk_body, bulk_of_length, bulk_of_header, parse_bulk_string,
  parse_elements, array_of_elements, array_of_length, array_of_header, frame_of_bulk, try_parse,
  Resp2Frame, bulk, array,
}
use shine.Proto.Resp2.Scan.{find_crlf_from_past}

digits_no_cr : (s : Bytes) → All IsDigit s → All (λ b. b ≢ b'\r') s
digits_no_cr [] h = tt
digits_no_cr (a ∷ s) h = (λ e. omega (arith, h.0.0, e), digits_no_cr s h.1)

-- A CRLF is found behind bytes that hold no CR.
find_crlf_at :
    (s : Bytes) (from : ℕ) (ds rest : Bytes)
    → drop from s ≡ ds ++ (crlf ++ rest)
    → All (λ b. b ≢ b'\r') ds
    → find_crlf s from ≡ some (from + length ds)
unfolding find_crlf
find_crlf_at s from ds rest h clean =
    rw
      (
        le→ltb_false (length s) 2
            (omega (arith, ap length h, length-drop from s, length-append ds (crlf ++ rest))),
        h,
      )
      (find_crlf_from_past from ds rest clean)

module _ (absl : Absl) where
  pub bulk_text : Bytes → Bytes
  bulk_text p = b'$' ∷ (absl.str_cat (length p) ++ (crlf ++ (p ++ crlf)))

  pub bulks_text : List Bytes → Bytes
  bulks_text [] = []
  bulks_text (p ∷ ps) = bulk_text p ++ bulks_text ps

  pub write_bulk-text : (out p : Bytes) → write_bulk absl out p ≡ out ++ bulk_text p
  unfolding write_bulk write_bulk_header bulk_text
  write_bulk-text out p = simp append_assoc

  write_bulks-text :
      (out : Bytes) (ps : List Bytes) → write_bulks absl out ps ≡ out ++ bulks_text ps
  unfolding write_bulks bulks_text
  write_bulks-text out [] = sym (append-nil out)
  write_bulks-text out (p ∷ ps) =
      write_bulks-text (write_bulk absl out p) ps ∙ simp (write_bulk-text, append_assoc)

-- The byte at a position, and the one behind it, where two bytes are known to stand there.
bytes_at :
    (s : Bytes) (n a b : ℕ) (rest : Bytes)
    → drop n s ≡ a ∷ b ∷ rest
    → (get_or s n 0 ≡ a) × (get_or s (n + 1) 0 ≡ b) × (n + 2 ≤ length s)
bytes_at s n a b rest h = (
  get_or-drop s n 0 ∙ ap (λ xs. get_or xs 0 0) h,
  get_or-drop s (n + 1) 0
      ∙ ap (λ xs. get_or xs 0 0) (drop_past n (n + 1) s (a ∷ []) (b ∷ rest) h refl),
  omega (arith, ap length h, length-drop n s),
)

-- A bulk string that the writer put at `off`, whatever stands before and behind it.
module _ (absl : Absl) (s : Bytes) (off : ℕ) (p rest : Bytes)
    (h : drop off s ≡ bulk_text absl p ++ rest) where
  -- The length of the printed length.
  abbrev width : ℕ
  width = length (absl.str_cat (length p))

  at_marker :
      drop off s ≡ (b'$' ∷ []) ++ (absl.str_cat (length p) ++ (crlf ++ (p ++ (crlf ++ rest))))
  unfolding bulk_text
  at_marker = h ∙ simp append_assoc

  at_digits : drop (off + 1) s ≡ absl.str_cat (length p) ++ (crlf ++ (p ++ (crlf ++ rest)))
  at_digits = drop_past off (off + 1) s (b'$' ∷ []) _ at_marker refl

  at_crlf : drop (off + 1 + width) s ≡ crlf ++ (p ++ (crlf ++ rest))
  at_crlf = drop_past (off + 1) _ s (absl.str_cat (length p)) _ at_digits refl

  at_body : drop (off + 1 + width + 2) s ≡ p ++ (crlf ++ rest)
  at_body = drop_past (off + 1 + width) _ s crlf _ at_crlf refl

  at_end : drop (off + 1 + width + 2 + length p) s ≡ crlf ++ rest
  at_end = drop_past (off + 1 + width + 2) _ s p (crlf ++ rest) at_body refl

  behind_bulk : drop (off + 1 + width + 2 + length p + 2) s ≡ rest
  behind_bulk = drop_past (off + 1 + width + 2 + length p) _ s crlf rest at_end refl

  slice_bulk : slice s (off + 1 + width + 2) (length p) ≡ p
  slice_bulk = rw at_body (take-append (length p) p (crlf ++ rest) refl)

  module _ (max_bulk : ℕ) (fits : length p ≤ max_bulk) where
    body_at :
        parse_bulk_body absl s max_bulk (off + 1 + width) (length p)
        ≡ ok (value (off + 1 + width + 2) (length p) (off + 1 + width + 2 + length p + 2))
    unfolding parse_bulk_body
    body_at =
        let (cr, lf, room) = bytes_at s (off + 1 + width + 2 + length p) b'\r' b'\n' rest at_end in
        ground (arith, cr, lf, room, fits)

    bulk_string_at :
        IsLawful absl
        → length p < 2 ^ 63
        → parse_bulk_string absl s off max_bulk
          ≡ ok (value (off + 1 + width + 2) (length p) (off + 1 + width + 2 + length p + 2))
    unfolding parse_bulk_string bulk_of_header bulk_of_length
    bulk_string_at lawful small =
        let digits : slice s (off + 1) (off + 1 + width - off - 1) ≡ absl.str_cat (length p) =
          rw at_digits (take-append _ (absl.str_cat (length p)) _ (omega arith)) in
        rw
          (
            le→leb_false (length s) off (omega (arith, ap length at_marker, length-drop off s)),
            get_or-drop s off 0,
            at_marker,
            find_crlf_at s (off + 1) (absl.str_cat (length p)) _ at_digits
                (digits_no_cr _ (lawful.str_cat-IsDigit (length p))),
            digits,
            lawful.simple_atoi-str_cat (length p) small,
          )
          body_at

-- What the writer and the parser can carry: at most `max_bulk` bytes, and a length that is an i64.
abbrev pub Carried : ℕ → Bytes → Type 0
Carried max_bulk p = (length p ≤ max_bulk) × (length p < 2 ^ 63)

length-bulk_text :
    (absl : Absl) (p : Bytes)
    → length (bulk_text absl p) ≡ 1 + length (absl.str_cat (length p)) + 2 + length p + 2
unfolding bulk_text
length-bulk_text absl p =
    omega
      (arith, length-append (absl.str_cat (length p)) (crlf ++ (p ++ crlf)), length-append p crlf)

module _ (absl : Absl) (lawful : IsLawful absl) (max_bulk : ℕ) where
  elements_at :
      (ps : List Bytes) (s : Bytes) (off : ℕ) (rest : Bytes) (es : List Bytes)
      → drop off s ≡ bulks_text absl ps ++ rest
      → All (Carried max_bulk) ps
      → parse_elements absl s max_bulk (length ps) off es
        ≡ ok (some (es ++ ps, off + length (bulks_text absl ps)))
  unfolding parse_elements bulks_text
  elements_at [] s off rest es h c = ground (arith, append-nil es)
  elements_at (p ∷ ps) s off rest es h c =
      let h' : drop off s ≡ bulk_text absl p ++ (bulks_text absl ps ++ rest) =
        h ∙ append_assoc (bulk_text absl p) (bulks_text absl ps) rest in
      let eo = off + 1 + length (absl.str_cat (length p)) + 2 + length p + 2 in
      let sum : eo + length (bulks_text absl ps)
          ≡ off + length (bulk_text absl p ++ bulks_text absl ps) =
        omega
          (arith, length-append (bulk_text absl p) (bulks_text absl ps), length-bulk_text absl p) in
      rw
        (
          bulk_string_at absl s off p _ h' max_bulk c.0.0 lawful c.0.1,
          slice_bulk absl s off p _ h',
          elements_at ps s eo rest (es ++ (p ∷ [])) (behind_bulk absl s off p _ h') c.1,
          append_assoc es (p ∷ []) ps,
          sum,
        )
        refl

  try_parse-bulk_text :
      (p rest : Bytes) (out : Resp2Frame)
      → Carried max_bulk p
      → try_parse absl max_bulk (bulk_text absl p ++ rest) out
        ≡ ok (length (bulk_text absl p), bulk p)
  unfolding try_parse bulk_text frame_of_bulk
  try_parse-bulk_text p rest out c =
      let s = bulk_text absl p ++ rest in
      ap (λ r. r >>= frame_of_bulk absl s out)
        (bulk_string_at absl s 0 p rest refl max_bulk c.0 lawful c.1)
      ∙ ap₂ (λ n v. ok (n, bulk v)) (omega (arith, length-bulk_text absl p))
          (slice_bulk absl s 0 p rest refl)

  -- A bulk string is read back whole, and nothing of what follows it.
  pub try_parse-write_bulk :
      (p rest : Bytes) (out : Resp2Frame)
      → Carried max_bulk p
      → try_parse absl max_bulk (write_bulk absl [] p ++ rest) out
        ≡ ok (length (write_bulk absl [] p), bulk p)
  try_parse-write_bulk p rest out c =
      rw (write_bulk-text absl [] p) (try_parse-bulk_text p rest out c)

  array_text : List Bytes → Bytes → Bytes
  array_text ps rest = b'*' ∷ (absl.str_cat (length ps) ++ (crlf ++ (bulks_text absl ps ++ rest)))

  write_array-text :
      (ps : List Bytes) (rest : Bytes) → write_array absl [] ps ++ rest ≡ array_text ps rest
  unfolding write_array array_text
  write_array-text ps rest = rw write_bulks-text (simp append_assoc)

  length-write_array :
      (ps : List Bytes)
      → length (write_array absl [] ps)
        ≡ 1 + length (absl.str_cat (length ps)) + 2 + length (bulks_text absl ps)
  unfolding array_text
  length-write_array ps = omega (
    arith,
    ap length (sym (append-nil (write_array absl [] ps)) ∙ write_array-text ps []),
    length-append (absl.str_cat (length ps)) (crlf ++ (bulks_text absl ps ++ [])),
    length-append (bulks_text absl ps) [],
  )

  try_parse-array_text :
      (ps : List Bytes) (rest : Bytes) (out : Resp2Frame)
      → length ps ≤ 1024
      → All (Carried max_bulk) ps
      → try_parse absl max_bulk (array_text ps rest) out
        ≡ ok (1 + length (absl.str_cat (length ps)) + 2 + length (bulks_text absl ps), array ps)
  unfolding try_parse array_text array_of_header array_of_length array_of_elements
  try_parse-array_text ps rest out few c =
      let ds = absl.str_cat (length ps) in
      let s = array_text ps rest in
      let tail = bulks_text absl ps ++ rest in
      let digits : slice s 1 (1 + length ds - 1) ≡ ds =
        take-append (1 + length ds - 1) ds (crlf ++ tail) (omega arith) in
      let at : drop (1 + length ds + 2) s ≡ tail =
        drop_past (1 + length ds) (1 + length ds + 2) s crlf tail
          (drop_past 0 (1 + length ds) s (b'*' ∷ ds) (crlf ++ tail) refl (omega arith)) refl in
      ap (array_of_header absl s max_bulk out)
        (find_crlf_at s 1 ds tail refl (digits_no_cr ds (lawful.str_cat-IsDigit (length ps))))
      ∙ ap (array_of_length absl s max_bulk (1 + length ds) out)
          (ap absl.simple_atoi digits ∙ lawful.simple_atoi-str_cat (length ps) (omega arith))
      ∙ rw (le→ltb_false 1024 (length ps) few) (
          ap (λ r. r >>= array_of_elements absl out)
            (elements_at ps s (1 + length ds + 2) rest [] at c))

  -- An array of at most 1024 strings, each no longer than the limit for a bulk string and shorter than
  -- 2^63 bytes, is read back whole, and nothing of what follows it.
  pub try_parse-write_array :
      (ps : List Bytes) (rest : Bytes) (out : Resp2Frame)
      → length ps ≤ 1024
      → All (Carried max_bulk) ps
      → try_parse absl max_bulk (write_array absl [] ps ++ rest) out
        ≡ ok (length (write_array absl [] ps), array ps)
  try_parse-write_array ps rest out few c =
      rw (write_array-text ps rest, length-write_array ps) (try_parse-array_text ps rest out few c)
