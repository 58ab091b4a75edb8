-- ===== src/Examples/Frames.antt =====
-- Frames on the wire.
use shine.Prelude.{
  ◌≡◌, refl, [], ◌∷◌, ◌++◌, some, none, codes, ok, err, length, arith, invalid_argument,
}
use shine.Examples.Numbers.{decimal, decimal-IsLawful, scan, as_i64, read}
use shine.Proto.Resp2.Parser.{
  monostate, array, try_parse, parse_bulk_string, bulk_of_header, bulk_of_length, parse_bulk_body,
  find_crlf, find_crlf_from, array_of_header, array_of_length, parse_elements, array_of_elements,
}
use shine.Proto.Resp2.Writer.{write_array}
use shine.Proto.Resp2.Extension.{try_parse-append}
use shine.Proto.Resp2.RoundTrip.{try_parse-write_array}
use shine.Proto.Words.{read_u64_be, put_u64_be, read_u64_be-put}
use shine.Proto.Frame.{ShineFrame, new}
use shine.Proto.Frame.Encode.{encode}
use shine.Transport.Link.Receive.{next_frame, frame_of_parsed, next_frame-encode}

two_parts :
    try_parse decimal 1024 (codes "*2\r\n$2\r\nOK\r\n$0\r\n\r\nrest") monostate
    ≡ ok (18, array (codes "OK" ∷ [] ∷ []))
unfolding try_parse parse_bulk_string bulk_of_header bulk_of_length parse_bulk_body find_crlf
    find_crlf_from array_of_header array_of_length parse_elements array_of_elements read scan as_i64
two_parts = refl

cut_short : try_parse decimal 1024 (codes "*2\r\n$2\r\nOK\r\n$0\r\n") monostate ≡ ok (0, monostate)
unfolding try_parse parse_bulk_string bulk_of_header bulk_of_length parse_bulk_body find_crlf
    find_crlf_from array_of_header array_of_length parse_elements array_of_elements read scan as_i64
cut_short = refl

wrong_marker :
    try_parse decimal 1024 (codes "$x\r\n") monostate
    ≡ err (invalid_argument (codes "bad bulk length"))
unfolding try_parse parse_bulk_string bulk_of_header bulk_of_length find_crlf find_crlf_from read
    scan as_i64
wrong_marker = refl

read_u64_be-put_example : read_u64_be (put_u64_be [] 0x0123456789abcdef) ≡ some 0x0123456789abcdef
read_u64_be-put_example = read_u64_be-put 0x0123456789abcdef (omega arith)

try_parse-append_example :
    try_parse decimal 1024 (codes "$x\r\n" ++ codes "more") monostate
    ≡ try_parse decimal 1024 (codes "$x\r\n") monostate
try_parse-append_example =
    try_parse-append decimal 1024 (codes "$x\r\n") (codes "more") monostate (λ e. cc (wrong_marker))

try_parse-write_array_example :
    try_parse decimal 1024
      (write_array decimal [] (codes "OK" ∷ codes "\r\n" ∷ []) ++ codes "rest")
      monostate
    ≡ ok (
      length (write_array decimal [] (codes "OK" ∷ codes "\r\n" ∷ [])),
      array (codes "OK" ∷ codes "\r\n" ∷ []),
    )
try_parse-write_array_example =
    try_parse-write_array decimal decimal-IsLawful 1024 (codes "OK" ∷ codes "\r\n" ∷ [])
      (codes "rest") monostate (omega arith) (omega arith)

abbrev opening : ShineFrame
opening = new 7 (codes "blob") 262144

next_frame-encode_example :
    next_frame decimal 1024 (encode decimal opening ++ codes "*")
    ≡ ok (some (length (encode decimal opening), opening))
next_frame-encode_example =
    next_frame-encode decimal 1024 decimal-IsLawful (omega arith) opening (codes "*") (omega arith)

nothing_yet : next_frame decimal 1024 [] ≡ ok none
unfolding next_frame try_parse frame_of_parsed
nothing_yet = refl
