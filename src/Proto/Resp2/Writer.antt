-- ===== src/Proto/Resp2/Writer.antt =====
-- `Resp2Writer` of src/proto/resp2_writer.cpp. Each function returns `out` with the text appended.
use shine.Prelude.{List, [], ◌∷◌, ◌++◌, Bytes, ℕ, length}
use shine.Absl.{Absl}

abbrev pub crlf : Bytes
crlf = b'\r' ∷ b'\n' ∷ []

module _ (absl : Absl) where
  unfoldable pub write_bulk_header : Bytes → ℕ → Bytes
  write_bulk_header out payload_len = out ++ (b'$' ∷ (absl.str_cat payload_len ++ crlf))

  -- Both overloads of `writeBulk`.
  unfoldable pub write_bulk : Bytes → Bytes → Bytes
  write_bulk out payload = write_bulk_header out (length payload) ++ (payload ++ crlf)

  -- `for (auto p : parts) writeBulk(out, p);`
  unfoldable pub write_bulks : Bytes → List Bytes → Bytes
  write_bulks out [] = out
  write_bulks out (p ∷ parts) = write_bulks (write_bulk out p) parts

  -- Both overloads of `writeArray`.
  unfoldable pub write_array : Bytes → List Bytes → Bytes
  write_array out parts = write_bulks (out ++ (b'*' ∷ (absl.str_cat (length parts) ++ crlf))) parts
