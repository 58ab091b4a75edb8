-- ===== src/Proto/Frame/RoundTrip.antt =====
-- What src/proto/shine_frame.cpp encodes, src/proto/resp2_parser.cpp and `decodeShineFrame` read back.
use shine.Prelude.{
  ℕ, ◌+◌, ◌≤◌, ◌<◌, ◌^◌, ◌≡◌, ◌≢◌, refl, ap, [], ◌∷◌, ◌++◌, arith, Bytes, codes, ok, length,
  length-append, append_assoc, le→ltb_false,
}
use shine.Absl.{Absl, IsLawful}
use shine.Proto.Words.{fold_be, put_u32_be, put_u64_be, read_u64_be-put, read_u32_be-put}
use shine.Proto.Resp2.Writer.{write_bulk, write_bulk_header}
use shine.Proto.Resp2.Parser.{Resp2Frame, monostate, bulk, array, try_parse}
use shine.Proto.Resp2.RoundTrip.{Carried, try_parse-write_array, try_parse-write_bulk}
use shine.Proto.Frame.{
  ShineFrame, hello, auth, ok_frame, err_frame, new, ack, close, reset, window, ping, pong,
  data_frame, new_udp, udp_data, data_magic,
}
use shine.Proto.Frame.Decode.{
  decode_sid, decode_u32, decode_data, need, decode_new, decode_close, decode_window, decode_word,
  decode_udp_data, decode_command, decode_array, decode_shine_frame,
}
use shine.Proto.Frame.Encode.{
  encode, encode_hello, encode_auth, encode_ok, encode_err, encode_new, encode_ack, encode_close,
  encode_reset, encode_window, encode_ping, encode_pong, encode_new_udp, encode_udp_data,
  encode_data,
}

-- The values of a frame are words of their width and texts that the wire can carry.
abbrev pub IsEncodable : ℕ → ShineFrame → Type 0
IsEncodable max_bulk (hello version features) = Carried max_bulk version × Carried max_bulk features
IsEncodable max_bulk (auth password) = Carried max_bulk password
IsEncodable max_bulk ok_frame = Unit {0}
IsEncodable max_bulk (err_frame code' message) = Carried max_bulk code' × Carried max_bulk message
IsEncodable max_bulk (new sid addr_blob init_window) =
    (sid < 2 ^ 64) × Carried max_bulk addr_blob × (init_window < 2 ^ 32)
IsEncodable max_bulk (ack sid) = sid < 2 ^ 64
IsEncodable max_bulk (close sid reason) = (sid < 2 ^ 64) × Carried max_bulk reason
IsEncodable max_bulk (reset sid) = sid < 2 ^ 64
IsEncodable max_bulk (window sid delta) = (sid < 2 ^ 64) × (delta < 2 ^ 32)
IsEncodable max_bulk (ping nonce) = nonce < 2 ^ 64
IsEncodable max_bulk (pong nonce) = nonce < 2 ^ 64
IsEncodable max_bulk (data_frame sid payload) =
    (sid < 2 ^ 64) × (9 + length payload ≤ max_bulk) × (9 + length payload < 2 ^ 63)
IsEncodable max_bulk (new_udp sid) = sid < 2 ^ 64
IsEncodable max_bulk (udp_data sid addr_blob payload) =
    (sid < 2 ^ 64) × Carried max_bulk addr_blob × Carried max_bulk payload

-- What stands on the wire for a frame.
unfoldable pub wire : ShineFrame → Resp2Frame
wire (hello version features) = array (codes "HELLO" ∷ version ∷ features ∷ [])
wire (auth password) = array (codes "AUTH" ∷ password ∷ [])
wire ok_frame = array (codes "OK" ∷ [])
wire (err_frame code' message) = array (codes "ERR" ∷ code' ∷ message ∷ [])
wire (new sid addr_blob init_window) =
    array (codes "NEW" ∷ put_u64_be [] sid ∷ addr_blob ∷ put_u32_be [] init_window ∷ [])
wire (ack sid) = array (codes "ACK" ∷ put_u64_be [] sid ∷ [])
wire (close sid reason) = array (codes "CLOSE" ∷ put_u64_be [] sid ∷ reason ∷ [])
wire (reset sid) = array (codes "RESET" ∷ put_u64_be [] sid ∷ [])
wire (window sid delta) = array (codes "WINDOW" ∷ put_u64_be [] sid ∷ put_u32_be [] delta ∷ [])
wire (ping nonce) = array (codes "PING" ∷ put_u64_be [] nonce ∷ [])
wire (pong nonce) = array (codes "PONG" ∷ put_u64_be [] nonce ∷ [])
wire (data_frame sid payload) = bulk (data_magic ∷ (put_u64_be [] sid ++ payload))
wire (new_udp sid) = array (codes "NEW_UDP" ∷ put_u64_be [] sid ∷ [])
wire (udp_data sid addr_blob payload) =
    array (codes "UDP_DATA" ∷ put_u64_be [] sid ∷ addr_blob ∷ payload ∷ [])

pub wire-ne-monostate : (f : ShineFrame) → wire f ≢ monostate
unfolding wire
wire-ne-monostate (hello version features) e = cc
wire-ne-monostate (auth password) e = cc
wire-ne-monostate ok_frame e = cc
wire-ne-monostate (err_frame code' message) e = cc
wire-ne-monostate (new sid addr_blob init_window) e = cc
wire-ne-monostate (ack sid) e = cc
wire-ne-monostate (close sid reason) e = cc
wire-ne-monostate (reset sid) e = cc
wire-ne-monostate (window sid delta) e = cc
wire-ne-monostate (ping nonce) e = cc
wire-ne-monostate (pong nonce) e = cc
wire-ne-monostate (data_frame sid payload) e = cc
wire-ne-monostate (new_udp sid) e = cc
wire-ne-monostate (udp_data sid addr_blob payload) e = cc

decode_sid-put : (v : ℕ) → v < 2 ^ 64 → decode_sid (put_u64_be [] v) ≡ ok v
unfolding decode_sid
decode_sid-put v h = rw (read_u64_be-put v h, decode_sid)

decode_u32-put : (v : ℕ) → v < 2 ^ 32 → decode_u32 (put_u32_be [] v) ≡ ok v
unfolding decode_u32
decode_u32-put v h = rw (read_u32_be-put v h, decode_u32)

length-put_u64_be : (v : ℕ) → length (put_u64_be [] v) ≡ 8
unfolding put_u64_be
length-put_u64_be v = refl

length-put_u32_be : (v : ℕ) → length (put_u32_be [] v) ≡ 4
unfolding put_u32_be
length-put_u32_be v = refl

fold_be-put : (v : ℕ) → v < 2 ^ 64 → fold_be 0 (put_u64_be [] v) ≡ v
unfolding put_u64_be fold_be
fold_be-put v h = ground arith

decode_data-wire :
    (sid : ℕ) (payload : Bytes)
    → sid < 2 ^ 64
    → decode_data (data_magic ∷ (put_u64_be [] sid ++ payload)) ≡ ok (data_frame sid payload)
unfolding decode_data put_u64_be
decode_data-wire sid payload h =
    rw (le→ltb_false (length (data_magic ∷ (put_u64_be [] sid ++ payload))) 9 (omega arith))
      (ap (λ v. ok (data_frame v payload)) (fold_be-put sid h))

module _ (absl : Absl) (max_bulk : ℕ) where
  pub decode-wire :
      (f : ShineFrame) → IsEncodable max_bulk f → decode_shine_frame absl (wire f) ≡ ok f
  unfolding decode_shine_frame wire decode_array decode_command need decode_new decode_close
      decode_window decode_word decode_udp_data
  decode-wire (hello version features) c = refl
  decode-wire (auth password) c = refl
  decode-wire ok_frame c = refl
  decode-wire (err_frame code' message) c = refl
  decode-wire (new sid addr_blob init_window) c =
      rw (decode_sid-put sid c.0, decode_u32-put init_window c.2)
  decode-wire (ack sid) c = rw (decode_sid-put sid c)
  decode-wire (close sid reason) c = rw (decode_sid-put sid c.0)
  decode-wire (reset sid) c = rw (decode_sid-put sid c)
  decode-wire (window sid delta) c = rw (decode_sid-put sid c.0, decode_u32-put delta c.1)
  decode-wire (ping nonce) c = rw (decode_sid-put nonce c)
  decode-wire (pong nonce) c = rw (decode_sid-put nonce c)
  decode-wire (data_frame sid payload) c = decode_data-wire sid payload c.0
  decode-wire (new_udp sid) c = rw (decode_sid-put sid c)
  decode-wire (udp_data sid addr_blob payload) c = rw (decode_sid-put sid c.0)

  encode_data-text :
      (sid : ℕ) (payload : Bytes)
      → encode_data absl [] sid payload
        ≡ write_bulk absl [] (data_magic ∷ (put_u64_be [] sid ++ payload))
  unfolding encode_data write_bulk write_bulk_header put_u64_be
  encode_data-text sid payload =
      let e : 1 + 8 + length payload ≡ length (data_magic ∷ (put_u64_be [] sid ++ payload)) =
        omega arith in
      rw e (simp append_assoc)

module _ (absl : Absl) (lawful : IsLawful absl) (max_bulk : ℕ) (large : 9 ≤ max_bulk) where
  pub parse-encode :
      (f : ShineFrame) (rest : Bytes) (out : Resp2Frame)
      → IsEncodable max_bulk f
      → try_parse absl max_bulk (encode absl f ++ rest) out ≡ ok (length (encode absl f), wire f)
  unfolding encode wire encode_hello encode_auth encode_ok encode_err encode_new encode_ack
      encode_close encode_reset encode_window encode_ping encode_pong encode_new_udp encode_udp_data
  parse-encode (hello version features) rest out c =
      try_parse-write_array absl lawful max_bulk _ rest out (omega arith) (omega (arith, large))
  parse-encode (auth password) rest out c =
      try_parse-write_array absl lawful max_bulk _ rest out (omega arith) (omega (arith, large))
  parse-encode ok_frame rest out c =
      try_parse-write_array absl lawful max_bulk _ rest out (omega arith) (omega (arith, large))
  parse-encode (err_frame code' message) rest out c =
      try_parse-write_array absl lawful max_bulk _ rest out (omega arith) (omega (arith, large))
  parse-encode (new sid addr_blob init_window) rest out c =
      try_parse-write_array absl lawful max_bulk _ rest out (omega arith)
        (omega (arith, large, length-put_u64_be sid, length-put_u32_be init_window))
  parse-encode (ack sid) rest out c =
      try_parse-write_array absl lawful max_bulk _ rest out (omega arith)
        (omega (arith, large, length-put_u64_be sid))
  parse-encode (close sid reason) rest out c =
      try_parse-write_array absl lawful max_bulk _ rest out (omega arith)
        (omega (arith, large, length-put_u64_be sid))
  parse-encode (reset sid) rest out c =
      try_parse-write_array absl lawful max_bulk _ rest out (omega arith)
        (omega (arith, large, length-put_u64_be sid))
  parse-encode (window sid delta) rest out c =
      try_parse-write_array absl lawful max_bulk _ rest out (omega arith)
        (omega (arith, large, length-put_u64_be sid, length-put_u32_be delta))
  parse-encode (ping nonce) rest out c =
      try_parse-write_array absl lawful max_bulk _ rest out (omega arith)
        (omega (arith, large, length-put_u64_be nonce))
  parse-encode (pong nonce) rest out c =
      try_parse-write_array absl lawful max_bulk _ rest out (omega arith)
        (omega (arith, large, length-put_u64_be nonce))
  parse-encode (data_frame sid payload) rest out c =
      rw (encode_data-text absl max_bulk sid payload) (
        try_parse-write_bulk absl lawful max_bulk _ rest out (
          omega
            (arith, c.1, c.2, length-append (put_u64_be [] sid) payload, length-put_u64_be sid)))
  parse-encode (new_udp sid) rest out c =
      try_parse-write_array absl lawful max_bulk _ rest out (omega arith)
        (omega (arith, large, length-put_u64_be sid))
  parse-encode (udp_data sid addr_blob payload) rest out c =
      try_parse-write_array absl lawful max_bulk _ rest out (omega arith)
        (omega (arith, large, length-put_u64_be sid))
