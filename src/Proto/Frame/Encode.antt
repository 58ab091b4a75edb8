-- ===== src/Proto/Frame/Encode.antt =====
-- The encoders of src/proto/shine_frame.cpp. Each returns `out` with the frame appended.
use shine.Prelude.{ℕ, ◌+◌, [], ◌∷◌, ◌++◌, Bytes, codes, length}
use shine.Absl.{Absl}
use shine.Proto.Words.{put_u32_be, put_u64_be}
use shine.Proto.Resp2.Writer.{crlf, write_array}
use shine.Proto.Frame.{
  ShineFrame, hello, auth, ok_frame, err_frame, new, ack, close, reset, window, ping, pong,
  data_frame, new_udp, udp_data, data_magic,
}

module _ (absl : Absl) where
  unfoldable pub encode_hello : Bytes → Bytes → Bytes → Bytes
  encode_hello out version features = write_array absl out (codes "HELLO" ∷ version ∷ features ∷ [])

  unfoldable pub encode_auth : Bytes → Bytes → Bytes
  encode_auth out password = write_array absl out (codes "AUTH" ∷ password ∷ [])

  unfoldable pub encode_ok : Bytes → Bytes
  encode_ok out = write_array absl out (codes "OK" ∷ [])

  unfoldable pub encode_err : Bytes → Bytes → Bytes → Bytes
  encode_err out code' message = write_array absl out (codes "ERR" ∷ code' ∷ message ∷ [])

  unfoldable pub encode_new : Bytes → ℕ → Bytes → ℕ → Bytes
  encode_new out sid addr_blob init_window =
      write_array absl out
        (codes "NEW" ∷ put_u64_be [] sid ∷ addr_blob ∷ put_u32_be [] init_window ∷ [])

  unfoldable pub encode_ack : Bytes → ℕ → Bytes
  encode_ack out sid = write_array absl out (codes "ACK" ∷ put_u64_be [] sid ∷ [])

  unfoldable pub encode_close : Bytes → ℕ → Bytes → Bytes
  encode_close out sid reason =
      write_array absl out (codes "CLOSE" ∷ put_u64_be [] sid ∷ reason ∷ [])

  unfoldable pub encode_reset : Bytes → ℕ → Bytes
  encode_reset out sid = write_array absl out (codes "RESET" ∷ put_u64_be [] sid ∷ [])

  unfoldable pub encode_window : Bytes → ℕ → ℕ → Bytes
  encode_window out sid delta =
      write_array absl out (codes "WINDOW" ∷ put_u64_be [] sid ∷ put_u32_be [] delta ∷ [])

  unfoldable pub encode_ping : Bytes → ℕ → Bytes
  encode_ping out nonce = write_array absl out (codes "PING" ∷ put_u64_be [] nonce ∷ [])

  unfoldable pub encode_pong : Bytes → ℕ → Bytes
  encode_pong out nonce = write_array absl out (codes "PONG" ∷ put_u64_be [] nonce ∷ [])

  unfoldable pub encode_new_udp : Bytes → ℕ → Bytes
  encode_new_udp out sid = write_array absl out (codes "NEW_UDP" ∷ put_u64_be [] sid ∷ [])

  unfoldable pub encode_udp_data : Bytes → ℕ → Bytes → Bytes → Bytes
  encode_udp_data out sid addr_blob payload =
      write_array absl out (codes "UDP_DATA" ∷ put_u64_be [] sid ∷ addr_blob ∷ payload ∷ [])

  -- `out.append` of the header, the magic byte, the sid, the payload and the CRLF.
  unfoldable pub encode_data : Bytes → ℕ → Bytes → Bytes
  encode_data out sid payload =
      put_u64_be
        (out ++ (b'$' ∷ (absl.str_cat (1 + 8 + length payload) ++ crlf)) ++ (data_magic ∷ [])) sid
      ++ (payload ++ crlf)

  -- The encoder that the program calls for each kind of frame, on an empty `out`.
  unfoldable pub encode : ShineFrame → Bytes
  encode (hello version features) = encode_hello [] version features
  encode (auth password) = encode_auth [] password
  encode ok_frame = encode_ok []
  encode (err_frame code' message) = encode_err [] code' message
  encode (new sid addr_blob init_window) = encode_new [] sid addr_blob init_window
  encode (ack sid) = encode_ack [] sid
  encode (close sid reason) = encode_close [] sid reason
  encode (reset sid) = encode_reset [] sid
  encode (window sid delta) = encode_window [] sid delta
  encode (ping nonce) = encode_ping [] nonce
  encode (pong nonce) = encode_pong [] nonce
  encode (data_frame sid payload) = encode_data [] sid payload
  encode (new_udp sid) = encode_new_udp [] sid
  encode (udp_data sid addr_blob payload) = encode_udp_data [] sid addr_blob payload
