-- ===== src/Proto/Frame/Decode.antt =====
-- `decodeShineFrame` of src/proto/shine_frame.cpp.
use shine.Prelude.{
  ℕ, ◌-◌, List, [], ◌∷◌, ◌++◌, none, some, not, ◌||◌, Bytes, codes, bytes_eq, Result, ok, err,
  invalid_argument, ◌>>=◌, ◌>>◌, ltb, ◌==◌, if◌then◌else◌, length, get_or, take, drop,
}
use shine.Absl.{Absl}
use shine.Proto.Words.{fold_be, read_u32_be, read_u64_be}
use shine.Proto.Resp2.Parser.{Resp2Frame, monostate, bulk, array}
use shine.Proto.Frame.{
  ShineFrame, hello, auth, ok_frame, err_frame, new, ack, close, reset, window, ping, pong,
  data_frame, new_udp, udp_data, data_magic,
}

unfoldable pub decode_sid : Bytes → Result ℕ
decode_sid s = elim (read_u64_be s) [
  | none ↦ err (invalid_argument (codes "bad sid"))
  | some v ↦ ok v
]

unfoldable pub decode_u32 : Bytes → Result ℕ
decode_u32 s = elim (read_u32_be s) [
  | none ↦ err (invalid_argument (codes "bad u32"))
  | some v ↦ ok v
]

-- The branch for a bulk string.
unfoldable pub decode_data : Bytes → Result ShineFrame
decode_data b =
    if ltb (length b) 9 || not (get_or b 0 0 == data_magic)
    then err (invalid_argument (codes "bad DATA frame header"))
    else ok (data_frame (fold_be 0 (take 8 (drop 1 b))) (drop 9 b))

module _ (absl : Absl) (cmd : Bytes) (arr : List Bytes) where
  -- The lambda `need`.
  unfoldable pub need : ℕ → Result (Unit {0})
  need n =
      if ltb (length arr) n
      then err (
          invalid_argument (
            codes "command "
            ++ (cmd ++ (codes " needs " ++ (absl.str_cat (n - 1) ++ codes " args")))))
      else ok tt

  -- `arr[i]`, which `need` has shown to be there.
  abbrev pub arg : ℕ → Bytes
  arg i = get_or arr i []

  unfoldable pub decode_new : Result ShineFrame
  decode_new = do
    need 4
    sid ← decode_sid (arg 1)
    win ← decode_u32 (arg 3)
    ok (new sid (arg 2) win)

  unfoldable pub decode_close : Result ShineFrame
  decode_close = do
    need 2
    sid ← decode_sid (arg 1)
    ok (close sid (if ltb (length arr) 3 then [] else arg 2))

  unfoldable pub decode_window : Result ShineFrame
  decode_window = do need 3; sid ← decode_sid (arg 1); dlt ← decode_u32 (arg 2); ok (window sid dlt)

  -- The commands that carry one 64-bit word.
  unfoldable pub decode_word : (ℕ → ShineFrame) → Result ShineFrame
  decode_word make = do need 2; v ← decode_sid (arg 1); ok (make v)

  unfoldable pub decode_udp_data : Result ShineFrame
  decode_udp_data = do need 4; sid ← decode_sid (arg 1); ok (udp_data sid (arg 2) (arg 3))

  -- The ladder of commands.
  unfoldable pub decode_command : Result ShineFrame
  decode_command =
      if bytes_eq cmd (codes "HELLO")
      then need 3 >> ok (hello (arg 1) (arg 2))
      else if bytes_eq cmd (codes "AUTH")
      then need 2 >> ok (auth (arg 1))
      else if bytes_eq cmd (codes "OK")
      then ok ok_frame
      else if bytes_eq cmd (codes "ERR")
      then need 3 >> ok (err_frame (arg 1) (arg 2))
      else if bytes_eq cmd (codes "NEW")
      then decode_new
      else if bytes_eq cmd (codes "ACK")
      then decode_word ack
      else if bytes_eq cmd (codes "CLOSE")
      then decode_close
      else if bytes_eq cmd (codes "RESET")
      then decode_word reset
      else if bytes_eq cmd (codes "WINDOW")
      then decode_window
      else if bytes_eq cmd (codes "PING")
      then decode_word ping
      else if bytes_eq cmd (codes "PONG")
      then decode_word pong
      else if bytes_eq cmd (codes "NEW_UDP")
      then decode_word new_udp
      else if bytes_eq cmd (codes "UDP_DATA")
      then decode_udp_data
      else err (invalid_argument (codes "unknown cmd: " ++ cmd))

unfoldable pub decode_array : Absl → List Bytes → Result ShineFrame
decode_array absl [] = err (invalid_argument (codes "empty array frame"))
decode_array absl (cmd ∷ args) = decode_command absl cmd (cmd ∷ args)

unfoldable pub decode_shine_frame : Absl → Resp2Frame → Result ShineFrame
decode_shine_frame absl monostate = err (invalid_argument (codes "empty frame"))
decode_shine_frame absl (bulk b) = decode_data b
decode_shine_frame absl (array arr) = decode_array absl arr
