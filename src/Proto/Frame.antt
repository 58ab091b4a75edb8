-- ===== src/Proto/Frame.antt =====
-- The frames of src/proto/shine_frame.hpp; their codec is in the modules below.
pub mod Decode
pub mod Encode
pub mod RoundTrip
use shine.Prelude.{ℕ, Bytes}

-- `ShineFrame`. A DATA frame holds its payload; the code points into the read buffer instead.
pub data ShineFrame : Type 0 where
  hello : Bytes → Bytes → ShineFrame
  auth : Bytes → ShineFrame
  ok_frame : ShineFrame
  err_frame : Bytes → Bytes → ShineFrame
  new : ℕ → Bytes → ℕ → ShineFrame
  ack : ℕ → ShineFrame
  close : ℕ → Bytes → ShineFrame
  reset : ℕ → ShineFrame
  window : ℕ → ℕ → ShineFrame
  ping : ℕ → ShineFrame
  pong : ℕ → ShineFrame
  data_frame : ℕ → Bytes → ShineFrame
  new_udp : ℕ → ShineFrame
  udp_data : ℕ → Bytes → Bytes → ShineFrame

-- `kDataMagic`.
abbrev pub data_magic : ℕ
data_magic = 0xD1
