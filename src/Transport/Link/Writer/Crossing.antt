-- ===== src/Transport/Link/Writer/Crossing.antt =====
-- Frames from the writer of one link of src/transport/link.cpp to the reader of another.
use shine.Prelude.{
  ℕ, ◌+◌, ◌<◌, ◌≤◌, ◌≡◌, ◌≢◌, refl, ◌∙◌, ap, List, [], ◌∷◌, ◌++◌, Bool, true, false, Bytes, All,
  length,
}
use shine.Absl.{Absl, IsLawful}
use shine.Proto.Frame.{ShineFrame}
use shine.Proto.Frame.Encode.{encode}
use shine.Proto.Frame.RoundTrip.{IsEncodable}
use shine.Transport.Link.Receive.{encode_all}
use shine.Transport.Link.State.{Link}
use shine.Transport.Link.Reader.{reader_loop}
use shine.Transport.Link.Reader.Chunks.{arrived, joined, all_done, reader_loop_pieces}
use shine.Transport.Link.Writer.{Written, on_message, while_open, writer_loop}

-- The messages of frames that were enqueued, all of them written.
abbrev pub enqueued : Absl → List ShineFrame → List (Bytes × Bool)
enqueued absl [] = []
enqueued absl (f ∷ fs) = (encode absl f, true) ∷ enqueued absl fs

on_message_sent :
    (rest : Written) (l : Link) (message : Bytes)
    → (on_message rest l message true).0 ≡ message ++ rest.0
unfolding on_message
on_message_sent rest l [] = refl
on_message_sent rest l (b ∷ message) = refl

writer_loop-encode_all :
    (absl : Absl) (l : Link) (fs : List ShineFrame)
    → l.closed ≡ false
    → (writer_loop l (enqueued absl fs)).0 ≡ encode_all absl fs
unfolding writer_loop while_open
writer_loop-encode_all absl l [] alive = refl
writer_loop-encode_all absl l (f ∷ fs) alive =
    let rest = writer_loop l (enqueued absl fs) in
    ap (λ b. (while_open b l (on_message rest l (encode absl f) true)).0) alive
    ∙ on_message_sent rest l (encode absl f)
    ∙ ap (λ s. encode absl f ++ s) (writer_loop-encode_all absl l fs alive)

-- Frames that an open link has enqueued and written, and whose values fit the words of the wire and
-- the limit of the receiver for a bulk string, which is at least 9: where their bytes arrive at another
-- open link in pieces that are not empty, cut anywhere, and the loop has more fuel than there are
-- frames and pieces, they are dispatched there as if they were handed to it one after another, each
-- once and in order, and nothing is left in the buffer.
pub frames_cross :
    (absl : Absl) (lawful : IsLawful absl) (max_bulk : ℕ) (large : 9 ≤ max_bulk) (clock : ℕ → ℕ)
    (l m : Link) (fs : List ShineFrame) (chunks : List Bytes) (fuel : ℕ)
    → l.closed ≡ false
    → m.closed ≡ false
    → All (IsEncodable max_bulk) fs
    → All (λ (c : Bytes). c ≢ []) chunks
    → joined chunks ≡ (writer_loop l (enqueued absl fs)).0
    → length fs + length chunks < fuel
    → reader_loop absl max_bulk clock fuel 0 m [] (arrived chunks)
      ≡ all_done absl lawful max_bulk large clock 0 m fs
frames_cross absl lawful max_bulk large clock l m fs chunks fuel alive alive' fits some_bytes cut
      enough =
    reader_loop_pieces absl lawful max_bulk large clock fs chunks 0 fuel m [] fits some_bytes alive'
      (cut ∙ writer_loop-encode_all absl l fs alive) enough
