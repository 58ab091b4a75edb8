-- ===== src/Transport/Link/Receive.antt =====
-- How `Link` takes frames off its read buffer: the head of the loops of `one` (in both handshakes)
-- and of `readerLoop` in src/transport/link.cpp.
use shine.Prelude.{
  ℕ, zero, suc, ◌≤◌, ◌<◌, ◌≡◌, inl, inr, refl, sym, ◌∙◌, ap, List, [], ◌∷◌, ◌++◌, Option, none,
  some, arith, Bytes, All, Result, ok, ◌>>=◌, length, take, drop, drop-append, append_assoc,
  length-take, take-append-drop, append-nil,
}
use shine.Absl.{Absl, IsLawful}
use shine.Proto.Resp2.Parser.{Resp2Frame, monostate, try_parse}
use shine.Proto.Resp2.Streaming.{try_parse_prefix}
use shine.Proto.Frame.{ShineFrame}
use shine.Proto.Frame.Decode.{decode_shine_frame}
use shine.Proto.Frame.Encode.{encode}
use shine.Proto.Frame.RoundTrip.{IsEncodable, parse-encode, decode-wire, wire, wire-ne-monostate}
use shine.Proto.Resp2.Bounds.{try_parse_bounds}

-- The bytes of a sequence of frames.
abbrev pub encode_all : Absl → List ShineFrame → Bytes
encode_all absl [] = []
encode_all absl (f ∷ fs) = encode absl f ++ encode_all absl fs

module _ (absl : Absl) (max_bulk : ℕ) where
  -- What `tryParse` used up decides: nothing, and more input is wanted; or a frame to decode.
  unfoldable pub frame_of_parsed : ℕ × Resp2Frame → Result (Option (ℕ × ShineFrame))
  frame_of_parsed (zero, rf) = ok none
  frame_of_parsed (suc n, rf) = decode_shine_frame absl rf >>= λ f. ok (some (suc n, f))

  unfoldable pub next_frame : Bytes → Result (Option (ℕ × ShineFrame))
  next_frame input = try_parse absl max_bulk input monostate >>= frame_of_parsed

  -- The loop of `readerLoop` over input that is there: the frames in order, and the bytes that are
  -- left when more input is wanted. `fuel` bounds the number of frames.
  unfoldable pub read_frames : ℕ → Bytes → Result (List ShineFrame × Bytes)
  read_frames zero input = ok ([], input)
  read_frames (suc fuel) input = next_frame input >>= elim [
    | none ↦ ok ([], input)
    | some (n, f) ↦ read_frames fuel (drop n input) >>= λ p. ok (f ∷ p.0, p.1)
  ]

  module _ (lawful : IsLawful absl) (large : 9 ≤ max_bulk) where
    frame_of_parsed_pos :
        (n : ℕ) (rf : Resp2Frame) (f : ShineFrame)
        → 0 < n
        → decode_shine_frame absl rf ≡ ok f
        → frame_of_parsed (n, rf) ≡ ok (some (n, f))
    unfolding frame_of_parsed
    frame_of_parsed_pos zero rf f h e = absurd (omega arith)
    frame_of_parsed_pos (suc n) rf f h e = rw e

    length-encode_pos : (f : ShineFrame) → IsEncodable max_bulk f → 0 < length (encode absl f)
    length-encode_pos f c =
        elim (try_parse_bounds absl max_bulk (encode absl f ++ []) monostate _
          (parse-encode absl lawful max_bulk large f [] monostate c)) [
            | inl h ↦ absurd (wire-ne-monostate f h.1)
            | inr h ↦ h.0
          ]

    -- Every frame whose values fit the wire is read back, whatever bytes follow it: exactly the
    -- encoded bytes are used up, and the decoded frame is the one that was encoded.
    pub next_frame-encode :
        (f : ShineFrame) (rest : Bytes)
        → IsEncodable max_bulk f
        → next_frame (encode absl f ++ rest) ≡ ok (some (length (encode absl f), f))
    unfolding next_frame
    next_frame-encode f rest c =
        rw (parse-encode absl lawful max_bulk large f rest monostate c)
          (frame_of_parsed_pos _ (wire f) f (length-encode_pos f c) (decode-wire absl max_bulk f c))

    -- A frame that has arrived only in part is waited for.
    pub next_frame_prefix :
        (f : ShineFrame) (k : ℕ)
        → IsEncodable max_bulk f
        → k < length (encode absl f)
        → next_frame (take k (encode absl f)) ≡ ok none
    unfolding next_frame frame_of_parsed
    next_frame_prefix f k c short =
        let whole : take k (encode absl f) ++ drop k (encode absl f) ≡ encode absl f ++ [] =
          take-append-drop k (encode absl f) ∙ sym (append-nil (encode absl f)) in
        rw (
          try_parse_prefix absl max_bulk (take k (encode absl f)) (drop k (encode absl f)) monostate
            (length (encode absl f)) (wire f)
            (rw whole (parse-encode absl lawful max_bulk large f [] monostate c))
            (omega (arith, length-take k (encode absl f))))

    -- A sequence of frames is received as sent, in order, with the start of a further frame, or
    -- nothing, kept for later.
    pub read_frames-encode :
        (fs : List ShineFrame) (rest : Bytes) (fuel : ℕ)
        → All (IsEncodable max_bulk) fs
        → next_frame rest ≡ ok none
        → length fs < fuel
        → read_frames fuel (encode_all absl fs ++ rest) ≡ ok (fs, rest)
    unfolding read_frames
    read_frames-encode fs rest zero c wait enough = absurd (omega arith)
    read_frames-encode [] rest (suc fuel) c wait enough = rw wait
    read_frames-encode (f ∷ fs) rest (suc fuel) c wait enough =
        ap (read_frames (suc fuel)) (append_assoc (encode absl f) (encode_all absl fs) rest)
        ∙ rw
            (
              next_frame-encode f (encode_all absl fs ++ rest) c.0,
              drop-append (length (encode absl f)) (encode absl f) (encode_all absl fs ++ rest)
                  refl,
              read_frames-encode fs rest fuel c.1 wait (omega arith),
            )
            refl
