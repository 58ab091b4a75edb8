-- ===== src/Transport/Link/Reader/Chunks.antt =====
-- What `Link::readerLoop` of src/transport/link.cpp makes of frames that arrive in pieces.
use shine.Prelude.{
  ℕ, zero, suc, ◌+◌, ◌<◌, ◌≤◌, ◌≡◌, ◌≢◌, inl, inr, refl, sym, ◌∙◌, ap, List, [], ◌∷◌, ◌++◌, Option,
  none, some, false, arith, Bytes, All, Result, ok, length, take, drop, append_assoc,
  take-append-drop, length-append, take-append, drop-append, take-append_le, drop-append_le, ltb,
  ltb→lt, Bool-cases,
}
use shine.Absl.{Absl, IsLawful}
use shine.Proto.Resp2.Parser.{try_parse}
use shine.Proto.Frame.{ShineFrame}
use shine.Proto.Frame.Encode.{encode}
use shine.Proto.Frame.RoundTrip.{IsEncodable}
use shine.Transport.Link.Receive.{
  frame_of_parsed, encode_all, next_frame, next_frame-encode, next_frame_prefix,
}
use shine.Transport.Link.State.{Link}
use shine.Transport.Link.Dispatch.{dispatch_frame}
use shine.Transport.Link.Dispatch.Open.{dispatch_frame-Stays}
use shine.Transport.Link.Reader.{
  wants_more, Run, before, more_bytes, on_next, unless_over, reader_loop, dispatch_all,
}

-- The pieces in which bytes arrive.
abbrev pub arrived : List Bytes → List (Option Bytes)
arrived [] = []
arrived (c ∷ chunks) = some c ∷ arrived chunks

abbrev pub joined : List Bytes → Bytes
joined [] = []
joined (c ∷ chunks) = c ++ joined chunks

-- Where the same bytes are cut in two ways.
whole_front :
    (buffer more e rest : Bytes)
    → buffer ++ more ≡ e ++ rest
    → length e ≤ length buffer
    → (buffer ≡ e ++ drop (length e) buffer) × (drop (length e) buffer ++ more ≡ rest)
whole_front buffer more e rest h le =
    let front : take (length e) buffer ≡ e =
      sym (take-append_le (length e) buffer more le)
      ∙ ap (take (length e)) h
      ∙ take-append (length e) e rest refl in
    (
      sym (take-append-drop (length e) buffer) ∙ ap (λ t. t ++ drop (length e) buffer) front,
      sym (drop-append_le (length e) buffer more le)
          ∙ ap (drop (length e)) h
          ∙ drop-append (length e) e rest refl,
    )

part_front :
    (buffer more e rest : Bytes)
    → buffer ++ more ≡ e ++ rest
    → length buffer < length e
    → buffer ≡ take (length buffer) e
part_front buffer more e rest h lt =
    sym (take-append (length buffer) buffer more refl)
    ∙ ap (take (length buffer)) h
    ∙ take-append_le (length buffer) e rest (omega arith)

module _ (absl : Absl) (lawful : IsLawful absl) (max_bulk : ℕ) (large : 9 ≤ max_bulk)
    (clock : ℕ → ℕ) where
  nothing_yet : next_frame absl max_bulk [] ≡ ok none
  unfolding next_frame try_parse frame_of_parsed
  nothing_yet = refl

  -- A round on an open link.
  round :
      (fuel i : ℕ) (l : Link) (buffer : Bytes) (arrivals : List (Option Bytes))
      (r : Result (Option (ℕ × ShineFrame)))
      → l.closed ≡ false
      → next_frame absl max_bulk buffer ≡ r
      → reader_loop absl max_bulk clock (suc fuel) i l buffer arrivals
        ≡ on_next absl max_bulk clock (reader_loop absl max_bulk clock fuel) i l buffer arrivals r
  unfolding reader_loop unless_over
  round fuel i l buffer arrivals r alive h =
      let loop : Result (Option (ℕ × ShineFrame)) → Run =
        on_next absl max_bulk clock (reader_loop absl max_bulk clock fuel) i l buffer arrivals in
      ap (λ b. unless_over absl max_bulk clock b l (loop (next_frame absl max_bulk buffer))) alive
      ∙ ap loop h

  -- Where bytes are lacking, a further piece has arrived, and the loop goes on with it.
  piece :
      (again : Bytes → List (Option Bytes) → Run) (l : Link) (buffer : Bytes) (chunks : List Bytes)
      (r : Run)
      → All (λ (c : Bytes). c ≢ []) chunks
      → length buffer < length (buffer ++ joined chunks)
      → ((p : Bytes) (chunks' : List Bytes)
          → chunks ≡ p ∷ chunks'
          → All (λ (c : Bytes). c ≢ []) chunks'
          → again (buffer ++ p) (arrived chunks') ≡ r)
      → more_bytes absl max_bulk clock again l buffer (arrived chunks) ≡ r
  unfolding more_bytes
  piece again l buffer [] r some_bytes lacks k =
      absurd (omega (arith, lacks, length-append buffer []))
  piece again l buffer ([] ∷ chunks) r some_bytes lacks k = absurd (some_bytes.0 refl)
  piece again l buffer ((b ∷ c) ∷ chunks) r some_bytes lacks k = k (b ∷ c) chunks refl some_bytes.1

  -- What the loop makes of the frames.
  abbrev pub all_done : ℕ → Link → List ShineFrame → Run
  all_done i l fs = let r = dispatch_all absl max_bulk clock i l fs in (r.0, (r.1, wants_more []))

  -- Frames that arrive in pieces, cut anywhere, are dispatched as if they were handed to the link
  -- one after another, each once and in order, and nothing is left in the buffer.
  pub reader_loop_pieces :
      (fs : List ShineFrame) (chunks : List Bytes) (i fuel : ℕ) (l : Link) (buffer : Bytes)
      → All (IsEncodable max_bulk) fs
      → All (λ (c : Bytes). c ≢ []) chunks
      → l.closed ≡ false
      → buffer ++ joined chunks ≡ encode_all absl fs
      → length fs + length chunks < fuel
      → reader_loop absl max_bulk clock fuel i l buffer (arrived chunks) ≡ all_done i l fs
  unfolding on_next more_bytes dispatch_all
  reader_loop_pieces fs chunks i zero l buffer c some_bytes alive e enough = absurd (omega arith)
  reader_loop_pieces [] [] i (suc fuel) l [] c some_bytes alive e enough =
      round fuel i l [] [] (ok none) alive nothing_yet
  reader_loop_pieces [] [] i (suc fuel) l (b ∷ buffer) c some_bytes alive e enough = absurd cc
  reader_loop_pieces [] ([] ∷ chunks) i (suc fuel) l buffer c some_bytes alive e enough =
      absurd (some_bytes.0 refl)
  reader_loop_pieces [] ((b ∷ chunk) ∷ chunks) i (suc fuel) l buffer c some_bytes alive e enough =
      let size = ap length e in
      absurd (omega (arith, size, length-append buffer ((b ∷ chunk) ++ joined chunks)))
  reader_loop_pieces (f ∷ fs) chunks i (suc fuel) l buffer c some_bytes alive e enough =
      elim (Bool-cases (ltb (length buffer) (length (encode absl f)))) [
        | inl short ↦
            let part =
              part_front buffer (joined chunks) (encode absl f) (encode_all absl fs) e
                (ground arith) in
            let lacks : length buffer < length (buffer ++ joined chunks) = omega (
              arith,
              ap length e,
              length-append (encode absl f) (encode_all absl fs),
              ltb→lt _ _ short,
            ) in
            round fuel i l buffer (arrived chunks) (ok none) alive (
              ap (next_frame absl max_bulk) part
              ∙ next_frame_prefix absl max_bulk lawful large f (length buffer) c.0 (ground arith))
            ∙ piece (reader_loop absl max_bulk clock fuel i l) l buffer chunks _ some_bytes lacks
                λ piece chunks' same some_bytes'.
                  reader_loop_pieces (f ∷ fs) chunks' i fuel l (buffer ++ piece) c some_bytes' alive
                    (append_assoc buffer piece (joined chunks')
                      ∙ ap (λ t. buffer ++ t) (sym (ap joined same))
                      ∙ e)
                    (omega (arith, ap length same))
        | inr long ↦
            let (front, back) =
              whole_front buffer (joined chunks) (encode absl f) (encode_all absl fs) e
                (ground arith) in
            let n = length (encode absl f) in
            round fuel i l buffer (arrived chunks) (ok (some (n, f))) alive (
              ap (next_frame absl max_bulk) front
              ∙ next_frame-encode absl max_bulk lawful large f _ c.0)
            ∙ ap (before (dispatch_frame (clock i) l f).1) (
                reader_loop_pieces fs chunks (suc i) fuel (dispatch_frame (clock i) l f).0
                  (drop n buffer) c.1 some_bytes (dispatch_frame-Stays (clock i) l f ∙ alive) back
                  (omega arith))
      ]
