-- ===== src/Transport/Link/Reader/Fuel.antt =====
-- How many rounds `Link::readerLoop` of src/transport/link.cpp makes.
use shine.Prelude.{
  ℕ, zero, suc, ◌+◌, ◌<◌, ◌≤◌, ◌≡◌, ◌≢◌, inl, inr, refl, sym, [], ◌∷◌, ◌++◌, Option, none, some,
  Bool, true, false, arith, Bytes, Result, ok, err, ◌>>=◌, length, drop, length-append, length-drop,
}
use shine.Absl.{Absl}
use shine.Proto.Resp2.Parser.{Resp2Frame, monostate, try_parse}
use shine.Proto.Resp2.Bounds.{try_parse_bounds}
use shine.Proto.Frame.{ShineFrame}
use shine.Proto.Frame.Decode.{decode_shine_frame}
use shine.Transport.Link.Receive.{frame_of_parsed, next_frame}
use shine.Transport.Link.State.{Link}
use shine.Transport.Link.Dispatch.{dispatch_frame}
use shine.Transport.Link.Reader.{
  out_of_fuel, Run, Arrivals, fails, more_bytes, on_next, unless_over, reader_loop,
}

-- What is still to come: a round for each piece and for each byte.
abbrev pub amount : Arrivals → ℕ
amount [] = 0
amount (none ∷ arrivals) = suc (amount arrivals)
amount (some c ∷ arrivals) = suc (length c + amount arrivals)

abbrev pub Ends : Run → Type 0
Ends r = r.1.1 ≢ out_of_fuel

fails-Ends : (l : Link) → Ends (fails l)
unfolding fails
fails-Ends l h = cc

module _ (absl : Absl) (max_bulk : ℕ) (clock : ℕ → ℕ) where
  -- A frame uses up at least one byte of those that are there.
  frame_of_parsed_size :
      (p : ℕ × Resp2Frame) (n : ℕ) (f : ShineFrame)
      → frame_of_parsed absl max_bulk p ≡ ok (some (n, f))
      → (0 < n) × (n ≡ p.0)
  unfolding frame_of_parsed
  frame_of_parsed_size (zero, rf) n f h = absurd cc
  frame_of_parsed_size (suc m, rf) n f h = go (decode_shine_frame absl rf) h
    where
      go :
          (d : Result ShineFrame)
          → ◌>>=◌ {B = Option (ℕ × ShineFrame)} d (λ g. ok (some (suc m, g))) ≡ ok (some (n, f))
          → (0 < n) × (n ≡ suc m)
      go (err status) e = absurd cc
      go (ok g) e = let same : suc m ≡ n = cc in (omega arith, sym same)

  next_frame_size :
      (buffer : Bytes) (n : ℕ) (f : ShineFrame)
      → next_frame absl max_bulk buffer ≡ ok (some (n, f))
      → (0 < n) × (n ≤ length buffer)
  unfolding next_frame
  next_frame_size buffer n f h = go (try_parse absl max_bulk buffer monostate) refl h
    where
      go :
          (r : Result (ℕ × Resp2Frame))
          → try_parse absl max_bulk buffer monostate ≡ r
          → (r >>= frame_of_parsed absl max_bulk) ≡ ok (some (n, f))
          → (0 < n) × (n ≤ length buffer)
      go (err status) e k = absurd cc
      go (ok p) e k =
          let (pos, same) = frame_of_parsed_size p n f k in
          elim (try_parse_bounds absl max_bulk buffer monostate p e) [
            | inl (none_used, out) ↦ absurd (omega arith)
            | inr (used, fits) ↦ (pos, omega arith)
          ]

  unless_over-Ends :
      (b : Bool) (l : Link) (r : Run) → Ends r → Ends (unless_over absl max_bulk clock b l r)
  unfolding unless_over
  unless_over-Ends true l r h = λ e. cc
  unless_over-Ends false l r h = h

  more_bytes-Ends :
      (again : Bytes → Arrivals → Run) (l : Link) (buffer : Bytes) (arrivals : Arrivals) (fuel : ℕ)
      → length buffer + amount arrivals < suc fuel
      → ((buffer' : Bytes) (arrivals' : Arrivals)
          → length buffer' + amount arrivals' < fuel
          → Ends (again buffer' arrivals'))
      → Ends (more_bytes absl max_bulk clock again l buffer arrivals)
  unfolding more_bytes
  more_bytes-Ends again l buffer [] fuel enough k = λ e. cc
  more_bytes-Ends again l buffer (none ∷ arrivals) fuel enough k = fails-Ends l
  more_bytes-Ends again l buffer (some [] ∷ arrivals) fuel enough k = fails-Ends l
  more_bytes-Ends again l buffer (some (b ∷ chunk) ∷ arrivals) fuel enough k =
      k (buffer ++ (b ∷ chunk)) arrivals (omega (arith, length-append buffer (b ∷ chunk)))

  on_next-Ends :
      (again : ℕ → Link → Bytes → Arrivals → Run) (i : ℕ) (l : Link) (buffer : Bytes)
      (arrivals : Arrivals) (fuel : ℕ) (r : Result (Option (ℕ × ShineFrame)))
      → next_frame absl max_bulk buffer ≡ r
      → length buffer + amount arrivals < suc fuel
      → ((j : ℕ) (m : Link) (buffer' : Bytes) (arrivals' : Arrivals)
          → length buffer' + amount arrivals' < fuel
          → Ends (again j m buffer' arrivals'))
      → Ends (on_next absl max_bulk clock again i l buffer arrivals r)
  unfolding on_next
  on_next-Ends again i l buffer arrivals fuel (err status) h enough k = fails-Ends l
  on_next-Ends again i l buffer arrivals fuel (ok none) h enough k =
      more_bytes-Ends (again i l) l buffer arrivals fuel enough (k i l)
  on_next-Ends again i l buffer arrivals fuel (ok (some (n, f))) h enough k =
      let (pos, fits) = next_frame_size buffer n f h in
      k (suc i) (dispatch_frame (clock i) l f).0 (drop n buffer) arrivals
        (omega (arith, length-drop n buffer))

  -- The loop comes to an end, or waits for bytes that have not arrived, within one round for each
  -- byte in the buffer, each piece that arrives and each byte of it, and one more.
  pub reader_loop-Ends :
      (fuel i : ℕ) (l : Link) (buffer : Bytes) (arrivals : Arrivals)
      → length buffer + amount arrivals < fuel
      → Ends (reader_loop absl max_bulk clock fuel i l buffer arrivals)
  unfolding reader_loop
  reader_loop-Ends zero i l buffer arrivals enough = absurd (omega arith)
  reader_loop-Ends (suc fuel) i l buffer arrivals enough = unless_over-Ends l.closed l _ (
      on_next-Ends (reader_loop absl max_bulk clock fuel) i l buffer arrivals fuel
        (next_frame absl max_bulk buffer) refl enough (reader_loop-Ends fuel))
