-- ===== src/Transport/Link/Reader.antt =====
-- `Link::readerLoop` of src/transport/link.cpp: bytes from the socket are gathered in the read
-- buffer, and every frame that is there in whole is dispatched.
pub mod Chunks
pub mod Fuel
use shine.Prelude.{
  ℕ, zero, suc, ◌+◌, List, [], ◌∷◌, ◌++◌, Option, none, some, Bool, true, false, Bytes, Result, ok,
  err, drop,
}
use shine.Absl.{Absl}
use shine.Proto.Frame.{ShineFrame}
use shine.Transport.Link.Receive.{next_frame}
use shine.Transport.Link.State.{Link, Output, fail_link}
use shine.Transport.Link.Dispatch.{dispatch_frame}

-- How the loop ends: the link was closed or has failed, no further bytes have arrived yet and those
-- in the buffer are kept, or the fuel is used up.
pub data End : Type 0 where
  returned : End
  wants_more : Bytes → End
  out_of_fuel : End

-- The link, the calls that were made, and how the loop ended.
abbrev pub Run : Type 0
Run = Link × (List Output × End)

abbrev pub before : List Output → Run → Run
before outputs r = (r.0, (outputs ++ r.1.0, r.1.1))

-- `co_await failLink(...); co_return;`
unfoldable pub fails : Link → Run
fails l = let r = fail_link l in (r.0, (r.1, returned))

-- What the socket gives, one `async_read_some` after another: bytes, or an error.
abbrev pub Arrivals : Type 0
Arrivals = List (Option Bytes)

module _ (absl : Absl) (max_bulk : ℕ) (clock : ℕ → ℕ) where
  -- A round of the loop, given the rest of it: after more bytes, and after a frame. `i` counts the
  -- frames; `clock` answers for `nowNs`.
  unfoldable pub more_bytes : (Bytes → Arrivals → Run) → Link → Bytes → Arrivals → Run
  more_bytes again l buffer [] = (l, ([], wants_more buffer))
  more_bytes again l buffer (none ∷ arrivals) = fails l
  more_bytes again l buffer (some [] ∷ arrivals) = fails l
  more_bytes again l buffer (some (b ∷ chunk) ∷ arrivals) = again (buffer ++ (b ∷ chunk)) arrivals

  unfoldable pub on_next :
      (ℕ → Link → Bytes → Arrivals → Run)
      → ℕ
      → Link
      → Bytes
      → Arrivals
      → Result (Option (ℕ × ShineFrame))
      → Run
  on_next again i l buffer arrivals (err status) = fails l
  on_next again i l buffer arrivals (ok none) = more_bytes (again i l) l buffer arrivals
  on_next again i l buffer arrivals (ok (some (n, f))) =
      let r = dispatch_frame (clock i) l f in
      before r.1 (again (suc i) r.0 (drop n buffer) arrivals)

  unfoldable pub unless_over : Bool → Link → Run → Run
  unless_over true l r = (l, ([], returned))
  unless_over false l r = r

  unfoldable pub reader_loop : ℕ → ℕ → Link → Bytes → Arrivals → Run
  reader_loop zero i l buffer arrivals = (l, ([], out_of_fuel))
  reader_loop (suc fuel) i l buffer arrivals =
      unless_over l.closed l
        (on_next (reader_loop fuel) i l buffer arrivals (next_frame absl max_bulk buffer))

  -- The frames dispatched one after another.
  unfoldable pub dispatch_all : ℕ → Link → List ShineFrame → Link × List Output
  dispatch_all i l [] = (l, [])
  dispatch_all i l (f ∷ fs) =
      let r = dispatch_frame (clock i) l f in
      let rest = dispatch_all (suc i) r.0 fs in (rest.0, r.1 ++ rest.1)
