-- ===== src/Transport/Pipe.antt =====
-- `halfCopy` and `bidiCopy` of src/transport/pipe.cpp, which every outbound hands its two streams
-- to. The streams belong to others: each call that is waited for is a step with any answer.
pub mod Copies
use shine.Prelude.{
  ℕ, ◌*◌, ◌≤◌, ◌≡◌, List, [], ◌∷◌, ◌++◌, Bool, true, false, Bytes, Result, ok, err, length,
}

-- Where a copy stands: it waits for `read`, for `write`, for `shutdownWrite`, or has returned.
pub data Phase : Type 0 where
  reading writing shutting over : Phase

-- The calls on the destination.
pub data Op : Type 0 where
  writes : Bytes → Op
  shuts_down : Op

-- A copy, with what it was given by its source and the calls it has made on its destination.
pub record Half : Type 0 where
  pub phase : Phase
  pub given : Bytes
  pub ops : List Op

abbrev pub start : Half
start = record { phase = reading; given = []; ops = [] }

-- The end of the loop.
unfoldable pub break_off : Half → Half
break_off h = record h { phase = shutting; ops = h.ops ++ (shuts_down ∷ []) }

unfoldable pub after_read : Half → Result Bytes → Half
after_read h (err status) = break_off h
after_read h (ok []) = break_off h
after_read h (ok (b ∷ p)) = record h {
  phase = writing;
  given = h.given ++ (b ∷ p);
  ops = h.ops ++ (writes (b ∷ p) ∷ []);
}

unfoldable pub after_write : Half → Result (Unit {0}) → Half
after_write h (err status) = break_off h
after_write h (ok u) = record h { phase = reading }

-- What a read may answer: an error, or at most as many bytes as the buffer has.
abbrev pub Fits : Result Bytes → Type 0
Fits (err status) = Unit
Fits (ok p) = length p ≤ 32 * 1024

pub data HalfStep (h : Half) : Half → Type 0 where
  reads : (r : Result Bytes) → h.phase ≡ reading → Fits r → HalfStep h (after_read h r)
  written : (r : Result (Unit {0})) → h.phase ≡ writing → HalfStep h (after_write h r)
  shut : h.phase ≡ shutting → HalfStep h (record h { phase = over })

-- Both copies, from `a` to `b` and back, and whether the two streams have been closed.
pub record Pipe : Type 0 where
  pub there : Half
  pub back : Half
  pub closed : Bool

abbrev pub opened : Pipe
opened = record { there = start; back = start; closed = false }

-- `co_await (halfCopy(a, b) && halfCopy(b, a)); a->close(); b->close();`
pub data Step (p : Pipe) : Pipe → Type 0 where
  goes : {h : Half} → HalfStep p.there h → Step p (record p { there = h })
  comes : {h : Half} → HalfStep p.back h → Step p (record p { back = h })
  closes : p.there.phase ≡ over → p.back.phase ≡ over → Step p (record p { closed = true })

pub data Reach : Pipe → Type 0 where
  here : Reach opened
  next : {p q : Pipe} → Reach p → Step p q → Reach q
