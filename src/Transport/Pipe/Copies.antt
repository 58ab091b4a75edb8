-- ===== src/Transport/Pipe/Copies.antt =====
-- What `bidiCopy` of src/transport/pipe.cpp hands on.
use shine.Prelude.{
  ◌*◌, ◌<◌, ◌≤◌, ◌≡◌, ◌≢◌, refl, sym, ◌∙◌, ap, List, [], ◌∷◌, ◌++◌, Bool, true, false, arith, Bytes,
  All, Result, ok, err, length, append_assoc, append-nil,
}
use shine.Transport.Pipe.{
  Phase, reading, writing, shutting, over, Op, writes, shuts_down, Half, start, break_off,
  after_read, after_write, Fits, HalfStep, reads, written, shut, Pipe, Step, goes, comes, closes,
  Reach, here, next,
}

-- The calls that write pieces one after another, with the half-close behind them or not.
abbrev pub calls : List Bytes → Bool → List Op
calls [] false = []
calls [] true = shuts_down ∷ []
calls (c ∷ pieces) ended = writes c ∷ calls pieces ended

abbrev pub joined : List Bytes → Bytes
joined [] = []
joined (c ∷ pieces) = c ++ joined pieces

abbrev pub has_ended : Phase → Bool
has_ended reading = false
has_ended writing = false
has_ended shutting = true
has_ended over = true

abbrev pub IsPiece : Bytes → Type 0
IsPiece c = (0 < length c) × (length c ≤ 32 * 1024)

-- The destination was called to write, in order and in pieces that fit the buffer, exactly what the
-- source has given, and to shut down once, after that, if the copy has come to its end.
pub record IsCopy (h : Half) : Type 0 where
  pub pieces : List Bytes
  pub in_order : h.ops ≡ calls pieces (has_ended h.phase)
  pub all_of_it : joined pieces ≡ h.given
  pub fit : All IsPiece pieces

calls-snoc :
    (pieces : List Bytes) (c : Bytes)
    → calls pieces false ++ (writes c ∷ []) ≡ calls (pieces ++ (c ∷ [])) false
calls-snoc [] c = refl
calls-snoc (p ∷ pieces) c = ap (λ t. writes p ∷ t) (calls-snoc pieces c)

calls-end : (pieces : List Bytes) → calls pieces false ++ (shuts_down ∷ []) ≡ calls pieces true
calls-end [] = refl
calls-end (p ∷ pieces) = ap (λ t. writes p ∷ t) (calls-end pieces)

joined-snoc : (pieces : List Bytes) (c : Bytes) → joined (pieces ++ (c ∷ [])) ≡ joined pieces ++ c
joined-snoc [] c = append-nil c
joined-snoc (p ∷ pieces) c =
    ap (λ t. p ++ t) (joined-snoc pieces c) ∙ sym (append_assoc p (joined pieces) c)

All-snoc :
    (pieces : List Bytes) (c : Bytes)
    → All IsPiece pieces
    → IsPiece c
    → All IsPiece (pieces ++ (c ∷ []))
All-snoc [] c h k = (k, tt)
All-snoc (p ∷ pieces) c h k = (h.0, All-snoc pieces c h.1 k)

break_off-IsCopy : (h : Half) → has_ended h.phase ≡ false → IsCopy h → IsCopy (break_off h)
unfolding break_off
break_off-IsCopy h runs v = record {
  pieces = v.pieces;
  in_order =
      ap (λ t. t ++ (shuts_down ∷ [])) (v.in_order ∙ ap (calls v.pieces) runs) ∙ calls-end v.pieces;
  all_of_it = v.all_of_it;
  fit = v.fit;
}

after_read-IsCopy :
    (h : Half) (r : Result Bytes) → h.phase ≡ reading → Fits r → IsCopy h → IsCopy (after_read h r)
unfolding after_read
after_read-IsCopy h (err status) e fits v = break_off-IsCopy h (ap has_ended e) v
after_read-IsCopy h (ok []) e fits v = break_off-IsCopy h (ap has_ended e) v
after_read-IsCopy h (ok (b ∷ p)) e fits v = record {
  pieces = v.pieces ++ ((b ∷ p) ∷ []);
  in_order =
      ap (λ t. t ++ (writes (b ∷ p) ∷ [])) (v.in_order ∙ ap (λ ph. calls v.pieces (has_ended ph)) e)
      ∙ calls-snoc v.pieces (b ∷ p);
  all_of_it = joined-snoc v.pieces (b ∷ p) ∙ ap (λ t. t ++ (b ∷ p)) v.all_of_it;
  fit = All-snoc v.pieces (b ∷ p) v.fit (omega arith, fits);
}

after_write-IsCopy :
    (h : Half) (r : Result (Unit {0})) → h.phase ≡ writing → IsCopy h → IsCopy (after_write h r)
unfolding after_write
after_write-IsCopy h (err status) e v = break_off-IsCopy h (ap has_ended e) v
after_write-IsCopy h (ok u) e v = record {
  pieces = v.pieces;
  in_order = v.in_order ∙ ap (λ ph. calls v.pieces (has_ended ph)) e;
  all_of_it = v.all_of_it;
  fit = v.fit;
}

HalfStep-IsCopy : {h last : Half} → HalfStep h last → IsCopy h → IsCopy last
HalfStep-IsCopy {h} (reads r e fits) v = after_read-IsCopy h r e fits v
HalfStep-IsCopy {h} (written r e) v = after_write-IsCopy h r e v
HalfStep-IsCopy {h} (shut e) v = record {
  pieces = v.pieces;
  in_order = v.in_order ∙ ap (λ ph. calls v.pieces (has_ended ph)) e;
  all_of_it = v.all_of_it;
  fit = v.fit;
}

-- A copy that has returned does nothing more.
over_stays : {h last : Half} → HalfStep h last → h.phase ≢ over
over_stays (reads r e fits) k = let same : reading ≡ over = sym e ∙ k in absurd cc
over_stays (written r e) k = let same : writing ≡ over = sym e ∙ k in absurd cc
over_stays (shut e) k = let same : shutting ≡ over = sym e ∙ k in absurd cc

-- What holds of a pipe at every moment.
pub record IsFaithful (p : Pipe) : Type 0 where
  pub there_copies : IsCopy p.there
  pub back_copies : IsCopy p.back
  pub closed_last : p.closed ≡ true → (p.there.phase ≡ over) × (p.back.phase ≡ over)

start-IsCopy : IsCopy start
start-IsCopy = record { pieces = []; in_order = refl; all_of_it = refl; fit = tt }

Step-IsFaithful : {p q : Pipe} → Step p q → IsFaithful p → IsFaithful q
Step-IsFaithful (goes s) v = record {
  there_copies = HalfStep-IsCopy s v.there_copies;
  back_copies = v.back_copies;
  closed_last = λ c. absurd (over_stays s (v.closed_last c).0);
}
Step-IsFaithful (comes s) v = record {
  there_copies = v.there_copies;
  back_copies = HalfStep-IsCopy s v.back_copies;
  closed_last = λ c. absurd (over_stays s (v.closed_last c).1);
}
Step-IsFaithful (closes e k) v = record {
  there_copies = v.there_copies;
  back_copies = v.back_copies;
  closed_last = λ c. (e, k);
}

-- In whatever order the calls of the two copies come back, and whatever they answer, each stream is
-- asked to write exactly what the other one gave, in order and in pieces that fit the buffer, is
-- half-closed at most once, behind the last write, and the streams are closed only when both copies
-- have returned.
pub Reach-IsFaithful : {p : Pipe} → Reach p → IsFaithful p
Reach-IsFaithful here = record {
  there_copies = start-IsCopy;
  back_copies = start-IsCopy;
  closed_last = λ c. absurd cc;
}
Reach-IsFaithful (next r s) = Step-IsFaithful s (Reach-IsFaithful r)
