-- ===== src/Transport/Link/Dispatch/Duplicates.antt =====
-- A NEW frame whose sid is in use, in `Link::dispatchFrame` of src/transport/link.cpp.
use shine.Prelude.{
  ℕ, ◌≡◌, ◌≢◌, refl, sym, ◌∙◌, ap, arith, List, [], ◌∷◌, ◌++◌, some, true, false, Bytes, subst,
  if◌then◌else◌, ok, length, get_elem?, All, All-append,
}
use shine.Proto.Frame.{ShineFrame, new, ack}
use shine.Transport.Address.{Address, parse_binary}
use shine.Transport.Session.{Session, tcp}
use shine.Transport.Session
use shine.Transport.Link.State.{
  Link, Output, writes, starts_handler, lookup, emplace, find_session, add_session, enqueue_frame,
}
use shine.Transport.Link.Dispatch.{dispatch_frame, accept_parsed, accept}
use shine.Transport.Link.Dispatch.Table.{IsTable}
use shine.Transport.Link.Dispatch.Orphans.{
  IsOrphan, NotFrom, LeavesAlone, dispatch_frame-LeavesAlone,
}

-- Frames dispatched one after another, each at its time.
unfoldable pub dispatch_each : List (ℕ × ShineFrame) → Link → Link × List Output
dispatch_each [] l = (l, [])
dispatch_each ((now, f) ∷ later) l =
    let first = dispatch_frame now l f in
    let others = dispatch_each later first.0 in (others.0, first.1 ++ others.1)

dispatch_each-LeavesAlone :
    (later : List (ℕ × ShineFrame)) (j : ℕ) (s : Session) (l : Link)
    → IsOrphan j s l
    → LeavesAlone j s (dispatch_each later l)
unfolding dispatch_each
dispatch_each-LeavesAlone [] j s l h = (h, tt)
dispatch_each-LeavesAlone ((now, f) ∷ later) j s l h =
    let (kept, calls) = dispatch_frame-LeavesAlone j s now l f h in
    let (last, others) = dispatch_each-LeavesAlone later j s (dispatch_frame now l f).0 kept in
    (last, All-append (NotFrom j) (dispatch_frame now l f).1 _ calls others)

emplace_there :
    (sid j i : ℕ) (table : List (ℕ × ℕ)) → lookup sid table ≡ some i → emplace sid j table ≡ table
unfolding emplace
emplace_there sid j i table h = grind arith

get_elem?-end : (xs : List Session) (s : Session) → get_elem? (xs ++ (s ∷ [])) (length xs) ≡ some s
get_elem?-end [] s = refl
get_elem?-end (x ∷ xs) s = get_elem?-end xs s

nothing_beyond : (xs : List Session) (s : Session) → get_elem? xs (length xs) ≢ some s
nothing_beyond [] s h = absurd cc
nothing_beyond (x ∷ xs) s h = nothing_beyond xs s h

-- The link that a NEW frame for a sid that is in use leaves.
add_session-IsOrphan :
    (l : Link) (sid i : ℕ) (s : Session)
    → lookup sid l.sessions ≡ some i
    → IsTable l.sessions l.objects
    → IsOrphan (length l.objects) s (add_session sid s l)
unfolding add_session IsTable
add_session-IsOrphan l sid i s f h = rw (emplace_there sid (length l.objects) i l.sessions f) (
  get_elem?-end l.objects s,
  λ k e. let (t, at, same) = h k (length l.objects) e in nothing_beyond l.objects t at,
)

-- A NEW frame with a good address, on an open link with a handler.
new_accepted :
    (now : ℕ) (l : Link) (sid win : ℕ) (blob : Bytes) (target : Address)
    → l.closed ≡ false
    → l.has_handler ≡ true
    → parse_binary blob ≡ ok target
    → dispatch_frame now l (new sid blob win) ≡ (
      add_session sid (Session.create sid target win l.opts.init_window tcp) l,
      writes (ack sid) ∷ starts_handler (length l.objects) ∷ [],
    )
unfolding dispatch_frame accept_parsed accept enqueue_frame
new_accepted now l sid win blob target c h p =
    let s = Session.create sid target win l.opts.init_window tcp in
    ap (λ b. if b then accept_parsed l sid win (parse_binary blob) else (l, [])) h
    ∙ ap (accept_parsed l sid win) p
    ∙ ap
        (λ b. (
          add_session sid s l,
          (if b then [] else (writes (ack sid) ∷ [])) ++ (starts_handler (length l.objects) ∷ []),
        ))
        c

-- On an open link with a handler, whose table leads each sid to an object with that sid, a NEW frame
-- with a good address for a sid that is in the table is acknowledged and starts a handler on a new
-- object for its target. But whatever frames are dispatched afterwards, for this sid or others, that
-- object stays as it was made and none of its channels is given anything.
pub dispatch_frame_duplicate :
    (now : ℕ) (l : Link) (sid i win : ℕ) (blob : Bytes) (target : Address)
    (later : List (ℕ × ShineFrame))
    → l.closed ≡ false
    → l.has_handler ≡ true
    → IsTable l.sessions l.objects
    → parse_binary blob ≡ ok target
    → find_session l sid ≡ some i
    → let j = length l.objects in
      let r = dispatch_frame now l (new sid blob win) in
      let s = Session.create sid target win l.opts.init_window tcp in
      (r.1 ≡ writes (ack sid) ∷ starts_handler j ∷ [])
      × (get_elem? (dispatch_each later r.0).0.objects j ≡ some s)
      × All (NotFrom j) (dispatch_each later r.0).1
unfolding find_session
dispatch_frame_duplicate now l sid i win blob target later c h t p f =
    let s = Session.create sid target win l.opts.init_window tcp in
    let (kept, calls) =
      dispatch_each-LeavesAlone later (length l.objects) s (add_session sid s l)
        (add_session-IsOrphan l sid i s f t) in
    let accepted = new_accepted now l sid win blob target c h p in
    (
      ap (λ r. r.1) accepted,
      ap (λ r. get_elem? (dispatch_each later r.0).0.objects (length l.objects)) accepted ∙ kept.0,
      subst (λ r. All (NotFrom (length l.objects)) (dispatch_each later r.0).1) (sym accepted)
          calls,
    )
