-- ===== src/Transport/Link/Opening.antt =====
-- A session that is opened on one link of src/transport/link.cpp, and the link at the other end.
use shine.Prelude.{
  ℕ, ◌+◌, ◌<◌, ◌≤◌, ◌≡◌, ◌≢◌, refl, sym, ◌∙◌, ap, List, [], ◌∷◌, none, some, true, false, arith,
  Bytes, All, ok, length, append-nil, ◌==◌, if◌then◌else◌,
}
use shine.Absl.{Absl, IsLawful}
use shine.Proto.Frame.{ShineFrame, new, ack}
use shine.Proto.Frame.Encode.{encode}
use shine.Proto.Frame.RoundTrip.{IsEncodable}
use shine.Transport.Address.{Address, to_binary, parse_binary}
use shine.Transport.Address.Binary.{HasForm, parse_binary-to_binary}
use shine.Transport.Session
use shine.Transport.Session.{Session, tcp}
use shine.Transport.Link.State.{
  Link, Output, writes, starts_handler, lookup, emplace, find_session, enqueue_frame, add_session,
  open_session,
}
use shine.Transport.Link.Dispatch.{accept, accept_parsed, dispatch_frame}
use shine.Transport.Link.Reader.{Run, reader_loop, dispatch_all}
use shine.Transport.Link.Reader.Chunks.{arrived, joined, reader_loop_pieces}

-- The object that a link makes for a NEW frame.
abbrev pub object_for : ℕ → Address → ℕ → Link → Session
object_for sid target win l = Session.create sid target win l.opts.init_window tcp

-- The frame that opens a session, and what the sender's link makes of the call.
abbrev pub opening : Link → ℕ → Address → ShineFrame
opening l sid target = new sid (to_binary target) l.opts.init_window

open_session-lem :
    (l : Link) (sid : ℕ) (target : Address)
    → l.closed ≡ false
    → open_session l sid target false
      ≡ ok (
        add_session sid (object_for sid target l.opts.init_window l) l,
        (length l.objects, writes (opening l sid target) ∷ []),
      )
unfolding open_session enqueue_frame
open_session-lem l sid target alive = rw alive refl

-- What the other link makes of the frame.
abbrev pub Accepts : Link → ℕ → Address → ℕ → Link × List Output → Type 0
Accepts l sid target win r =
    (r.0 ≡ add_session sid (object_for sid target win l) l)
    × (r.1 ≡ writes (ack sid) ∷ starts_handler (length l.objects) ∷ [])

accept_parsed-lem :
    (l : Link) (sid win : ℕ) (target : Address)
    → l.closed ≡ false
    → Accepts l sid target win (accept_parsed l sid win (ok target))
unfolding accept_parsed accept enqueue_frame
accept_parsed-lem l sid win target alive = (refl, rw alive refl)

dispatch_new :
    (now : ℕ) (l : Link) (sid win : ℕ) (target : Address)
    → l.closed ≡ false
    → l.has_handler ≡ true
    → HasForm target
    → dispatch_frame now l (new sid (to_binary target) win) ≡ accept_parsed l sid win (ok target)
unfolding dispatch_frame
dispatch_new now l sid win target alive handler form =
    let read : parse_binary (to_binary target) ≡ ok target =
      ap parse_binary (sym (append-nil (to_binary target)))
      ∙ parse_binary-to_binary target [] form in
    ap (λ b. if b then accept_parsed l sid win (parse_binary (to_binary target)) else (l, []))
      handler
    ∙ ap (accept_parsed l sid win) read

-- A new entry of the table is found.
lookup-here : (sid i : ℕ) (table : List (ℕ × ℕ)) → lookup sid ((sid, i) ∷ table) ≡ some i
unfolding lookup
lookup-here sid i table = let e : sid == sid ≡ true = ground arith in rw e refl

lookup-emplace :
    (sid i : ℕ) (table : List (ℕ × ℕ))
    → lookup sid table ≡ none
    → lookup sid (emplace sid i table) ≡ some i
unfolding emplace
lookup-emplace sid i table h =
    ap (λ o. lookup sid (elim o [ none ↦ (sid, i) ∷ table | some j ↦ table ])) h
    ∙ lookup-here sid i table

module _ (absl : Absl) (lawful : IsLawful absl) (max_bulk : ℕ) (large : 9 ≤ max_bulk)
    (clock : ℕ → ℕ) where
  -- A TCP session that is opened on an open link, for a target that has a binary form (an address of 4
  -- or 16 bytes or a domain of 1 to 255, and a port of 16 bits), sends one NEW frame. Where the frame's
  -- values fit the words of the wire and the receiver's limit for a bulk string, which is at least 9,
  -- the other link, open, with a handler and with no session of that number, reads it in pieces that
  -- are not empty, cut anywhere, on enough fuel, acknowledges it, makes an object for the same target
  -- with the window of the sender as its credit, starts a handler on it, and from then on finds it
  -- under the number.
  pub open_session-accepted :
      (l m : Link) (sid fuel : ℕ) (target : Address) (chunks : List Bytes)
      → l.closed ≡ false
      → m.closed ≡ false
      → m.has_handler ≡ true
      → find_session m sid ≡ none
      → HasForm target
      → IsEncodable max_bulk (opening l sid target)
      → All (λ (c : Bytes). c ≢ []) chunks
      → joined chunks ≡ encode absl (opening l sid target)
      → 1 + length chunks < fuel
      → let r = reader_loop absl max_bulk clock fuel 0 m [] (arrived chunks) in
        (open_session l sid target false
          ≡ ok (
            add_session sid (object_for sid target l.opts.init_window l) l,
            (length l.objects, writes (opening l sid target) ∷ []),
          ))
        × (r.0 ≡ add_session sid (object_for sid target l.opts.init_window m) m)
        × (r.1.0 ≡ writes (ack sid) ∷ starts_handler (length m.objects) ∷ [])
        × (find_session r.0 sid ≡ some (length m.objects))
  unfolding dispatch_all find_session add_session
  open_session-accepted l m sid fuel target chunks alive alive' handler free form fits some_bytes
        cut enough =
      let f = opening l sid target in
      let read =
        reader_loop_pieces absl lawful max_bulk large clock (f ∷ []) chunks 0 fuel m [] (fits, tt)
          some_bytes alive' (cut ∙ sym (append-nil (encode absl f))) enough in
      let at = dispatch_new (clock 0) m sid l.opts.init_window target alive' handler form in
      let (link, calls) = accept_parsed-lem m sid l.opts.init_window target alive' in
      let same = ap (λ (r : Run). r.0) read ∙ ap (λ (r : Link × List Output). r.0) at ∙ link in
      (
        open_session-lem l sid target alive,
        same,
        ap (λ (r : Run). r.1.0) read
            ∙ append-nil _
            ∙ ap (λ (r : Link × List Output). r.1) at
            ∙ calls,
        ap (λ (l : Link). lookup sid l.sessions) same
            ∙ lookup-emplace sid (length m.objects) m.sessions free,
      )
