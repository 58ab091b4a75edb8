-- ===== src/Transport/Link/Dispatch/Orphans.antt =====
-- An object of `Link::dispatchFrame` of src/transport/link.cpp that no entry of the session table leads
-- to.
use shine.Prelude.{
  ℕ, zero, suc, ◌≡◌, ◌≢◌, refl, ◌∙◌, ap, inl, inr, List, [], ◌∷◌, ◌++◌, Option, none, some, Bool,
  true, false, Bytes, Result, ok, err, length, get_elem?, set, ◌==◌, if◌then◌else◌, arith, All,
  All-append, Bool-cases,
}
use shine.Proto.Frame.{ShineFrame}
use shine.Proto.Frame
use shine.Transport.Address.{Address, default_address, parse_binary}
use shine.Transport.Session.{
  Session, SessionState, init, opened, half_closed_local, half_closed_remote, closed, Protocol, tcp,
  udp, Call,
}
use shine.Transport.Session
use shine.Transport.Link.State.{
  Link, Output, on_object, outputs_of, lookup, find_session, erase_session, enqueue_frame, on_found,
  on_session, add_session,
}
use shine.Transport.Link.Dispatch.{
  with_session, accept, accept_parsed, deliver_udp, erase_closed, on_close, on_reset, on_pong,
  dispatch_frame,
}
use shine.Transport.Link.Dispatch.Table.{lookup-erase, lookup-emplace}

-- The object `s` is at position `j`, and no sid leads there.
abbrev pub IsOrphan : ℕ → Session → Link → Type 0
IsOrphan j s l = (get_elem? l.objects j ≡ some s) × ((sid : ℕ) → lookup sid l.sessions ≢ some j)

-- A call that is not made by the object at `j`.
abbrev pub NotFrom : ℕ → Output → Type 0
NotFrom j (on_object i c) = i ≢ j
NotFrom j _ = Unit

-- What leaves the object alone and makes none of its calls.
abbrev pub LeavesAlone : ℕ → Session → Link × List Output → Type 0
LeavesAlone j s r = IsOrphan j s r.0 × All (NotFrom j) r.1

get_elem?-set_other :
    (xs : List Session) (i j : ℕ) (v : Session) → i ≢ j → get_elem? (set xs i v) j ≡ get_elem? xs j
get_elem?-set_other [] i j v h = refl
get_elem?-set_other (x ∷ xs) zero zero v h = absurd (h refl)
get_elem?-set_other (x ∷ xs) zero (suc j) v h = refl
get_elem?-set_other (x ∷ xs) (suc i) zero v h = refl
get_elem?-set_other (x ∷ xs) (suc i) (suc j) v h = get_elem?-set_other xs i j v (λ e. h (ap suc e))

get_elem?-append_left :
    (xs ys : List Session) (j : ℕ) (s : Session)
    → get_elem? xs j ≡ some s
    → (get_elem? (xs ++ ys) j ≡ some s) × (length xs ≢ j)
get_elem?-append_left [] ys j s h = absurd cc
get_elem?-append_left (x ∷ xs) ys zero s h = (h, λ e. omega (arith, e))
get_elem?-append_left (x ∷ xs) ys (suc j) s h =
    let (there, apart) = get_elem?-append_left xs ys j s h in (there, λ e. apart (omega (arith, e)))

NotFrom-outputs_of : (i j : ℕ) (calls : List Call) → i ≢ j → All (NotFrom j) (outputs_of i calls)
NotFrom-outputs_of i j [] h = tt
NotFrom-outputs_of i j (c ∷ calls) h = (h, NotFrom-outputs_of i j calls h)

NotFrom-enqueue_frame : (j : ℕ) (l : Link) (f : ShineFrame) → All (NotFrom j) (enqueue_frame l f)
unfolding enqueue_frame
NotFrom-enqueue_frame j l f = elim (Bool-cases l.closed) [ inl e ↦ rw e tt | inr e ↦ rw e (tt, tt) ]

module _ (j : ℕ) (s : Session) where
  on_found-LeavesAlone :
      (i : ℕ) (method : Session → Session × List Call) (l : Link) (o : Option Session)
      → i ≢ j
      → IsOrphan j s l
      → LeavesAlone j s (on_found i method l o)
  unfolding on_found
  on_found-LeavesAlone i method l none h (at, lost) = ((at, lost), tt)
  on_found-LeavesAlone i method l (some t) h (at, lost) = (
    (get_elem?-set_other l.objects i j (method t).0 h ∙ at, lost),
    NotFrom-outputs_of i j (method t).1 h,
  )

  on_session-LeavesAlone :
      (i : ℕ) (method : Session → Session × List Call) (l : Link)
      → i ≢ j
      → IsOrphan j s l
      → LeavesAlone j s (on_session i method l)
  unfolding on_session
  on_session-LeavesAlone i method l = on_found-LeavesAlone i method l (get_elem? l.objects i)

  with_session-LeavesAlone :
      (l : Link) (sid : ℕ) (act : ℕ → Link × List Output)
      → IsOrphan j s l
      → ((i : ℕ) → i ≢ j → LeavesAlone j s (act i))
      → LeavesAlone j s (with_session l sid act)
  unfolding with_session find_session
  with_session-LeavesAlone l sid act (at, lost) each = by_entry (lookup sid l.sessions) refl
    where
      by_entry :
          (o : Option ℕ)
          → lookup sid l.sessions ≡ o
          → LeavesAlone j s
              (elim o as (λ _. Link × List Output) [ none ↦ (l, []) | some i ↦ act i ])
      by_entry none e = ((at, lost), tt)
      by_entry (some i) e = each i (λ same. lost sid (e ∙ ap some same))

  erase_session-IsOrphan :
      (sid : ℕ) (l : Link) → IsOrphan j s l → IsOrphan j s (erase_session l sid)
  unfolding erase_session
  erase_session-IsOrphan sid l (at, lost) = (at, λ k e. lost k (lookup-erase sid k j l.sessions e))

  erase_closed-IsOrphan :
      (st : SessionState) (sid : ℕ) (l : Link)
      → IsOrphan j s l
      → IsOrphan j s (erase_closed st sid l)
  unfolding erase_closed
  erase_closed-IsOrphan closed sid l h = erase_session-IsOrphan sid l h
  erase_closed-IsOrphan _ sid l h = h

  accept-LeavesAlone :
      (l : Link) (sid win : ℕ) (target : Address) (protocol : Protocol)
      → IsOrphan j s l
      → LeavesAlone j s (accept l sid win target protocol)
  unfolding accept add_session
  accept-LeavesAlone l sid win target protocol (at, lost) =
      let (there, apart) = get_elem?-append_left l.objects (_ ∷ []) j s at in
      (
        (
          there,
          λ k e. elim (lookup-emplace sid (length l.objects) k j l.sessions e) [
            | inl old ↦ lost k old
            | inr (same, last) ↦ apart last
          ],
        ),
        All-append (NotFrom j) (enqueue_frame l (Frame.ack sid)) _
            (NotFrom-enqueue_frame j l (Frame.ack sid)) (tt, tt),
      )

  accept_parsed-LeavesAlone :
      (l : Link) (sid win : ℕ) (r : Result Address)
      → IsOrphan j s l
      → LeavesAlone j s (accept_parsed l sid win r)
  unfolding accept_parsed
  accept_parsed-LeavesAlone l sid win (err status) h =
      (h, NotFrom-enqueue_frame j l (Frame.reset sid))
  accept_parsed-LeavesAlone l sid win (ok target) h = accept-LeavesAlone l sid win target tcp h

  deliver_udp-LeavesAlone :
      (l : Link) (i : ℕ) (payload : Bytes) (r : Result Address)
      → i ≢ j
      → IsOrphan j s l
      → LeavesAlone j s (deliver_udp l i payload r)
  unfolding deliver_udp
  deliver_udp-LeavesAlone l i payload (err status) apart h = (h, tt)
  deliver_udp-LeavesAlone l i payload (ok addr) apart h = on_session-LeavesAlone i _ l apart h

  if-LeavesAlone :
      (b : Bool) (l : Link) (r : Link × List Output)
      → IsOrphan j s l
      → LeavesAlone j s r
      → LeavesAlone j s (if b then r else (l, []))
  if-LeavesAlone true l r h k = k
  if-LeavesAlone false l r h k = (h, tt)

  on_pong-IsOrphan :
      (now : ℕ) (l : Link) (nonce : ℕ) → IsOrphan j s l → IsOrphan j s (on_pong now l nonce)
  unfolding on_pong
  on_pong-IsOrphan now l nonce h = elim (Bool-cases (l.pending_ping_nonce == nonce)) [
    | inl e ↦ rw e h
    | inr e ↦ rw e h
  ]

  pub dispatch_frame-LeavesAlone :
      (now : ℕ) (l : Link) (f : ShineFrame)
      → IsOrphan j s l
      → LeavesAlone j s (dispatch_frame now l f)
  unfolding dispatch_frame on_close on_reset
  dispatch_frame-LeavesAlone now l (Frame.data_frame sid payload) h =
      with_session-LeavesAlone l sid _ h λ i apart. on_session-LeavesAlone i _ l apart h
  dispatch_frame-LeavesAlone now l (Frame.udp_data sid addr_blob payload) h =
      with_session-LeavesAlone l sid _ h
        λ i apart. deliver_udp-LeavesAlone l i payload (parse_binary addr_blob) apart h
  dispatch_frame-LeavesAlone now l (Frame.new sid addr_blob win) h =
      if-LeavesAlone l.has_handler l _ h
        (accept_parsed-LeavesAlone l sid win (parse_binary addr_blob) h)
  dispatch_frame-LeavesAlone now l (Frame.new_udp sid) h =
      if-LeavesAlone l.has_handler l _ h (accept-LeavesAlone l sid 0 default_address udp h)
  dispatch_frame-LeavesAlone now l (Frame.close sid reason) h =
      with_session-LeavesAlone l sid _ h λ i apart.
        let (kept, calls) = on_session-LeavesAlone i Session.on_peer_close l apart h in
        (erase_closed-IsOrphan _ sid _ kept, calls)
  dispatch_frame-LeavesAlone now l (Frame.reset sid) h =
      with_session-LeavesAlone l sid _ h λ i apart.
        let (kept, calls) = on_session-LeavesAlone i Session.on_reset l apart h in
        (erase_session-IsOrphan sid _ kept, calls)
  dispatch_frame-LeavesAlone now l (Frame.window sid delta) h =
      with_session-LeavesAlone l sid _ h λ i apart. on_session-LeavesAlone i _ l apart h
  dispatch_frame-LeavesAlone now l (Frame.ping nonce) h =
      (h, NotFrom-enqueue_frame j l (Frame.pong nonce))
  dispatch_frame-LeavesAlone now l (Frame.pong nonce) h = (on_pong-IsOrphan now l nonce h, tt)
  dispatch_frame-LeavesAlone now l _ h = (h, tt)
