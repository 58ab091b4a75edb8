-- ===== src/Transport/Link/Dispatch/Open.antt =====
-- No frame that `Link::dispatchFrame` of src/transport/link.cpp handles closes the link.
use shine.Prelude.{
  ℕ, ◌≡◌, inl, inr, refl, ◌∙◌, List, [], Option, none, some, Bool, true, false, Bytes, Result, ok,
  err, get_elem?, if◌then◌else◌, Bool-cases, ◌==◌,
}
use shine.Proto.Frame.{
  ShineFrame, new, ack, close, reset, window, ping, pong, data_frame, new_udp, udp_data,
}
use shine.Transport.Address.{Address, parse_binary}
use shine.Transport.Session.{Session, SessionState, closed, Call}
use shine.Transport.Link.State.{
  Link, Output, find_session, on_found, on_session, erase_session, add_session,
}
use shine.Transport.Link.Dispatch.{
  with_session, accept, accept_parsed, deliver_udp, erase_closed, on_close, on_reset, on_pong,
  dispatch_frame,
}

-- The flag of a link is left alone.
abbrev pub Stays : Link → Link × List Output → Type 0
Stays l r = r.0.closed ≡ l.closed

on_found-Stays :
    (i : ℕ) (method : Session → Session × List Call) (l : Link) (o : Option Session)
    → Stays l (on_found i method l o)
unfolding on_found
on_found-Stays i method l none = refl
on_found-Stays i method l (some s) = refl

on_session-Stays :
    (i : ℕ) (method : Session → Session × List Call) (l : Link) → Stays l (on_session i method l)
unfolding on_session
on_session-Stays i method l = on_found-Stays i method l (get_elem? l.objects i)

with_session-Stays :
    (l : Link) (sid : ℕ) (act : ℕ → Link × List Output)
    → ((i : ℕ) → Stays l (act i))
    → Stays l (with_session l sid act)
unfolding with_session
with_session-Stays l sid act h = go (find_session l sid)
  where
    go : (o : Option ℕ) → Stays l (elim o [ none ↦ (l, []) | some i ↦ act i ])
    go none = refl
    go (some i) = h i

deliver_udp-Stays :
    (l : Link) (i : ℕ) (p : Bytes) (r : Result Address) → Stays l (deliver_udp l i p r)
unfolding deliver_udp
deliver_udp-Stays l i p (err status) = refl
deliver_udp-Stays l i p (ok addr) = on_session-Stays i _ l

erase_closed-Stays :
    (st : SessionState) (sid : ℕ) (l : Link) → (erase_closed st sid l).closed ≡ l.closed
unfolding erase_closed erase_session
erase_closed-Stays closed sid l = refl
erase_closed-Stays _ sid l = refl

accept_parsed-Stays :
    (l : Link) (sid win : ℕ) (r : Result Address) → Stays l (accept_parsed l sid win r)
unfolding accept_parsed accept add_session
accept_parsed-Stays l sid win (err status) = refl
accept_parsed-Stays l sid win (ok target) = refl

if-Stays :
    (b : Bool) (l : Link) (x y : Link × List Output)
    → Stays l x
    → Stays l y
    → Stays l (if b then x else y)
if-Stays true l x y h k = h
if-Stays false l x y h k = k

-- No frame closes the link.
pub dispatch_frame-Stays : (now : ℕ) (l : Link) (f : ShineFrame) → Stays l (dispatch_frame now l f)
unfolding dispatch_frame on_close on_reset erase_session accept add_session on_pong
dispatch_frame-Stays now l (data_frame sid payload) =
    with_session-Stays l sid _ (λ i. on_session-Stays i _ l)
dispatch_frame-Stays now l (udp_data sid addr_blob payload) =
    with_session-Stays l sid _ (λ i. deliver_udp-Stays l i payload (parse_binary addr_blob))
dispatch_frame-Stays now l (new sid addr_blob win) =
    if-Stays l.has_handler l _ _ (accept_parsed-Stays l sid win (parse_binary addr_blob)) refl
dispatch_frame-Stays now l (new_udp sid) = if-Stays l.has_handler l _ _ refl refl
dispatch_frame-Stays now l (ack sid) = refl
dispatch_frame-Stays now l (close sid reason) =
    with_session-Stays l sid _ λ i. erase_closed-Stays _ sid _ ∙ on_session-Stays i _ l
dispatch_frame-Stays now l (reset sid) = with_session-Stays l sid _ λ i. on_session-Stays i _ l
dispatch_frame-Stays now l (window sid delta) =
    with_session-Stays l sid _ (λ i. on_session-Stays i _ l)
dispatch_frame-Stays now l (ping nonce) = refl
dispatch_frame-Stays now l (pong nonce) = elim (Bool-cases (l.pending_ping_nonce == nonce)) [
  | inl e ↦ rw e refl
  | inr e ↦ rw e refl
]
dispatch_frame-Stays now l _ = refl
