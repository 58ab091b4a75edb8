-- ===== src/Inbound/Shine/Injected.antt =====
-- The datagrams of a UDP session of src/inbound/shine_inbound.cpp.
use shine.Prelude.{
  ℕ, zero, suc, ◌≡◌, refl, ap, List, [], ◌∷◌, Option, none, some, Result, ok, err, length, ◌<◌, ◌+◌,
  arith,
}
use shine.Transport.Address.{Address}
use shine.Transport.Session.{udp}
use shine.Inbound.Shine.{
  Datagram, InjectedStream, receive_inner, behind_none, receive_of, receive_from, SessionRequest,
  on_first, on_session,
}

-- What an outbound reads of a stream until an answer is an error or there is none yet.
abbrev or_stop :
    Option (Result Datagram × InjectedStream) → (InjectedStream → List Datagram) → List Datagram
or_stop none k = []
or_stop (some (err status, s)) k = []
or_stop (some (ok d, s)) k = d ∷ k s

unfoldable pub read_all : ℕ → InjectedStream → List Datagram
read_all zero s = []
read_all (suc n) s = or_stop (receive_from s) (read_all n)

-- The datagrams in front of the first error.
abbrev pub front : List (Result Datagram) → List Datagram
front [] = []
front (err status ∷ rs) = []
front (ok d ∷ rs) = d ∷ front rs

read_behind :
    (n : ℕ) (inner : List (Result Datagram))
    → length inner < n
    → read_all n (record { p = none; inner = inner }) ≡ front inner
unfolding read_all receive_from receive_of behind_none receive_inner
read_behind zero inner h = absurd (omega arith)
read_behind (suc n) [] h = refl
read_behind (suc n) (err status ∷ inner) h = refl
read_behind (suc n) (ok d ∷ inner) h = ap (λ t. d ∷ t) (read_behind n inner (omega arith))

-- The request that is made of a UDP session has the target of the first datagram, and its stream
-- gives every datagram of the session up to an error, the first one included, once and in order.
pub on_session_udp :
    (t : Address) (d : Datagram) (inner : List (Result Datagram)) (n : ℕ)
    → length inner + 1 < n
    → (r : SessionRequest) × (s : InjectedStream) × (on_session udp t (ok d ∷ inner) ≡ some r)
      × (r.target ≡ d.1)
      × (r.datagrams ≡ some s)
      × (read_all n s ≡ front (ok d ∷ inner))
unfolding on_session on_first receive_inner read_all receive_from receive_of
on_session_udp t d inner zero h = absurd (omega arith)
on_session_udp t d inner (suc n) h =
    (_, _, refl, refl, refl, ap (λ x. d ∷ x) (read_behind n inner (omega arith)))
