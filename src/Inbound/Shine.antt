-- ===== src/Inbound/Shine.antt =====
-- `ShineInbound` of src/inbound/shine_inbound.cpp: the links that it accepts, and the request that it
-- makes of a new session.
pub mod Links
pub mod Injected
use shine.Prelude.{
  ℕ, List, [], ◌∷◌, ◌++◌, Option, none, some, Bool, true, false, Bytes, Result, ok, err,
}
use shine.Transport.Address.{Address}
use shine.Transport.Session.{Protocol, tcp, udp}
use shine.Outbound.Shine.{is_closed, live}

-- Links are numbered; `closed` has those that are closed.
pub record Inbound : Type 0 where
  pub links : List ℕ
  pub stopping : Bool
  pub closed : List ℕ

abbrev pub fresh : Inbound
fresh = record { links = []; stopping = false; closed = [] }

-- The end of a round of `acceptLoop`, on the link that was made.
unfoldable pub accepted : ℕ → Inbound → Inbound
accepted l i = record i { links = live i.closed i.links ++ (l ∷ []) }

-- `closeNow` on each link, which has an effect on those that are open.
unfoldable pub stop : Inbound → Inbound
stop i = record i { stopping = true; closed = i.links ++ i.closed; links = [] }

-- What can happen: a link is accepted, a link closes, and `stop`. The list has the links
-- that were accepted, the last one first.
pub data Ran : List ℕ → Inbound → Type 0 where
  begins : Ran [] fresh
  accepts : {all : List ℕ} {i : Inbound} (l : ℕ) → Ran all i → Ran (l ∷ all) (accepted l i)
  link_closes :
      {all : List ℕ} {i : Inbound} (l : ℕ)
      → Ran all i
      → Ran all (record i { closed = l ∷ i.closed })
  stops : {all : List ℕ} {i : Inbound} → Ran all i → Ran all (stop i)

-- A datagram, and what is still to come of a stream of them: an error ends it.
abbrev pub Datagram : Type 0
Datagram = Bytes × Address

-- `InjectedStream`: a datagram that was read already, and the stream behind it.
pub record InjectedStream : Type 0 where
  pub p : Option Datagram
  pub inner : List (Result Datagram)

-- `receiveFrom` on the stream of the session: what it answers, or none where it waits.
unfoldable pub receive_inner :
    List (Result Datagram) → Option (Result Datagram × List (Result Datagram))
receive_inner [] = none
receive_inner (r ∷ rest) = some (r, rest)

unfoldable pub behind_none :
    Option (Result Datagram × List (Result Datagram)) → Option (Result Datagram × InjectedStream)
behind_none none = none
behind_none (some (r, rest)) = some (r, record { p = none; inner = rest })

-- `InjectedStream::receiveFrom`.
unfoldable pub receive_of :
    Option Datagram → List (Result Datagram) → Option (Result Datagram × InjectedStream)
receive_of (some d) inner = some (ok d, record { p = none; inner = inner })
receive_of none inner = behind_none (receive_inner inner)

unfoldable pub receive_from : InjectedStream → Option (Result Datagram × InjectedStream)
receive_from s = receive_of s.p s.inner

-- The request for the router: its target, and the stream for UDP.
pub record SessionRequest : Type 0 where
  pub protocol : Protocol
  pub target : Address
  pub datagrams : Option InjectedStream

-- The handler of a UDP session, on what the first `receiveFrom` answers.
unfoldable pub on_first : Option (Result Datagram × List (Result Datagram)) → Option SessionRequest
on_first none = none
on_first (some (err status, rest)) = none
on_first (some (ok d, rest)) = some (record {
  protocol = udp;
  target = d.1;
  datagrams = some (record { p = some d; inner = rest });
})

-- The handler that `acceptLoop` gives to a link; `none` where no request is made.
unfoldable pub on_session : Protocol → Address → List (Result Datagram) → Option SessionRequest
on_session tcp t inner = some (record { protocol = tcp; target = t; datagrams = none })
on_session udp t inner = on_first (receive_inner inner)
