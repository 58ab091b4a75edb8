-- ===== src/Outbound/Shine.antt =====
-- `ShineOutbound` of src/outbound/shine_outbound.cpp: the pool of links to a server. Links are
-- numbered; `closed` has those that are closed.
pub mod Pool
use shine.Prelude.{
  ℕ, suc, ◌+◌, ◌%◌, ◌^◌, ◌<◌, List, [], ◌∷◌, ◌++◌, Option, none, some, ◌||◌, Bool, true, false,
  Bytes, codes, Result, ok, err, unavailable, invalid_argument, ◌>>◌, length, get_elem?, ltb, ◌==◌,
  if◌then◌else◌,
}

pub record Outbound : Type 0 where
  pub pool : List ℕ
  pub rr : ℕ
  pub stopping : Bool
  pub closed : List ℕ

abbrev pub fresh : Outbound
fresh = record { pool = []; rr = 0; stopping = false; closed = [] }

-- `isClosed`.
unfoldable pub is_closed : List ℕ → ℕ → Bool
is_closed [] l = false
is_closed (c ∷ closed) l = c == l || is_closed closed l

-- The links that `remove_if` leaves.
unfoldable pub live : List ℕ → List ℕ → List ℕ
live closed [] = []
live closed (l ∷ links) =
    let rest = live closed links in if is_closed closed l then rest else l ∷ rest

-- `pickOrMakeLink` up to the dial: a link of the pool, or none, and a link is dialled.
unfoldable pub pick_of : List ℕ → Outbound → Option ℕ × Outbound
pick_of [] o = (none, record o { pool = [] })
pick_of (l ∷ links) o = (
  get_elem? (l ∷ links) (o.rr % length (l ∷ links)),
  record o { pool = l ∷ links; rr = (o.rr + 1) % 2 ^ 64 },
)

unfoldable pub pick_begin : Outbound → Option ℕ × Outbound
pick_begin o = pick_of (live o.closed o.pool) o

-- The rest of it, on what the dial answers: the link, kept in the pool where there is room.
unfoldable pub pick_resume : ℕ → Option ℕ → Outbound → Option ℕ × Outbound
pick_resume pool_size none o = (none, o)
pick_resume pool_size (some l) o =
    (some l, if ltb (length o.pool) pool_size then record o { pool = o.pool ++ (l ∷ []) } else o)

-- `stop`: `closeNow` on each link.
unfoldable pub stop : Outbound → Outbound
stop o = record o { stopping = true; closed = o.pool ++ o.closed; pool = [] }

abbrev pub unless_failed : Bool → Result (Unit {0})
unless_failed ok_handshake =
    if ok_handshake then ok tt else err (unavailable (codes "shine link handshake failed"))

abbrev pub has_datagrams : Bool → Bool → Result (Unit {0})
has_datagrams is_udp client_datagrams =
    if is_udp
    then (if client_datagrams then ok tt else err (invalid_argument (codes "no client udp stream")))
    else ok tt

-- The test at the start of `handle`.
unfoldable pub handle_check : Outbound → Result (Unit {0})
handle_check o = if o.stopping then err (unavailable (codes "stopped")) else ok tt

-- `handle` from the link on: what `waitHandshake` and `openSession` answer for a link, and whether
-- the request is for UDP and has a datagram stream. The relay itself is src/transport/pipe.cpp's.
unfoldable pub handle_linked :
    (ℕ → Bool) → (ℕ → Result (Unit {0})) → Bool → Bool → Option ℕ → Result (Unit {0})
handle_linked handshake open_session is_udp client_datagrams none =
    err (unavailable (codes "no live link"))
handle_linked handshake open_session is_udp client_datagrams (some l) =
    unless_failed (handshake l)
    >> (open_session l >> (has_datagrams is_udp client_datagrams >> ok tt))

-- What can happen to an outbound: a request begins to pick a link, a dial answers, a link is closed,
-- and `stop`.
pub data Step (pool_size : ℕ) (o : Outbound) : Outbound → Type 0 where
  picks : Step pool_size o (pick_begin o).1
  dialled : (answer : Option ℕ) → Step pool_size o (pick_resume pool_size answer o).1
  link_closes : (l : ℕ) → Step pool_size o (record o { closed = l ∷ o.closed })
  stops : Step pool_size o (stop o)

pub data Reach (pool_size : ℕ) (o : Outbound) : Outbound → Type 0 where
  here : Reach pool_size o o
  next :
      {mid last : Outbound}
      → Reach pool_size o mid
      → Step pool_size mid last
      → Reach pool_size o last

-- One request after another: a pick, with its dial where no link is picked, and links that close in
-- between.
unfoldable pub unless_picked : ℕ → Option ℕ → Option ℕ × Outbound → Option ℕ × Outbound
unless_picked pool_size answer (none, o) = pick_resume pool_size answer o
unless_picked pool_size answer (some l, o) = (some l, o)

unfoldable pub pick_or_make : ℕ → Option ℕ → Outbound → Option ℕ × Outbound
pick_or_make pool_size answer o = unless_picked pool_size answer (pick_begin o)

pub data Turn (pool_size : ℕ) (o : Outbound) : Outbound → Type 0 where
  requests : (answer : Option ℕ) → Turn pool_size o (pick_or_make pool_size answer o).1
  closes : (l : ℕ) → Turn pool_size o (record o { closed = l ∷ o.closed })

pub data Turns (pool_size : ℕ) : Outbound → Type 0 where
  none_yet : Turns pool_size fresh
  then_turn :
      {mid last : Outbound} → Turns pool_size mid → Turn pool_size mid last → Turns pool_size last
