-- ===== src/P2p/Service.antt =====
-- p2p/pex.go: `PeXService`, by the events of connections that it receives.
use mynetwork.Common.{
  ◌≡◌, refl, true, any, List, [], ◌∷◌, map, Bytes, codes, bytes_eq, Option, none, some, Outcome, ok,
  err, panic, fatal, if◌then◌else◌,
}
use mynetwork.Config.{PeerId, Peer}
use mynetwork.P2p.Pex.{PexHost, AddrInfo, pex_handler, request_pex}
use mynetwork.P2p.Pex.RoundTrip.{HostLaws, concat, known_addrs, request_pex-pex_handler}

pub data Connectedness : Type 0 where
  connected not_connected other_state : Connectedness

-- What the service does with an address info that it was told.
pub data Reaction : Type 0 where
  add_addrs : AddrInfo → Reaction
  connect : AddrInfo → Reaction

-- Whom an event makes the service ask: the peer that has come, or, when a peer has gone, all peers; for
-- other nodes and other states nobody.
unfoldable pub to_ask : List Peer → PeerId → Connectedness → Option (List PeerId)
unfolding bytes_eq
to_ask peers p state =
    let by_state : Option (List PeerId) = elim state [
      | connected ↦ some (p ∷ [])
      | not_connected ↦ some (map (λ (q : Peer). q.id) peers)
      | other_state ↦ none
    ] in
    if any (λ (q : Peer). bytes_eq q.id p) peers then by_state else none

unfoldable pub react : List AddrInfo → List Reaction
react [] = []
react (info ∷ infos) = add_addrs info ∷ connect info ∷ react infos

-- One event, with the streams that can be opened; an error of RequestPeX is passed over.
unfoldable pub pex_event :
    PexHost
    → (PeerId → Outcome (Bytes × Option Bytes))
    → List Peer
    → PeerId
    → Connectedness
    → Outcome (List Reaction)
unfolding to_ask request_pex react
pex_event h dial peers p state = elim (to_ask peers p state) [
  | none ↦ ok []
  | some ids ↦ elim (request_pex h dial ids) [
    | ok infos ↦ ok (react infos)
    | err m ↦ ok []
    | fatal ↦ fatal
    | panic ↦ panic
  ]
]

-- Each address info is added to the peer store, and then connected to.
pub data Learned : List AddrInfo → List Reaction → Type 0 where
  nothing_told : Learned [] []
  one_told :
      {infos : List AddrInfo} {reactions : List Reaction} (info : AddrInfo)
      → Learned infos reactions
      → Learned (info ∷ infos) (add_addrs info ∷ connect info ∷ reactions)

react-Learned : (infos : List AddrInfo) → Learned infos (react infos)
unfolding react
react-Learned [] = Learned.nothing_told
react-Learned (info ∷ infos) = Learned.one_told info (react-Learned infos)

-- When a peer of the configuration connects, and that peer has this node in its own configuration and
-- its handler answers over a stream that carries everything, then the service adds each address that the
-- peer's store has, of every peer of its configuration but this node, in order, and connects to each,
-- and does nothing else. The texts of IDs and addresses hold no bar and no line end, and are parsed
-- back.
pub pex_event-known_addrs :
    (h : PexHost) (laws : HostLaws h) (own theirs : List Peer) (self p : PeerId)
    → any (λ (q : Peer). bytes_eq q.id p) own ≡ true
    → any (λ (q : Peer). bytes_eq q.id self) theirs ≡ true
    → (reactions : List Reaction) × (pex_event h
          (λ q. ok (concat (pex_handler h theirs self (some (codes "r")) (λ l. true)).0, none))
          own
          p
          connected
        ≡ ok reactions)
      × Learned (known_addrs h theirs self) reactions
unfolding pex_event to_ask
pex_event-known_addrs h laws own theirs self p mine known = (
  react (known_addrs h theirs self),
  rw (pex_event, to_ask, mine, request_pex-pex_handler h laws theirs self p [] known) refl,
  react-Learned (known_addrs h theirs self),
)
