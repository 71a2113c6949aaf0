-- ===== src/P2p/Node.antt =====
-- p2p/node.go: the addresses that CreateNode starts from, and the peers that it offers as relays. The
-- HTTP requests, the decoder of JSON and the parsers of addresses are parameters.
pub mod Feeding
use mynetwork.Common.{
  ℕ, suc, ltb, Bool, true, false, ◌==◌, any, List, [], ◌∷◌, ◌++◌, Bytes, codes, Option, none, some,
  Outcome, ok, err, panic, fatal, ◌>>=◌, is_ok, if◌then◌else◌,
}
use mynetwork.Config.{PeerId, Peer}
use mynetwork.P2p.Pex.{AddrInfo}
use mynetwork.P2p.Relay.{allow_reserve}

-- An entry of the answer about the peers of a swarm: its fields, where they are strings.
pub record SwarmPeer : Type 0 where
  pub addr : Option Bytes
  pub peer : Option Bytes

-- Multiaddresses are known by their texts. A request gives the body of the answer, if there is one.
pub record Net : Type 0 where
  pub new_multiaddr : Bytes → Outcome Bytes
  pub addr_info_from_p2p_addr : Bytes → Outcome AddrInfo
  pub ip4_of : Bytes → Option Bytes
  pub tcp_of : Bytes → Option Bytes
  pub post_form : Bytes → Option Bytes
  pub swarm_peers : Bytes → List SwarmPeer
  pub bootstrap_list : Bytes → List Bytes

module _ (net : Net) where
  unfoldable pub parse_peer_addrs : List Bytes → Outcome (List AddrInfo)
  parse_peer_addrs [] = ok []
  parse_peer_addrs (str ∷ peers) = do
    addr ← net.new_multiaddr str
    info ← net.addr_info_from_p2p_addr addr
    rest ← parse_peer_addrs peers
    ok (info ∷ rest)

  -- A request to the API at an address, for a path.
  unfoldable pub ask_api : Bytes → Bytes → Option Bytes
  ask_api addr path = elim (net.ip4_of addr) [
    | none ↦ none
    | some ip4 ↦ elim (net.tcp_of addr) [
      | none ↦ none
      | some port ↦ net.post_form (codes "http://" ++ ip4 ++ codes ":" ++ port ++ path)
    ]
  ]

  -- The fields are asserted to be strings, which is a panic when they are not.
  unfoldable pub swarm_addrs : List SwarmPeer → Outcome (List Bytes)
  swarm_addrs [] = ok []
  swarm_addrs (p ∷ peers) = elim p.addr [
    | none ↦ panic
    | some addr ↦ elim p.peer [
      | none ↦ panic
      | some peer ↦ do rest ← swarm_addrs peers; ok ((addr ++ codes "/p2p/" ++ peer) ∷ rest)
    ]
  ]

  unfoldable pub get_extra_peers : Bytes → Outcome (List Bytes)
  unfolding ask_api swarm_addrs
  get_extra_peers addr = elim (ask_api addr (codes "/api/v0/swarm/peers")) [
    | none ↦ ok []
    | some answer ↦ swarm_addrs (net.swarm_peers answer)
  ]

  unfoldable pub get_extra_bootstrap_nodes : Bytes → List Bytes
  unfolding ask_api
  get_extra_bootstrap_nodes addr = elim (ask_api addr (codes "/api/v0/bootstrap")) [
    | none ↦ []
    | some answer ↦ net.bootstrap_list answer
  ]

  -- The extra peers of the start, by MYNETWORK_IPFS_API; errors are passed over.
  unfoldable pub extra_peers : Option Bytes → Outcome (List AddrInfo)
  unfolding get_extra_peers parse_peer_addrs
  extra_peers none = ok []
  extra_peers (some api) = elim (net.new_multiaddr api) [
    | ok addr ↦ elim (get_extra_peers addr) [
      | ok nodes ↦ elim (parse_peer_addrs nodes) [
        | ok infos ↦ ok infos
        | err m ↦ ok []
        | fatal ↦ fatal
        | panic ↦ panic
      ]
      | err m ↦ err m
      | fatal ↦ fatal
      | panic ↦ panic
    ]
    | err m ↦ ok []
    | fatal ↦ fatal
    | panic ↦ panic
  ]

  -- `BootstrapPeersFunc`: the nodes of the API, if there is one.
  unfoldable pub extra_bootstrap_nodes : Option Bytes → List Bytes
  unfolding get_extra_bootstrap_nodes
  extra_bootstrap_nodes none = []
  extra_bootstrap_nodes (some api) = elim (net.new_multiaddr api) [
    | ok addr ↦ get_extra_bootstrap_nodes addr
    | _ ↦ []
  ]

  unfoldable pub bootstrap_peers : List AddrInfo → Option Bytes → Outcome (List AddrInfo)
  unfolding extra_bootstrap_nodes parse_peer_addrs
  bootstrap_peers static api = elim (parse_peer_addrs (extra_bootstrap_nodes api)) [
    | ok dynamic ↦ ok (static ++ dynamic)
    | err m ↦ ok static
    | fatal ↦ fatal
    | panic ↦ panic
  ]

-- `multiaddr.P_CIRCUIT`.
abbrev pub p_circuit : ℕ
p_circuit = 290

-- The listen addresses that go over a relay; an address is the codes of its protocols.
unfoldable pub relay_count : List (List ℕ) → ℕ
relay_count [] = 0
relay_count (la ∷ rest) =
    let n = relay_count rest in if any (λ c. c == p_circuit) la then suc n else n

-- One round of the feed: the peers that are offered to the relay service. The first address of the
-- node is taken only for the filter, and a node without an address panics there.
unfoldable pub feed_round : List (List ℕ) → List Peer → Bool → List PeerId → Outcome (List PeerId)
unfolding relay_count allow_reserve
feed_round listen vpn has_addr [] = ok []
feed_round listen vpn has_addr (p ∷ peers) =
    if ltb (relay_count listen) 2
    then (do rest ← feed_round listen vpn has_addr peers; ok (p ∷ rest))
    else if has_addr
    then (do
      rest ← feed_round listen vpn has_addr peers
      ok (if allow_reserve vpn p then p ∷ rest else rest))
    else panic
