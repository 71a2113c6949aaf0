-- ===== src/P2p/Node/Feeding.antt =====
-- Which peers are offered as relays, and what the node is started from.
use mynetwork.Common.{
  ℕ, ltb, ◌≡◌, refl, ◌∙◌, inl, inr, Bool, true, false, List, [], ◌∷◌, ok, Bool-cases, if◌then◌else◌,
}
use mynetwork.Config.{PeerId, Peer}
use mynetwork.P2p.Relay.{allow_reserve}
use mynetwork.P2p.Node.{relay_count, feed_round}

-- The peers that a test lets through.
unfoldable pub kept : (PeerId → Bool) → List PeerId → List PeerId
kept test [] = []
kept test (p ∷ peers) = if test p then p ∷ kept test peers else kept test peers

feed_round_all :
    (listen : List (List ℕ)) (vpn : List Peer) (has_addr : Bool) (peers : List PeerId)
    → ltb (relay_count listen) 2 ≡ true
    → feed_round listen vpn has_addr peers ≡ ok peers
unfolding feed_round
feed_round_all listen vpn has_addr [] few = refl
feed_round_all listen vpn has_addr (p ∷ peers) few =
    rw (feed_round, few, feed_round_all listen vpn has_addr peers few) refl

feed_round_vpn :
    (listen : List (List ℕ)) (vpn : List Peer) (peers : List PeerId)
    → ltb (relay_count listen) 2 ≡ false
    → feed_round listen vpn true peers ≡ ok (kept (allow_reserve vpn) peers)
unfolding feed_round kept
feed_round_vpn listen vpn [] many = refl
feed_round_vpn listen vpn (p ∷ peers) many =
    rw (feed_round, many, feed_round_vpn listen vpn peers many) refl

-- A round of the feed of a node that has an address offers every connected peer to the relay service
-- while fewer than two of its listen addresses go over a relay, and from then on exactly the peers of
-- the configuration, those whom its own relay would serve; each in the order of the connections.
pub feed_round-kept :
    (listen : List (List ℕ)) (vpn : List Peer) (peers : List PeerId)
    → feed_round listen vpn true peers
      ≡ ok (if ltb (relay_count listen) 2 then peers else kept (allow_reserve vpn) peers)
feed_round-kept listen vpn peers = elim (Bool-cases (ltb (relay_count listen) 2)) [
  | inl few ↦ feed_round_all listen vpn true peers few ∙ rw few refl
  | inr many ↦ feed_round_vpn listen vpn peers many ∙ rw many refl
]
