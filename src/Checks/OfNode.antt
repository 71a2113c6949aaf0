-- ===== src/Checks/OfNode.antt =====
-- Instances of the theorems about routing, the gater, the feed of relays and the PeX service.
use mynetwork.Common.{
  ℕ, Option, ◌≡◌, refl, true, false, none, some, List, [], ◌∷◌, Bytes, codes, bytes_eq, ok,
  ip_equal,
}
use mynetwork.Config.ListRanger.{list_ranger}
use mynetwork.Up.Routing.{sent_to, packet_round}
use mynetwork.P2p.Pex.{pex_handler}
use mynetwork.P2p.Pex.RoundTrip.{concat, known_addrs}
use mynetwork.P2p.Routing.{
  Search, parallel_find_peer, windows_find_peer, first_is, intercept_addr_dial,
  windows_intercept_addr_dial,
}
use mynetwork.P2p.Routing.Tunnel.{Recurses, intercept_addr_dial-packet_round}
use mynetwork.P2p.Relay.{allow_reserve}
use mynetwork.P2p.Node.{feed_round}
use mynetwork.P2p.Service.{connected, Reaction, Learned, pex_event, pex_event-known_addrs}
use mynetwork.Checks.OfConfig.{alice, bob, wide}
use mynetwork.Checks.OfSvc.{listening}
use mynetwork.Checks.OfUp.{packet4, routed}
use mynetwork.Checks.OfP2p.{one_host, one_host-HostLaws}

-- The kernel routes everything through the link 3, which is the interface.
abbrev all_through : Bytes → Option (List ℕ)
all_through ip = some (3 ∷ [])

intercept_addr_dial-packet_round_example :
    Recurses list_ranger routed all_through 3 wide.target.id (10 ∷ 1 ∷ 2 ∷ 3 ∷ [])
    × (packet_round list_ranger listening routed (packet4 (10 ∷ 1 ∷ 2 ∷ 3 ∷ []))
        ≡ ok (routed, sent_to wide.target.id))
    × (windows_intercept_addr_dial list_ranger routed.config wide.target.id
          (some (10 ∷ 1 ∷ 2 ∷ 3 ∷ []))
        ≡ ok false)
unfolding intercept_addr_dial first_is bytes_eq list_ranger ip_equal
intercept_addr_dial-packet_round_example =
    intercept_addr_dial-packet_round list_ranger routed listening all_through 3 wide.target.id
      (packet4 (10 ∷ 1 ∷ 2 ∷ 3 ∷ [])) refl refl refl

-- The second routing needs longer than half a second more than the first, and stops when it is told to.
abbrev searches : List Search
searches =
    record { ends = 100; answer = λ cancelled. some (codes "a" ∷ []) }
    ∷ record { ends = 700; answer = elim [ true ↦ none | false ↦ some (codes "b" ∷ []) ] }
    ∷ []

cancelled_test :
    parallel_find_peer (codes "QmB") searches
    ≡ ok (record { id = codes "QmB"; addrs = codes "a" ∷ [] })
unfolding parallel_find_peer
cancelled_test = refl

windows_not_cancelled :
    windows_find_peer (codes "QmB") searches
    ≡ ok (record { id = codes "QmB"; addrs = codes "a" ∷ codes "b" ∷ [] })
unfolding windows_find_peer
windows_not_cancelled = refl

fed_test :
    feed_round
      ((4 ∷ 290 ∷ []) ∷ (6 ∷ 290 ∷ []) ∷ [])
      (bob ∷ [])
      true
      (codes "QmX" ∷ codes "QmB" ∷ [])
    ≡ ok (codes "QmB" ∷ [])
unfolding feed_round allow_reserve bytes_eq
fed_test = refl

pex_event-known_addrs_example :
    (reactions : List Reaction) × (pex_event one_host
        (λ q. ok (
          concat
              (pex_handler one_host
                (bob ∷ alice ∷ [])
                (codes "QmA")
                (some (codes "r"))
                (λ l. true)).0,
          none,
        ))
        (bob ∷ [])
        (codes "QmB")
        connected
      ≡ ok reactions)
    × Learned (known_addrs one_host (bob ∷ alice ∷ []) (codes "QmA")) reactions
unfolding bytes_eq
pex_event-known_addrs_example =
    pex_event-known_addrs one_host one_host-HostLaws (bob ∷ []) (bob ∷ alice ∷ []) (codes "QmA")
      (codes "QmB") refl refl
