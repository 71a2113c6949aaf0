-- ===== src/Up/Routing/Arrival.antt =====
-- The packet loop together with the configuration and the service network.
use mynetwork.Common.{
  ℕ, ◌+◌, ◌*◌, ◌%◌, ◌≡◌, ◌≢◌, refl, ap, ◌∙◌, true, false, List, [], ◌∷◌, ◌++◌, Bytes, bit_and,
  get_or, Outcome, ok, panic, ip_equal, ip_net_contains, arith, All,
}
use mynetwork.Config.{PeerId, RouteTableEntry, Ranger}
use mynetwork.Config.Ids.{mk_builtin_addr4, mk_builtin_addr6, mk_net_id, mk_service_addr6}
use mynetwork.Config.Lookup.{find_route_for_ip}
use mynetwork.Config.Update.{add_peer, mk_peer, route4}
use mynetwork.Config.Routes.{RangerLaws, find_route_for_ip-add_peer, find_route_for_ip-overlap}
use mynetwork.Svc.{ServiceNetwork, Event, Proxy, serve}
use mynetwork.Svc.Network.{register, port_active, ensure_listener}
use mynetwork.Svc.Network.Invariant.{IsCoherent}
use mynetwork.Svc.Network.Reach.{ensure_listener-register}
use mynetwork.Up.Routing.{
  slice, network_range, sent_to, into_services, forward, to_service, packet_round,
}
use mynetwork.Up.Routing.Delivery.{IsFor, packet_round-sent_to_iff, network_range-mk_service_addr6}

module _ {T : Type 0} (rg : Ranger T) (laws : RangerLaws rg)
    (listen : Bytes → ℕ → Outcome (Unit {0})) (u : Bytes → Bytes) (sn : ServiceNetwork T) where
  -- After `AddPeer`, an IPv4 packet to the built-in address of the new peer is sent to that peer, over a
  -- route table that obeys its laws, if no network held the peer's two addresses before and the address
  -- is not the node's own.
  pub packet_round-add_peer :
      (name : Bytes) (id : PeerId) (packet : Bytes)
      → rg.containing_networks sn.config.peer_lookup.by_route (mk_builtin_addr4 id) ≡ ok []
      → rg.containing_networks sn.config.peer_lookup.by_route (mk_builtin_addr6 id) ≡ ok []
      → bit_and (get_or packet 0 0) 0xf0 ≡ 0x40
      → slice packet 16 20 ≡ mk_builtin_addr4 id
      → ip_equal sn.config.builtin_addr4 (mk_builtin_addr4 id) ≡ false
      → let sn' = record sn { config = add_peer rg u sn.config name id } in
        packet_round rg listen sn' packet ≡ ok (sn', sent_to id)
  unfolding add_peer
  packet_round-add_peer name id packet h4 h6 is4 dst other =
      let sn' = record sn { config = add_peer rg u sn.config name id } in
      let found = (find_route_for_ip-add_peer rg laws u sn.config name id h4 h6).0 in
      (packet_round-sent_to_iff rg listen sn' packet id).1 (
        IsFor.v4 is4 (ap (ip_equal sn.config.builtin_addr4) dst ∙ other) (record {
          entry = route4 (mk_peer name id);
          route = ap (find_route_for_ip rg sn'.config) dst ∙ found;
          target = refl;
        }))

  -- An IPv4 packet to an address that two networks of the route table hold, one of which was inserted
  -- beside the other, ends the daemon by a panic, unless it is the node's own address. The table obeys
  -- its laws.
  pub packet_round-overlap :
      (e : RouteTableEntry) (packet : Bytes) (f : RouteTableEntry) (fs : List RouteTableEntry)
      → rg.containing_networks sn.config.peer_lookup.by_route (slice packet 16 20) ≡ ok (f ∷ fs)
      → All (λ g. g.net ≢ e.net) (f ∷ fs)
      → ip_net_contains e.net (slice packet 16 20) ≡ true
      → bit_and (get_or packet 0 0) 0xf0 ≡ 0x40
      → ip_equal sn.config.builtin_addr4 (slice packet 16 20) ≡ false
      → let l = record (sn.config.peer_lookup) {
        by_route = rg.insert_entry sn.config.peer_lookup.by_route e;
      } in
        let cfg = record (sn.config) { peer_lookup = l } in
        packet_round rg listen (record sn { config = cfg }) packet ≡ panic
  unfolding packet_round forward
  packet_round-overlap e packet f fs held fresh covers is4 other = ground (
    arith,
    is4,
    other,
    find_route_for_ip-overlap rg laws u sn.config e (slice packet 16 20) f fs held fresh covers,
  )

  packet_round-to_service :
      (sn0 : ServiceNetwork T) (packet : Bytes)
      → bit_and (get_or packet 0 0) 0xf0 ≡ 0x60
      → ip_equal sn0.config.builtin_addr6 (slice packet 24 40) ≡ false
      → ip_net_contains network_range (slice packet 24 40) ≡ true
      → packet_round rg listen sn0 packet ≡ to_service rg listen sn0 packet
  unfolding packet_round
  packet_round-to_service sn0 packet is6 other inside = rw (is6, other, inside)

  to_service-ready :
      (sn0 : ServiceNetwork T) (packet : Bytes) {sn' : ServiceNetwork T} {events : List Event}
      → get_or packet 6 0 ≡ 6
      → ensure_listener listen sn0
          (slice packet 24 40)
          ((get_or packet 42 0 * 256 + get_or packet 43 0) % 65536)
        ≡ ok (sn', true, events)
      → to_service rg listen sn0 packet ≡ ok (sn', into_services events)
  unfolding to_service
  to_service-ready sn0 packet tcp e = rw (tcp, e)

  -- An IPv6 packet with the protocol number of TCP to the service address of this node and of a service
  -- that has just been registered goes into the service network, with a listener for it that has the
  -- registered proxy. This is for an idle port that the network stack listens on, for sets that agree, and
  -- if the address is not the node's built-in one.
  pub packet_round-register :
      (p : PeerId) (name : Bytes) (proxy : Proxy) (packet : Bytes)
      → let port = (get_or packet 42 0 * 256 + get_or packet 43 0) % 65536 in
        let addr = mk_service_addr6 p name in
        IsCoherent sn
        → sn.self ≡ mk_net_id p
        → port_active sn addr port ≡ false
        → listen addr port ≡ ok tt
        → bit_and (get_or packet 0 0) 0xf0 ≡ 0x60
        → slice packet 24 40 ≡ addr
        → ip_equal sn.config.builtin_addr6 addr ≡ false
        → get_or packet 6 0 ≡ 6
        → (sn' : ServiceNetwork T) × (events : List Event) × (packet_round rg listen
              (register sn name proxy)
              packet
            ≡ ok (sn', into_services (events ++ serve addr port proxy ∷ [])))
  unfolding register
  packet_round-register p name proxy packet h own idle listened is6 dst other tcp =
      let (sn', events, e) =
        ensure_listener-register listen sn p name proxy
          ((get_or packet 42 0 * 256 + get_or packet 43 0) % 65536) h own idle listened in
      (
        sn',
        events,
        packet_round-to_service (register sn name proxy) packet is6
              (ap (ip_equal sn.config.builtin_addr6) dst ∙ other)
              (ap (ip_net_contains network_range) dst ∙ network_range-mk_service_addr6 p name)
            ∙ to_service-ready (register sn name proxy) packet tcp (
                ap
                  (λ a.
                    ensure_listener listen (register sn name proxy) a
                      ((get_or packet 42 0 * 256 + get_or packet 43 0) % 65536))
                  dst
                ∙ e),
      )
