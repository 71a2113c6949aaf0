-- ===== src/Up/Routing.antt =====
-- cli/up.go: what one round of the packet loop does with a packet from the TUN device.
pub mod Delivery
pub mod Loop
pub mod Arrival
use mynetwork.Common.{
  ℕ, ◌+◌, ◌-◌, ◌*◌, ◌%◌, Bool, true, false, List, [], ◌∷◌, ◌++◌, Bytes, bit_and, ◌==◌, get_or, take,
  drop, Option, none, some, Outcome, ok, err, panic, fatal, if◌then◌else◌, ◌>>=◌, IpNet, ip_equal,
  ip_net_contains, cidr_mask,
}
use mynetwork.Config.{PeerId, RouteTableEntry, Ranger, Config}
use mynetwork.Config.Ids.{service_prefix}
use mynetwork.Config.Lookup.{find_route_for_ip}
use mynetwork.Svc.{ServiceNetwork, Event}
use mynetwork.Svc.Network.{ensure_listener}

-- `packet[from:to]`; the packet is a buffer of 1420 bytes, so every slice of the loop is inside it.
abbrev pub slice : Bytes → ℕ → ℕ → Bytes
slice packet from to = take (to - from) (drop from packet)

-- `ServiceNetwork.NetworkRange`.
abbrev pub network_range : IpNet
network_range = record {
  ip = service_prefix ++ 0 ∷ 0 ∷ 0 ∷ 0 ∷ 0 ∷ 0 ∷ [];
  mask = cidr_mask 80 128;
}

-- What becomes of a packet: it is dropped, it goes into the service network after the listed calls,
-- or `sendPacket` is started for a peer.
pub data Action : Type 0 where
  dropped : Action
  refused : Action
  into_services : List Event → Action
  sent_to : PeerId → Action

-- A read of the TUN device: a packet, an error that is printed, or the end.
pub data TunRead : Type 0 where
  read_packet : Bytes → TunRead
  read_failed : TunRead
  interface_closed : TunRead

module _ {T : Type 0} (rg : Ranger T) (listen : Bytes → ℕ → Outcome (Unit {0})) where
  -- "Check route table for destination address."
  unfoldable pub forward : ServiceNetwork T → Bytes → Outcome (ServiceNetwork T × Action)
  unfolding find_route_for_ip
  forward sn dst_ip = do
    route ← find_route_for_ip rg sn.config dst_ip
    elim route [ none ↦ ok (sn, dropped) | some e ↦ ok (sn, sent_to e.target.id) ]

  -- The branch of an IPv6 packet for the range of the service network.
  unfoldable pub to_service : ServiceNetwork T → Bytes → Outcome (ServiceNetwork T × Action)
  unfolding ensure_listener
  to_service sn packet =
      if get_or packet 6 0 == 0x06
      then (do
        (sn', ready, events) ←
            ensure_listener listen sn (slice packet 24 40)
              ((get_or packet 42 0 * 256 + get_or packet 43 0) % 65536)
        ok (sn', if ready then into_services events else refused))
      else ok (sn, dropped)

  unfoldable pub packet_round : ServiceNetwork T → Bytes → Outcome (ServiceNetwork T × Action)
  unfolding forward to_service ip_equal ip_net_contains
  packet_round sn packet =
      let proto = bit_and (get_or packet 0 0) 0xf0 in
      if proto == 0x40
      then if ip_equal sn.config.builtin_addr4 (slice packet 16 20)
        then ok (sn, dropped)
        else forward sn (slice packet 16 20)
      else if proto == 0x60
      then if ip_equal sn.config.builtin_addr6 (slice packet 24 40)
        then ok (sn, dropped)
        else if ip_net_contains network_range (slice packet 24 40)
        then to_service sn packet
        else forward sn (slice packet 24 40)
      else ok (sn, dropped)

  -- The loop: what each read of the TUN device gave, until the device is closed.
  unfoldable pub packet_loop :
      ServiceNetwork T → List TunRead → Outcome (ServiceNetwork T × List Action)
  unfolding packet_round
  packet_loop sn [] = ok (sn, [])
  packet_loop sn (interface_closed ∷ reads) = ok (sn, [])
  packet_loop sn (read_failed ∷ reads) = packet_loop sn reads
  packet_loop sn (read_packet packet ∷ reads) = do
    (sn', action) ← packet_round sn packet
    (sn'', actions) ← packet_loop sn' reads
    ok (sn'', action ∷ actions)
