-- ===== src/Checks/OfUp.antt =====
-- Instances of the theorems about the packet loop, the frames and the streams of cli/up.go.
use mynetwork.Common.{
  bytes_eq, ◌≡◌, ◌≢◌, ◌↔◌, refl, ap, arith, ◌++◌, [], ◌∷◌, ℕ, suc, ◌+◌, ◌*◌, ◌%◌, true, false, List,
  Bytes, codes, ok, panic, none, some, get, get_or, bytes_eq_iff, Option, replicate, take, IpNet,
  length,
}
use mynetwork.Config.{RouteTableEntry}
use mynetwork.Config.Ids.{mk_builtin_addr4, mk_service_addr6}
use mynetwork.Config.Update.{add_peer}
use mynetwork.Config.ListRanger.{list_ranger, list_ranger-RangerLaws}
use mynetwork.Svc.{ServiceNetwork, Event, serve}
use mynetwork.Svc.Network.{register}
use mynetwork.Svc.Network.Invariant.{IsCoherent}
use mynetwork.Up.Routing.Loop.{packet_loop-IsCoherent}
use mynetwork.Up.Routing.{
  packet_loop, read_packet, read_failed, interface_closed, sent_to, into_services, packet_round,
}
use mynetwork.Up.Routing.Delivery.{IsFor, packet_round-sent_to_iff}
use mynetwork.Up.Routing.Arrival.{
  packet_round-add_peer, packet_round-overlap, packet_round-register,
}
use mynetwork.Up.Frames.{closed, stream_handler}
use mynetwork.Config.Lookup.{find_peer}
use mynetwork.Up.Frames.Termination.{HasEnded, stream_handler-HasEnded}
use mynetwork.Up.Send.{Streams, Answers, send_packet}
use mynetwork.Up.Send.Live.{IsLive, IsFresh, send_packet-IsLive}
use mynetwork.Checks.OfConfig.{keep, alice, wide, narrow, with_wide}
use mynetwork.Checks.OfSvc.{network, web, listening, network-IsCoherent}

-- An IPv4 packet with nothing but its version and its destination.
abbrev pub packet4 : Bytes → Bytes
packet4 dst = 0x45 ∷ replicate 15 0 ++ dst

abbrev to_new : Bytes
to_new = packet4 (mk_builtin_addr4 (codes "QmD"))

packet_round-add_peer_example :
    let sn' = record network {
      config = add_peer list_ranger keep network.config (codes "dora") (codes "QmD");
    } in
    packet_round list_ranger listening sn' to_new ≡ ok (sn', sent_to (codes "QmD"))
unfolding list_ranger mk_builtin_addr4 mynetwork.Common.ip_equal
packet_round-add_peer_example =
    packet_round-add_peer list_ranger list_ranger-RangerLaws listening keep network (codes "dora")
      (codes "QmD") to_new refl refl refl refl refl

-- The node has a route for 10.0.0.0/8.
abbrev pub routed : ServiceNetwork (List RouteTableEntry)
routed = record network { config = with_wide }

packet_round-sent_to_iff_example :
    (packet_round list_ranger listening routed (packet4 (10 ∷ 1 ∷ 2 ∷ 3 ∷ []))
      ≡ ok (routed, sent_to wide.target.id))
    ↔ IsFor list_ranger routed (packet4 (10 ∷ 1 ∷ 2 ∷ 3 ∷ [])) wide.target.id
packet_round-sent_to_iff_example =
    packet_round-sent_to_iff list_ranger listening routed (packet4 (10 ∷ 1 ∷ 2 ∷ 3 ∷ []))
      wide.target.id

sent_test :
    packet_round list_ranger listening routed (packet4 (10 ∷ 1 ∷ 2 ∷ 3 ∷ []))
    ≡ ok (routed, sent_to wide.target.id)
unfolding packet_round list_ranger
sent_test = refl

packet_round-overlap_example :
    let l = record (with_wide.peer_lookup) {
      by_route = list_ranger.insert_entry (wide ∷ []) narrow;
    } in
    packet_round list_ranger listening
      (record routed { config = record with_wide { peer_lookup = l } })
      (packet4 (10 ∷ 1 ∷ 2 ∷ 3 ∷ []))
    ≡ panic
unfolding list_ranger mynetwork.Common.ip_equal
packet_round-overlap_example =
    packet_round-overlap list_ranger list_ranger-RangerLaws listening keep routed narrow
      (packet4 (10 ∷ 1 ∷ 2 ∷ 3 ∷ [])) wide [] refl ((λ e. nets_differ e), tt) refl refl refl
  where
    nets_differ : wide.net ≡ narrow.net → ⊥
    nets_differ e = omega (arith, ap (λ (n : IpNet). get_or n.ip 1 0) e)

-- An IPv6 TCP packet for port 80 of the service web of this node.
abbrev to_web : Bytes
to_web =
    0x60 ∷ replicate 5 0
    ++ 0x06 ∷ replicate 17 0
    ++ mk_service_addr6 (codes "QmA") (codes "web")
    ++ 0 ∷ 0 ∷ 0 ∷ 80 ∷ []

packet_round-register_example :
    (sn' : ServiceNetwork (List RouteTableEntry)) × (events : List Event) × (packet_round
        list_ranger listening
        (register network (codes "web") web)
        to_web
      ≡ ok (
        sn',
        into_services (events ++ serve (mk_service_addr6 (codes "QmA") (codes "web")) 80 web ∷ []),
      ))
unfolding mynetwork.Svc.Network.port_active mk_service_addr6 mynetwork.Common.ip_equal
packet_round-register_example =
    packet_round-register list_ranger list_ranger-RangerLaws listening keep network (codes "QmA")
      (codes "web") web to_web network-IsCoherent refl refl refl refl refl refl refl

-- Two packets, the first in two pieces.
abbrev first_packet : Bytes
first_packet = codes "abc"

abbrev second_packet : Bytes
second_packet = codes "d"

-- Stream 1 to bob, on which nothing has been written.
abbrev quiet : Streams
quiet = record { active = (codes "QmB", 1) ∷ []; closed = []; wire = [] }

stream_handler-HasEnded_example :
    HasEnded true true (
      stream_handler 9 (alice ∷ []) (codes "QmA") (λ p. true) true ((3 ∷ 0 ∷ []) ∷ codes "ab" ∷ []))
unfolding mynetwork.Up.Frames.Termination.measure find_peer bytes_eq
stream_handler-HasEnded_example =
    stream_handler-HasEnded 9 (alice ∷ []) (codes "QmA") (λ p. true) true
      ((3 ∷ 0 ∷ []) ∷ codes "ab" ∷ []) (omega arith)

-- Stream 1 to a peer, on which the next write fails; stream 2 is what the node opens then.
abbrev one_stream : Streams
one_stream = record { active = (codes "QmB", 1) ∷ []; closed = []; wire = [] }

abbrev broken : Answers
broken = record {
  size_sent = false;
  body_sent = true;
  deadline_set = true;
  new_stream = some 2;
  new_deadline_set = true;
  new_size_sent = true;
  new_body_sent = true;
}

one_stream-IsLive : IsLive one_stream
unfolding get
one_stream-IsLive = record {
  open_yet = λ d s e. refl;
  distinct =
      λ d e s p q. ground (arith, bytes_eq_iff (codes "QmB") d, bytes_eq_iff (codes "QmB") e);
}

one_stream-IsFresh : IsFresh broken one_stream
unfolding get
one_stream-IsFresh = record {
  not_closed = λ s e. refl;
  not_active = λ s d e p. ground (arith, bytes_eq_iff (codes "QmB") d);
}

send_packet-IsLive_example : IsLive (send_packet broken one_stream (codes "QmB") (codes "abc")).0
send_packet-IsLive_example =
    send_packet-IsLive broken one_stream (codes "QmB") (codes "abc") one_stream-IsLive
      one_stream-IsFresh

-- The new stream has taken the place of the broken one, and got the whole frame.
send_test : (send_packet broken one_stream (codes "QmB") (codes "abc")).0 ≡ record {
  active = (codes "QmB", 2) ∷ [];
  closed = 1 ∷ [];
  wire = (2, 3 ∷ 0 ∷ []) ∷ (2, codes "abc") ∷ [];
}
unfolding send_packet mynetwork.Common.bytes_eq
send_test = refl

packet_loop-IsCoherent_example : IsCoherent routed
unfolding packet_loop list_ranger
packet_loop-IsCoherent_example =
    packet_loop-IsCoherent list_ranger listening routed
      (read_packet (packet4 (10 ∷ 1 ∷ 2 ∷ 3 ∷ [])) ∷ read_failed ∷ interface_closed ∷ [])
      {acts = sent_to wide.target.id ∷ []} refl (record { agree = network-IsCoherent.agree })
