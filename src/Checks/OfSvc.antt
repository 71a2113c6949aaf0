-- ===== src/Checks/OfSvc.antt =====
-- Instances of the theorems about the package svc, and tests.
use mynetwork.Common.{
  ◌≡◌, refl, ◌++◌, [], ◌∷◌, ℕ, true, false, some, List, Bytes, codes, put, get, bytes_eq, ok, none,
  is_some, if◌then◌else◌, Outcome, ◌⊎◌,
}
use mynetwork.Config.{RouteTableEntry}
use mynetwork.Config.Ids.{mk_net_id, mk_service_id, mk_service_addr6}
use mynetwork.Config.Lookup.{find_peer}
use mynetwork.Svc.{Proxy, tcp_service, remote_service, unset, ServiceNetwork, Event, serve}
use mynetwork.Svc.Network.{register, port_active, select_proxy, ensure_listener}
use mynetwork.Svc.Network.Invariant.{IsCoherent}
use mynetwork.Svc.Network.Once.{IsAfter, ensure_listener_again}
use mynetwork.Svc.Proxies.{Component, Answers}
use mynetwork.Svc.Receiver.Handshake.{served, dialled, handshake_agrees}
use mynetwork.Svc.Pipe.{first, second, pipe}
use mynetwork.Svc.Pipe.Order.{unpiped, pipe_delivers}
use mynetwork.Checks.OfConfig.{blank, bob}

abbrev pub listening : Bytes → ℕ → Outcome (Unit {0})
listening addr port = ok tt

abbrev pub web : Proxy
web = tcp_service (127 ∷ 0 ∷ 0 ∷ 1 ∷ []) 80

-- The service network of alice, with bob as a peer and nothing registered.
abbrev pub network : ServiceNetwork (List RouteTableEntry)
network = record {
  config = record blank {
    peers = bob ∷ [];
    peer_lookup = record {
      by_route = [];
      by_name = [];
      by_net_id = (mk_net_id (codes "QmB"), bob) ∷ [];
    };
  };
  self = mk_net_id (codes "QmA");
  active_addrs = [];
  active_ports = [];
  listeners = [];
}

pub network-IsCoherent : IsCoherent network
unfolding get
network-IsCoherent = record { agree = λ a. refl }

abbrev web_addr : Bytes
web_addr = mk_service_addr6 (codes "QmA") (codes "web")

abbrev started : ServiceNetwork (List RouteTableEntry)
started = record (register network (codes "web") web) {
  active_addrs = (web_addr, tt) ∷ [];
  active_ports = (web_addr, 80 ∷ []) ∷ [];
}

abbrev start_events : List Event
start_events = Event.add_protocol_address web_addr ∷ serve web_addr 80 web ∷ []

starts :
    ensure_listener listening (register network (codes "web") web) web_addr 80
    ≡ ok (started, true, start_events)
unfolding ensure_listener register mk_service_addr6 mk_net_id mk_service_id put get bytes_eq
    select_proxy mynetwork.Svc.Network.with_port mynetwork.Svc.Network.with_addr
starts = refl

-- The port 81 too.
abbrev two_ports : ServiceNetwork (List RouteTableEntry)
two_ports = record started { active_ports = (web_addr, 81 ∷ 80 ∷ []) ∷ [] }

starts_81 :
    ensure_listener listening started web_addr 81 ≡ ok (two_ports, true, serve web_addr 81 web ∷ [])
unfolding ensure_listener register mk_service_addr6 mk_net_id mk_service_id put get bytes_eq
    select_proxy mynetwork.Svc.Network.with_port mynetwork.Svc.Network.port_active
starts_81 = refl

ensure_listener_again_example :
    ensure_listener listening two_ports web_addr 80 ≡ ok (two_ports, true, [])
ensure_listener_again_example =
    ensure_listener_again listening listening (register network (codes "web") web) web_addr 80
      starts (IsAfter.ensured listening web_addr 81 IsAfter.at_once starts_81)

-- What a peer answers that takes everything.
abbrev willing : Answers
willing = record { open_stream = ok tt; write = λ b. ok tt; read = ok (0xf1 ∷ []) }

abbrev ip4_part : Component
ip4_part = record { code = 4; name = codes "ip4"; raw = 10 ∷ 0 ∷ 0 ∷ 7 ∷ [] }

abbrev tcp_part : Component
tcp_part = record { code = 6; name = codes "tcp"; raw = 0x1f ∷ 0x90 ∷ [] }

abbrev udp_part : Component
udp_part = record { code = 273; name = codes "udp"; raw = 0x1f ∷ 0x90 ∷ [] }

handshake_agrees_example :
    ((dialled
        (register network (codes "web") web)
        (codes "QmB")
        (mk_service_id (codes "web"))).piped
      ≡ is_some
          (served
            (register network (codes "web") web)
            (codes "QmB")
            (mk_service_id (codes "web"))).handled)
    × ((served
          (register network (codes "web") web)
          (codes "QmB")
          (mk_service_id (codes "web"))).handled
        ≡ (if is_some (find_peer (bob ∷ []) (codes "QmB"))
            then get (register network (codes "web") web).listeners (mk_service_id (codes "web"))
            else none))
unfolding register
handshake_agrees_example =
    handshake_agrees (register network (codes "web") web) (codes "QmB") (codes "web")

pipe_delivers_example :
    let s =
      pipe
        ((first, none) ∷ (second, none) ∷ (first, none) ∷ [])
        (unpiped (codes "a" ∷ []) (codes "b" ∷ codes "c" ∷ [])) in
    (s.to2 ++ s.from1 ≡ codes "a" ∷ [])
    × (s.to1 ++ s.from2 ≡ codes "b" ∷ codes "c" ∷ [])
    × ((s.stopped ≡ false) ⊎ ((s.to2 ≡ codes "a" ∷ []) ⊎ (s.to1 ≡ codes "b" ∷ codes "c" ∷ [])))
pipe_delivers_example =
    pipe_delivers (codes "a" ∷ []) (codes "b" ∷ codes "c" ∷ [])
      ((first, none) ∷ (second, none) ∷ (first, none) ∷ []) (refl, (refl, (refl, tt)))

-- A write that fails after one byte is passed over.
broken_write :
    (pipe
      ((first, some (codes "a")) ∷ (first, none) ∷ [])
      (unpiped (codes "abc" ∷ codes "d" ∷ []) [])).to2
    ≡ codes "a" ∷ codes "d" ∷ []
unfolding pipe
broken_write = refl
