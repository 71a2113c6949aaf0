-- ===== src/Svc/Network.antt =====
-- svc/network.go: `Register` and `EnsureListener`.
pub mod Invariant
pub mod Reach
pub mod Once
use mynetwork.Common.{
  ℕ, Bool, true, false, ◌&&◌, List, [], ◌∷◌, ◌++◌, Bytes, bytes_eq, get, put, any, ◌==◌, take, drop,
  length, Option, none, some, is_some, Outcome, ok, err, panic, fatal, if◌then◌else◌, ◌>>=◌,
}
use mynetwork.Config.{Config}
use mynetwork.Config.Ids.{mk_service_id}
use mynetwork.Svc.{Proxy, unset, remote_service, ServiceNetwork, Event, add_protocol_address, serve}

module _ {T : Type 0} where
  unfoldable pub register : ServiceNetwork T → Bytes → Proxy → ServiceNetwork T
  unfolding put mk_service_id
  register sn name proxy = record sn { listeners = put sn.listeners (mk_service_id name) proxy }

  -- `_, ok := sn.activePorts[addr][port]`: a missing address has no ports.
  unfoldable pub port_active : ServiceNetwork T → Bytes → ℕ → Bool
  unfolding get
  port_active sn addr port = elim (get sn.active_ports addr) [
    | none ↦ false
    | some ports ↦ any (λ p. p == port) ports
  ]

  -- The proxy for an address: a local service, or that of a peer; the zero value for a network that
  -- nobody has; `none` for a local service that is not registered.
  unfoldable pub select_proxy : ServiceNetwork T → Bytes → Option Proxy
  unfolding get bytes_eq
  select_proxy sn addr =
      let net_id = take 4 (drop 10 addr) in
      let svc_id = take 2 (drop 14 addr) in
      if bytes_eq net_id sn.self
      then get sn.listeners svc_id
      else (elim (get sn.config.peer_lookup.by_net_id net_id) [
        | none ↦ some unset
        | some p ↦ some (remote_service p.id svc_id)
      ])

  -- The sets after an address has been registered.
  unfoldable pub with_addr : ServiceNetwork T → Bytes → ServiceNetwork T
  unfolding put
  with_addr sn addr = record sn {
    active_addrs = put sn.active_addrs addr tt;
    active_ports = put sn.active_ports addr [];
  }

  -- `sn.activePorts[addr][port] = struct{}{}`: a write to a map that is not there panics.
  unfoldable pub with_port : ServiceNetwork T → Bytes → ℕ → Outcome (ServiceNetwork T)
  unfolding get put
  with_port sn addr port = elim (get sn.active_ports addr) [
    | none ↦ panic
    | some ports ↦ ok (record sn { active_ports = put sn.active_ports addr (port ∷ ports) })
  ]

  -- `listen` is `Net.ListenTCP`; its error is a panic, after the port has been entered.
  unfoldable pub ensure_listener :
      (Bytes → ℕ → Outcome (Unit {0}))
      → ServiceNetwork T
      → Bytes
      → ℕ
      → Outcome (ServiceNetwork T × Bool × List Event)
  unfolding get
  ensure_listener listen sn addr port =
      let known = is_some (get sn.active_addrs addr) in
      if known && port_active sn addr port
      then ok (sn, true, [])
      else (elim (select_proxy sn addr) [
        | none ↦ ok (sn, false, [])
        | some proxy ↦
            let sn1 = if known then sn else with_addr sn addr in
            let events = if known then [] else add_protocol_address addr ∷ [] in
            do
              sn2 ← with_port sn1 addr port
              elim (listen addr port) [
                | ok _ ↦ ok (sn2, true, events ++ serve addr port proxy ∷ [])
                | fatal ↦ fatal
                | _ ↦ panic
              ]
      ])

  -- `NewServiceNetwork`: the conversion of a part of the address to [4]byte panics when it is shorter.
  -- The network stack and its loop are left out.
  unfoldable pub new_service_network : Config T → Outcome (ServiceNetwork T)
  new_service_network config =
      let self = take 4 (drop 12 config.builtin_addr6) in
      if length self == 4
      then ok (record {
        config = config;
        self = self;
        active_addrs = [];
        active_ports = [];
        listeners = [];
      })
      else panic
