-- ===== src/Rpc/Server.antt =====
-- rpc/server.go: the handlers of the RPC service.
pub mod Adding
pub mod Routing
pub mod Showing
use mynetwork.Common.{
  ℕ, suc, Bool, true, false, not, ◌&&◌, List, [], ◌∷◌, ◌++◌, map, Bytes, codes, bytes_eq, length,
  ◌==◌, Option, none, some, is_some, Outcome, ok, err, panic, fatal, if◌then◌else◌, ◌>>=◌, IpNet,
  cidr_mask, replicate, get_last?,
}
use mynetwork.Config.{PeerId, Peer, RouteTableEntry, Ranger, Config}
use mynetwork.Config.Lookup.{find_peer, find_peer_by_name, find_peer_by_cli_ref}
use mynetwork.Config.Update.{add_peer}
use mynetwork.Rpc.{
  StatusReply, PeerInfo, RouteInfo, RouteArgs, RouteReply, AddPeerArgs, AddPeerReply, NodeIpReply,
  Conn, Host, TunOption, route_option, remove_route_option, Externals, Daemon,
}

-- `p2p.Protocol`.
abbrev pub p2p_protocol : Bytes
p2p_protocol = codes "/hyprspace/0.0.1"

-- `cidranger.AllIPv4` and `cidranger.AllIPv6`.
abbrev pub all_ipv4 : IpNet
all_ipv4 = record { ip = replicate 4 0; mask = cidr_mask 0 32 }

abbrev pub all_ipv6 : IpNet
all_ipv6 = record { ip = replicate 16 0; mask = cidr_mask 0 128 }

-- The two variables of the loop over the connections to a target, and whether it was left.
pub record RelayScan : Type 0 where
  pub relay : Bool
  pub relay_addr : PeerId
  pub left : Bool

module _ (x : Externals) (target : PeerId) where
  -- One stream of a connection.
  unfoldable pub scan_stream : Conn → Bytes → RelayScan → RelayScan
  unfolding bytes_eq
  scan_stream c protocol s =
      if bytes_eq protocol p2p_protocol
      then if c.via_circuit
        then record s {
          relay = true;
          relay_addr = elim c.p2p_value [
            | none ↦ s.relay_addr
            | some ra ↦ elim (x.peer_decode ra) [ ok p ↦ p | _ ↦ target ]
          ];
        }
        else record { relay = false; relay_addr = target; left = true }
      else s

  unfoldable pub scan_streams : Conn → List Bytes → RelayScan → RelayScan
  unfolding scan_stream
  scan_streams c [] s = s
  scan_streams c (protocol ∷ rest) s =
      let s' = scan_stream c protocol s in
      let more = scan_streams c rest s' in if s'.left then s' else more

  unfoldable pub scan_conns : List Conn → RelayScan → RelayScan
  unfolding scan_streams
  scan_conns [] s = s
  scan_conns (c ∷ cs) s =
      let s' = scan_streams c c.protocols s in
      let more = scan_conns cs s' in if s'.left then s' else more

-- The entry of the reply for one route.
unfoldable pub route_info : Externals → RouteTableEntry → RouteInfo
unfolding scan_conns
route_info x rte =
    let target = rte.target.id in
    let start : RelayScan = record { relay = false; relay_addr = target; left = false } in
    let s =
      if x.host.is_connected target
      then scan_conns x target (x.host.conns_to_peer target) start
      else start in
    record {
      network = rte.net;
      target_name = rte.target.name;
      target_addr = target;
      relay_addr = s.relay_addr;
      is_relay = s.relay;
      is_connected = x.host.is_connected target;
    }

abbrev no_routes : RouteReply
no_routes = record { out = []; routes = []; error = none }

module _ {T : Type 0} (rg : Ranger T) (x : Externals) where
  unfoldable pub route_show : Daemon T → Outcome RouteReply
  unfolding route_info
  route_show d = do
    all_routes4 ← rg.covered_networks d.config.peer_lookup.by_route all_ipv4
    all_routes6 ← rg.covered_networks d.config.peer_lookup.by_route all_ipv6
    ok (record no_routes { routes = map (route_info x) (all_routes4 ++ all_routes6) })

  unfoldable pub apply_option : Daemon T → TunOption → Daemon T × Option Bytes
  apply_option d o = (record d { applied = d.applied ++ o ∷ [] }, x.apply d.applied o)

  -- With the route's network and its target.
  unfoldable pub add_route : Daemon T → IpNet → Peer → Daemon T × Outcome RouteReply
  unfolding apply_option
  add_route d network target =
      let (d1, failed) = apply_option d (route_option network) in
      elim failed [
        | some m ↦ (d1, err m)
        | none ↦
            let table =
              rg.insert_entry d1.config.peer_lookup.by_route
                (record { net = network; target = target }) in
            let lookup = record (d1.config.peer_lookup) { by_route = table } in
            (record d1 { config = record (d1.config) { peer_lookup = lookup } }, ok no_routes)
      ]

  unfoldable pub route_add : Daemon T → List Bytes → Daemon T × Outcome RouteReply
  unfolding add_route find_peer_by_cli_ref
  route_add d (cidr ∷ target_ref ∷ []) = elim (x.parse_cidr cidr) [
    | ok network ↦ elim (find_peer_by_cli_ref x.id_string d.config.peers target_ref) [
      | none ↦ (d, err (codes "no such peer"))
      | some target ↦ add_route d network target
    ]
    | err m ↦ (d, err m)
    | fatal ↦ (d, fatal)
    | panic ↦ (d, panic)
  ]
  route_add d _ = (d, err (codes "expected exactly 2 arguments"))

  -- When the table refuses, the route is given back to the device.
  unfoldable pub remove_route : Daemon T → IpNet → Daemon T × Outcome RouteReply
  unfolding apply_option
  remove_route d network =
      let (d1, failed) = apply_option d (remove_route_option network) in
      elim failed [
        | some m ↦ (d1, err m)
        | none ↦ elim (rg.remove_entry d1.config.peer_lookup.by_route network) [
          | ok (table, removed) ↦
              let lookup = record (d1.config.peer_lookup) { by_route = table } in
              (record d1 { config = record (d1.config) { peer_lookup = lookup } }, ok no_routes)
          | err m ↦ ((apply_option d1 (route_option network)).0, err m)
          | fatal ↦ (d1, fatal)
          | panic ↦ (d1, panic)
        ]
      ]

  unfoldable pub route_del : Daemon T → List Bytes → Daemon T × Outcome RouteReply
  unfolding remove_route
  route_del d (cidr ∷ []) = elim (x.parse_cidr cidr) [
    | ok network ↦ remove_route d network
    | err m ↦ (d, err m)
    | fatal ↦ (d, fatal)
    | panic ↦ (d, panic)
  ]
  route_del d _ = (d, err (codes "expected exactly 1 argument"))

  unfoldable pub route : Daemon T → RouteArgs → Daemon T × Outcome RouteReply
  unfolding route_show route_add route_del bytes_eq
  route d args =
      if bytes_eq args.action (codes "show")
      then (d, route_show d)
      else if bytes_eq args.action (codes "add")
      then route_add d args.args
      else if bytes_eq args.action (codes "del")
      then route_del d args.args
      else (d, err (codes "no such action"))

abbrev pub refusal : Bytes → Bytes → AddPeerReply
refusal message error = record { success = false; message = message; error = some error }

module _ {T : Type 0} (rg : Ranger T) (unicode_lower : Bytes → Bytes) (x : Externals) where
  -- After the checks. The errors of the two routes are printed.
  unfoldable pub admit : Daemon T → AddPeerArgs → PeerId → Daemon T × Outcome AddPeerReply
  unfolding add_peer apply_option
  admit d args peer_id =
      let d1 = record d { config = add_peer rg unicode_lower d.config args.name peer_id } in
      elim (get_last? d1.config.peers) [
        | none ↦ (d1, panic)
        | some new_peer ↦
            let d2 =
              (apply_option rg x d1 (
                route_option (record { ip = new_peer.builtin_addr4; mask = cidr_mask 32 32 }))).0 in
            let d3 =
              (apply_option rg x d2 (
                route_option
                  (record { ip = new_peer.builtin_addr6; mask = cidr_mask 128 128 }))).0 in
            (
              record d3 { rediscoveries = suc d3.rediscoveries },
              ok (record {
                success = true;
                message =
                    codes "Peer "
                    ++ args.name
                    ++ codes " ("
                    ++ args.id
                    ++ codes ") added successfully";
                error = none;
              }),
            )
      ]

  unfoldable pub add_peer_call : Daemon T → AddPeerArgs → Daemon T × Outcome AddPeerReply
  unfolding admit find_peer find_peer_by_name bytes_eq
  add_peer_call d args =
      if bytes_eq args.name []
      then (d, ok (refusal (codes "Peer name cannot be empty") (codes "peer name cannot be empty")))
      else if bytes_eq args.id []
      then (d, ok (refusal (codes "Peer ID cannot be empty") (codes "peer ID cannot be empty")))
      else (elim (x.peer_decode args.id) [
        | err m ↦ (d, ok (refusal (codes "Invalid peer ID: " ++ m) m))
        | ok peer_id ↦
            if is_some (find_peer d.config.peers peer_id)
            then (d, ok (refusal (codes "Peer already exists") (codes "peer already exists")))
            else if is_some (find_peer_by_name d.config.peers args.name)
            then (
              d,
              ok (refusal (codes "Peer name already exists") (codes "peer name already exists")),
            )
            else admit d args peer_id
        | fatal ↦ (d, fatal)
        | panic ↦ (d, panic)
      ])
