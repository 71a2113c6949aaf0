-- ===== src/Rpc/Windows.antt =====
-- rpc/server_windows.go: the handlers of the RPC service on Windows. `NodeIp` is that of rpc/server.go.
pub mod Agreement
use mynetwork.Common.{
  ℕ, Bool, true, false, List, [], ◌∷◌, ◌++◌, map, any, Bytes, codes, bytes_eq, length, Option, none,
  some, is_some, Outcome, ok, err, panic, fatal, if◌then◌else◌,
}
use mynetwork.Config.{PeerId, Peer, Ranger, Config}
use mynetwork.Config.Lookup.{find_first}
use mynetwork.Rpc.{
  StatusReply, PeerInfo, RouteArgs, RouteReply, AddPeerArgs, AddPeerReply, Externals, Daemon,
}
use mynetwork.Rpc.Server.{refusal, admit}
use mynetwork.Rpc.Reports.{shown_ip}

-- Beside the other externals: the peers that the host is connected to, and its `Connect`, with its
-- error.
pub record Swarm : Type 0 where
  pub peers : List PeerId
  pub connect : PeerId → Option Bytes

abbrev failed_route : Bytes → RouteReply
failed_route m = record { out = []; routes = []; error = some m }

abbrev said : Bytes → RouteReply
said out = record { out = out; routes = []; error = none }

module _ {T : Type 0} (x : Externals) (s : Swarm) where
  unfoldable pub windows_status : Daemon T → StatusReply
  windows_status d = record {
    peer_id = x.id_string x.host.id;
    swarm_peers_current = length s.peers;
    net_peers_current = length s.peers;
    net_peer_addrs_current = map x.id_string s.peers;
    net_peers_max = 100;
    listen_addrs = x.host.addrs;
  }

  -- The peer that a destination names: its ID, or the first peer of that name.
  unfoldable pub destination_peer : Daemon T → Bytes → Option PeerId
  unfolding find_first bytes_eq
  destination_peer d dest = elim (x.peer_decode dest) [
    | ok peer_id ↦ some peer_id
    | _ ↦ elim (find_first (λ p. bytes_eq p.name dest) d.config.peers) [
      | none ↦ none
      | some p ↦ some p.id
    ]
  ]

  unfoldable pub windows_add : Daemon T → Bytes → RouteReply
  unfolding destination_peer bytes_eq
  windows_add d dest = elim (destination_peer d dest) [
    | none ↦ failed_route (codes "peer not found: " ++ dest)
    | some target_peer ↦
        let connected = said (codes "Successfully connected to peer " ++ x.id_string target_peer) in
        if any (λ p. bytes_eq p target_peer) s.peers
        then connected
        else (elim (s.connect target_peer) [
          | some m ↦ failed_route (codes "failed to connect to peer: " ++ m)
          | none ↦ connected
        ])
  ]

  -- It returns no error, and changes nothing but the host's connections. The first argument of the action
  -- add is there, since the handler has refused an empty list.
  unfoldable pub windows_route : Daemon T → RouteArgs → RouteReply
  unfolding windows_add bytes_eq
  windows_route d args = elim args.args [
    | [] ↦ failed_route (codes "no arguments provided")
    | dest ∷ more ↦
        if bytes_eq args.action (codes "show")
        then said (codes "Current routes:\n")
        else if bytes_eq args.action (codes "add")
        then windows_add d dest
        else if bytes_eq args.action (codes "del")
        then said (codes "Route deletion not implemented on Windows")
        else failed_route (codes "unknown action: " ++ args.action)
  ]

  unfoldable pub windows_peers : Daemon T → List PeerInfo
  unfolding shown_ip
  windows_peers d =
      map
        (λ (p : Peer). record {
          peer_id = x.id_string p.id;
          name = p.name;
          ipv4 = shown_ip x p.builtin_addr4;
          ipv6 = shown_ip x p.builtin_addr6;
        })
        d.config.peers

module _ {T : Type 0} (rg : Ranger T) (unicode_lower : Bytes → Bytes) (x : Externals) where
  unfoldable pub windows_add_peer : Daemon T → AddPeerArgs → Daemon T × Outcome AddPeerReply
  unfolding admit bytes_eq
  windows_add_peer d args =
      if bytes_eq args.name []
      then (d, ok (refusal (codes "Peer name cannot be empty") (codes "peer name cannot be empty")))
      else if bytes_eq args.id []
      then (d, ok (refusal (codes "Peer ID cannot be empty") (codes "peer ID cannot be empty")))
      else (elim (x.peer_decode args.id) [
        | err m ↦ (d, ok (refusal (codes "Invalid peer ID format: " ++ m) m))
        | ok peer_id ↦
            if any (λ (p : Peer). bytes_eq p.id peer_id) d.config.peers
            then (
              d,
              ok (
                  refusal (codes "Peer with ID " ++ args.id ++ codes " already exists")
                    (codes "peer already exists")),
            )
            else if any (λ (p : Peer). bytes_eq p.name args.name) d.config.peers
            then (
              d,
              ok (
                  refusal (codes "Peer with name " ++ args.name ++ codes " already exists")
                    (codes "peer name already exists")),
            )
            else admit rg unicode_lower x d args peer_id
        | fatal ↦ (d, fatal)
        | panic ↦ (d, panic)
      ])
