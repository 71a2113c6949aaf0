-- ===== src/Checks/OfRpc.antt =====
-- Instances of the theorems about the handlers of the package rpc, and tests.
use mynetwork.Common.{
  ◌≡◌, ◌≢◌, ◌↔◌, ◌⊎◌, ap, refl, arith, ◌++◌, [], ◌∷◌, ℕ, ◌≤◌, Bool, true, false, not, ◌&&◌, any,
  List, Bytes, codes, ok, err, panic, none, some, is_some, Option, Outcome, IpNet, length, bytes_eq,
}
use mynetwork.Config.{Peer, RouteTableEntry, Config}
use mynetwork.Config.Lookup.{find_route_for_ip}
use mynetwork.Config.ListRanger.{list_ranger, list_ranger-RangerLaws}
use mynetwork.Config.Consistency.{IsConsistent, IsRouted}
use mynetwork.Config.Read.Result.{empty-IsIndexed}
use mynetwork.Rpc.{AddPeerArgs, Conn, Host, Externals, Daemon}
use mynetwork.Rpc.Server.{p2p_protocol, route, add_peer_call, route_info}
use mynetwork.Rpc.Server.Adding.{IsUnique, is_success, add_peer_call-IsUnique}
use mynetwork.Rpc.Server.Routing.{IsUndone, route-err, route-find_route_for_ip}
use mynetwork.Rpc.Server.Showing.{relayed, direct, route_info-relay}
use mynetwork.Rpc.Windows.{Swarm, windows_route, windows_add_peer}
use mynetwork.Rpc.Windows.Agreement.{windows_add_peer-add_peer_call}
use mynetwork.Checks.OfConfig.{blank, keep, wide}

abbrev relay_conn : Conn
relay_conn = record {
  remote_peer = codes "QmA";
  remote_multiaddr = codes "/ip4/1.2.3.4/tcp/4001/p2p/QmR/p2p-circuit";
  via_circuit = true;
  p2p_value = some (codes "QmR");
  protocols = p2p_protocol ∷ [];
}

abbrev host : Host
host = record {
  id = codes "QmS";
  addrs = [];
  conns = relay_conn ∷ [];
  conns_to_peer = λ p. relay_conn ∷ [];
  is_connected = λ p. true;
  latency = λ p. codes "1ms";
}

-- IDs and addresses are their own texts; every network is 10.0.0.0/8.
abbrev pub externals : Externals
externals = record {
  host = host;
  id_string = keep;
  ip_string = keep;
  peer_decode = λ s. ok s;
  parse_cidr = λ s. ok (record { ip = 10 ∷ 0 ∷ 0 ∷ 0 ∷ []; mask = 255 ∷ 0 ∷ 0 ∷ 0 ∷ [] });
  apply = λ before o. none;
}

abbrev pub idle : Daemon (List RouteTableEntry)
idle = record { config = blank; applied = []; rediscoveries = 0 }

abbrev pub carol : AddPeerArgs
carol = record { name = codes "carol"; id = codes "QmC" }

added : is_success (add_peer_call list_ranger keep externals idle carol).1 ≡ true
unfolding add_peer_call
added = refl

add_peer_call-IsUnique_example :
    let cfg = (add_peer_call list_ranger keep externals idle carol).0.config in
    IsUnique cfg.peers × IsConsistent list_ranger keep cfg
unfolding list_ranger
add_peer_call-IsUnique_example =
    add_peer_call-IsUnique list_ranger keep externals idle carol IsUnique.no_peers
      (empty-IsIndexed keep, IsRouted.no_peers)

route-err_example :
    IsUndone list_ranger externals idle
      (route list_ranger externals idle
        (record { action = codes "add"; args = codes "10.0.0.0/8" ∷ [] })).0
unfolding route
route-err_example =
    route-err list_ranger externals idle
      (record { action = codes "add"; args = codes "10.0.0.0/8" ∷ [] })
      {m = codes "expected exactly 2 arguments"} refl

-- A daemon that has carol as its peer.
abbrev with_carol : Daemon (List RouteTableEntry)
with_carol = record idle {
  config = record blank {
    peers =
        record { id = codes "QmC"; name = codes "carol"; builtin_addr4 = []; builtin_addr6 = [] }
        ∷ [];
  };
}

abbrev carol_peer : Peer
carol_peer = record {
  id = codes "QmC";
  name = codes "carol";
  builtin_addr4 = [];
  builtin_addr6 = [];
}

route-find_route_for_ip_example :
    find_route_for_ip list_ranger
      (route list_ranger externals with_carol
        (record { action = codes "add"; args = codes "10.0.0.0/8" ∷ codes "@carol" ∷ [] })).0.config
      (10 ∷ 1 ∷ 2 ∷ 3 ∷ [])
    ≡ ok (
        some (record {
          net = record { ip = 10 ∷ 0 ∷ 0 ∷ 0 ∷ []; mask = 255 ∷ 0 ∷ 0 ∷ 0 ∷ [] };
          target = carol_peer;
        }))
unfolding list_ranger mynetwork.Config.Lookup.find_peer_by_cli_ref mynetwork.Common.has_prefix
    mynetwork.Common.trim_prefix
route-find_route_for_ip_example =
    route-find_route_for_ip list_ranger list_ranger-RangerLaws keep externals with_carol
      (codes "10.0.0.0/8") (codes "@carol") (10 ∷ 1 ∷ 2 ∷ 3 ∷ [])
      (record { ip = 10 ∷ 0 ∷ 0 ∷ 0 ∷ []; mask = 255 ∷ 0 ∷ 0 ∷ 0 ∷ [] }) carol_peer refl refl refl
      refl refl

route_info-relay_example :
    (route_info externals wide).is_relay
    ≡ (true && (not (any direct (relay_conn ∷ [])) && any relayed (relay_conn ∷ [])))
route_info-relay_example = route_info-relay externals wide

relay_test : (route_info externals wide).relay_addr ≡ codes "QmR"
unfolding route_info
relay_test = refl

windows_add_peer-add_peer_call_example :
    ((windows_add_peer list_ranger keep externals idle carol).0
      ≡ (add_peer_call list_ranger keep externals idle carol).0)
    × (is_success (windows_add_peer list_ranger keep externals idle carol).1
        ≡ is_success (add_peer_call list_ranger keep externals idle carol).1)
windows_add_peer-add_peer_call_example =
    windows_add_peer-add_peer_call list_ranger keep externals idle carol

abbrev nobody : Swarm
nobody = record { peers = []; connect = λ p. some (codes "no route") }

-- The list of routes that the command asks for without arguments.
windows_show :
    (windows_route externals nobody idle (record { action = codes "show"; args = [] })).error
    ≡ some (codes "no arguments provided")
unfolding windows_route
windows_show = refl
