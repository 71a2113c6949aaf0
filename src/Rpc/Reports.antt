-- ===== src/Rpc/Reports.antt =====
-- rpc/server.go: the handlers that only report, `Status`, `Peers` and `NodeIp`.
pub mod Counts
use mynetwork.Common.{
  ℕ, suc, Bool, List, [], ◌∷◌, ◌++◌, map, Bytes, codes, bytes_eq, length, Option, none, some,
  if◌then◌else◌,
}
use mynetwork.Config.{PeerId, Peer, Config}
use mynetwork.Config.Lookup.{find_first}
use mynetwork.Rpc.{StatusReply, PeerInfo, NodeIpReply, Conn, Host, Externals, Daemon}

module _ (x : Externals) where
  -- The line for one connection of a peer of the configuration.
  abbrev pub conn_line : Peer → Conn → Bytes
  conn_line p c =
      codes "@"
      ++ p.name
      ++ codes " ("
      ++ x.host.latency p.id
      ++ codes ") "
      ++ c.remote_multiaddr
      ++ codes "/p2p/"
      ++ x.id_string p.id

  -- The loop over the configured peers: how many are connected, and the lines of their connections.
  unfoldable pub count_peers : List Peer → ℕ × List Bytes
  count_peers [] = (0, [])
  count_peers (p ∷ ps) =
      let (n, lines) = count_peers ps in
      if x.host.is_connected p.id
      then (suc n, map (conn_line p) (x.host.conns_to_peer p.id) ++ lines)
      else (n, lines)

  unfoldable pub status : {T : Type 0} → Daemon T → StatusReply
  unfolding count_peers
  status d =
      let (current, lines) = count_peers d.config.peers in
      record {
        peer_id = x.id_string x.host.id;
        swarm_peers_current = length x.host.conns;
        net_peers_current = current;
        net_peer_addrs_current = lines;
        net_peers_max = length d.config.peers;
        listen_addrs = x.host.addrs;
      }

  -- `IP.String`, unless the slice is nil.
  unfoldable pub shown_ip : Bytes → Bytes
  shown_ip [] = []
  shown_ip (b ∷ bs) = x.ip_string (b ∷ bs)

  -- A connection's peer: the name and the addresses come from the first peer of the configuration
  -- that has the same ID as a text.
  unfoldable pub peer_info : List Peer → Conn → PeerInfo
  unfolding find_first shown_ip bytes_eq
  peer_info ps c =
      let peer_id = x.id_string c.remote_peer in
      elim (find_first (λ p. bytes_eq (x.id_string p.id) peer_id) ps) [
        | none ↦ record { peer_id = peer_id; name = []; ipv4 = []; ipv6 = [] }
        | some p ↦ record {
          peer_id = peer_id;
          name = p.name;
          ipv4 = shown_ip p.builtin_addr4;
          ipv6 = shown_ip p.builtin_addr6;
        }
      ]

  unfoldable pub peers : {T : Type 0} → Daemon T → List PeerInfo
  unfolding peer_info
  peers d = map (peer_info d.config.peers) x.host.conns

  unfoldable pub node_ip : {T : Type 0} → Daemon T → NodeIpReply
  unfolding shown_ip
  node_ip d = record {
    ipv4 = shown_ip d.config.builtin_addr4;
    ipv6 = shown_ip d.config.builtin_addr6;
    error = none;
  }
