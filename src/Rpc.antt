-- ===== src/Rpc.antt =====
-- The package rpc: what its calls get and give (rpc/types.go), the code outside the repository that
-- the handlers call, and the daemon's state that they change.
pub mod Server
pub mod Reports
pub mod Json
pub mod Windows
pub mod Client
use mynetwork.Common.{ℕ, Bool, List, Bytes, Option, Outcome, IpNet}
use mynetwork.Config.{PeerId, Config}

pub record StatusReply : Type 0 where
  pub peer_id : Bytes
  pub swarm_peers_current : ℕ
  pub net_peers_current : ℕ
  pub net_peer_addrs_current : List Bytes
  pub net_peers_max : ℕ
  pub listen_addrs : List Bytes

pub record PeerInfo : Type 0 where
  pub peer_id : Bytes
  pub name : Bytes
  pub ipv4 : Bytes
  pub ipv6 : Bytes

pub record RouteInfo : Type 0 where
  pub network : IpNet
  pub target_name : Bytes
  pub target_addr : PeerId
  pub relay_addr : PeerId
  pub is_relay : Bool
  pub is_connected : Bool

pub record RouteArgs : Type 0 where
  pub action : Bytes
  pub args : List Bytes

pub record RouteReply : Type 0 where
  pub out : Bytes
  pub routes : List RouteInfo
  pub error : Option Bytes

pub record AddPeerArgs : Type 0 where
  pub name : Bytes
  pub id : Bytes

pub record AddPeerReply : Type 0 where
  pub success : Bool
  pub message : Bytes
  pub error : Option Bytes

pub record NodeIpReply : Type 0 where
  pub ipv4 : Bytes
  pub ipv6 : Bytes
  pub error : Option Bytes

-- A libp2p connection: the remote address, whether it has a circuit component, the text of its p2p
-- component, and the protocols of its streams.
pub record Conn : Type 0 where
  pub remote_peer : PeerId
  pub remote_multiaddr : Bytes
  pub via_circuit : Bool
  pub p2p_value : Option Bytes
  pub protocols : List Bytes

pub record Host : Type 0 where
  pub id : PeerId
  pub addrs : List Bytes
  pub conns : List Conn
  pub conns_to_peer : PeerId → List Conn
  pub is_connected : PeerId → Bool
  pub latency : PeerId → Bytes

-- The options that the handlers apply to the TUN device.
pub data TunOption : Type 0 where
  route_option : IpNet → TunOption
  remove_route_option : IpNet → TunOption

-- `apply` is `TUN.Apply` of one option, given the options that were applied before, with its error.
pub record Externals : Type 0 where
  pub host : Host
  pub id_string : PeerId → Bytes
  pub ip_string : Bytes → Bytes
  pub peer_decode : Bytes → Outcome PeerId
  pub parse_cidr : Bytes → Outcome IpNet
  pub apply : List TunOption → TunOption → Option Bytes

-- The configuration, the calls of `Apply` so far, and the calls of `Rediscover`.
pub record Daemon (T : Type 0) : Type 0 where
  pub config : Config T
  pub applied : List TunOption
  pub rediscoveries : ℕ
