-- ===== src/Config.antt =====
-- The data of config/config.go and schema/config.go: peers, the route table and its interface, the
-- lookup tables and the configuration.
pub mod Ids
pub mod Lookup
pub mod Search
pub mod Update
pub mod Consistency
pub mod Read
pub mod Routes
pub mod ListRanger
use mynetwork.Common.{Bytes, Dict, IpNet, List, Option, Outcome}

-- `peer.ID`: the string of a multihash, compared as a string.
abbrev pub PeerId : Type 0
PeerId = Bytes

pub record Peer : Type 0 where
  pub id : PeerId
  pub name : Bytes
  pub builtin_addr4 : Bytes
  pub builtin_addr6 : Bytes

pub record RouteTableEntry : Type 0 where
  pub net : IpNet
  pub target : Peer

-- The operations of `cidranger.Ranger` that the program calls, on a table of type `T`. The error
-- of `Insert` is dropped by every caller; `Remove` gives the removed entry, if there was one.
pub record Ranger (T : Type 0) : Type 0 where
  pub empty : T
  pub insert_entry : T → RouteTableEntry → T
  pub remove_entry : T → IpNet → Outcome (T × Option RouteTableEntry)
  pub covered_networks : T → IpNet → Outcome (List RouteTableEntry)
  pub containing_networks : T → Bytes → Outcome (List RouteTableEntry)

pub record PeerLookup (T : Type 0) : Type 0 where
  pub by_route : T
  pub by_name : Dict Peer
  pub by_net_id : Dict Peer

-- Multiaddresses are known by their texts and the key by its bytes.
pub record Config (T : Type 0) : Type 0 where
  pub path : Bytes
  pub interface : Bytes
  pub listen_addresses : List Bytes
  pub peers : List Peer
  pub peer_lookup : PeerLookup T
  pub private_key : Bytes
  pub builtin_addr4 : Bytes
  pub builtin_addr6 : Bytes
  pub services : Dict Bytes

-- The package schema: the file's fields, before any is checked.
pub record SchemaRoute : Type 0 where
  pub net : Bytes

pub record SchemaPeer : Type 0 where
  pub id : Bytes
  pub name : Bytes
  pub routes : List SchemaRoute

pub record SchemaConfig : Type 0 where
  pub listen_addresses : List Bytes
  pub private_key : Bytes
  pub peers : List SchemaPeer
  pub services : Dict Bytes
