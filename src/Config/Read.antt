-- ===== src/Config/Read.antt =====
-- config/config.go: `Read`, which builds the configuration from the file.
pub mod Plain
pub mod Result
use mynetwork.Common.{
  ◌≡◌, ◌++◌, [], ◌∷◌, List, Bytes, Dict, put, Outcome, ok, err, panic, fatal, ◌>>=◌, IpNet,
}
use mynetwork.Config.{
  PeerId, Peer, RouteTableEntry, Ranger, PeerLookup, Config, SchemaRoute, SchemaPeer, SchemaConfig,
}
use mynetwork.Config.Ids.{mk_builtin_addr4, mk_builtin_addr6}
use mynetwork.Config.Update.{mk_peer, index_peer}

-- What `Read` calls outside the repository: the file system, the decoders of JSON, multibase, keys,
-- multiaddresses and peer IDs, and `net.ParseCIDR`, of which it takes the network.
pub record Decoders : Type 0 where
  pub read_file : Bytes → Outcome Bytes
  pub unmarshal_json : Bytes → Outcome SchemaConfig
  pub multibase_decode : Bytes → Outcome Bytes
  pub unmarshal_private_key : Bytes → Outcome Bytes
  pub id_from_private_key : Bytes → Outcome PeerId
  pub new_multiaddr : Bytes → Outcome Bytes
  pub peer_decode : Bytes → Outcome PeerId
  pub parse_cidr : Bytes → Outcome IpNet

module _ {T : Type 0} (rg : Ranger T) (unicode_lower : Bytes → Bytes) (d : Decoders) where
  -- `for _, addrString := range input.ListenAddresses`.
  unfoldable pub read_addresses : List Bytes → Outcome (List Bytes)
  read_addresses [] = ok []
  read_addresses (s ∷ ss) = do
    addr ← d.new_multiaddr s
    addrs ← read_addresses ss
    ok (addr ∷ addrs)

  -- `for _, r := range configPeer.Routes`: a network that does not parse ends the process.
  read_routes : Peer → List SchemaRoute → T → Outcome T
  read_routes p [] t = ok t
  read_routes p (r ∷ rs) t = elim (d.parse_cidr r.net) [
    | ok n ↦ read_routes p rs (rg.insert_entry t (record { net = n; target = p }))
    | _ ↦ fatal
  ]

  -- `for i, configPeer := range input.Peers`.
  read_peers : List SchemaPeer → List Peer → PeerLookup T → Outcome (List Peer × PeerLookup T)
  read_peers [] ps l = ok (ps, l)
  read_peers (sp ∷ sps) ps l = do
    id ← d.peer_decode sp.id
    let p = mk_peer sp.name id
    t ← read_routes p sp.routes l.by_route
    read_peers sps (ps ++ p ∷ []) (index_peer rg unicode_lower p (record l { by_route = t }))

  -- `for name, addrString := range input.Services`.
  read_services : Dict Bytes → Dict Bytes → Outcome (Dict Bytes)
  read_services [] m = ok m
  read_services ((name, s) ∷ ss) m = do addr ← d.new_multiaddr s; read_services ss (put m name addr)

  unfoldable pub read : Bytes → Outcome (Config T)
  unfolding read_addresses read_routes read_peers read_services
  read path = do
    in_bytes ← d.read_file path
    input ← d.unmarshal_json in_bytes
    key_bytes ← d.multibase_decode input.private_key
    pk ← d.unmarshal_private_key key_bytes
    peer_id ← d.id_from_private_key pk
    addrs ← read_addresses input.listen_addresses
    (ps, l) ←
        read_peers input.peers [] (record { by_route = rg.empty; by_name = []; by_net_id = [] })
    services ← read_services input.services []
    ok (record {
      path = path;
      interface = [];
      listen_addresses = addrs;
      peers = ps;
      peer_lookup = l;
      private_key = pk;
      builtin_addr4 = mk_builtin_addr4 peer_id;
      builtin_addr6 = mk_builtin_addr6 peer_id;
      services = services;
    })
