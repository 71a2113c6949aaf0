-- ===== src/Config/Update.antt =====
-- config/config.go: `AddPeer` and `AddPeerWithTUN`, which change the configuration at run time.
use mynetwork.Common.{
  ◌++◌, [], ◌∷◌, Bool, none, some, Bytes, bytes_eq, put, to_lower, cidr_mask, take, drop,
  if◌then◌else◌, get_last?, Outcome, ok, panic,
}
use mynetwork.Config.{PeerId, Peer, RouteTableEntry, Ranger, PeerLookup, Config}
use mynetwork.Config.Ids.{mk_builtin_addr4, mk_builtin_addr6}

-- A peer with the addresses that belong to its ID.
abbrev pub mk_peer : Bytes → PeerId → Peer
mk_peer name id = record {
  id = id;
  name = name;
  builtin_addr4 = mk_builtin_addr4 id;
  builtin_addr6 = mk_builtin_addr6 id;
}

-- The host routes of a peer.
abbrev pub route4 : Peer → RouteTableEntry
route4 p = record { net = record { ip = p.builtin_addr4; mask = cidr_mask 32 32 }; target = p }

abbrev pub route6 : Peer → RouteTableEntry
route6 p = record { net = record { ip = p.builtin_addr6; mask = cidr_mask 128 128 }; target = p }

-- `[4]byte(p.BuiltinAddr6[12:16])`.
abbrev pub net_id_of : Peer → Bytes
net_id_of p = take 4 (drop 12 p.builtin_addr6)

-- `unicode_lower` is what `strings.ToLower` does to a text that is not ASCII.
module _ {T : Type 0} (rg : Ranger T) (unicode_lower : Bytes → Bytes) where
  -- The entries of the lookup tables that `AddPeer` and `Read` make for a peer.
  unfoldable pub index_peer : Peer → PeerLookup T → PeerLookup T
  unfolding put to_lower
  index_peer p l = record {
    by_route = rg.insert_entry (rg.insert_entry l.by_route (route4 p)) (route6 p);
    by_name =
        if bytes_eq p.name [] then l.by_name else put l.by_name (to_lower unicode_lower p.name) p;
    by_net_id = put l.by_net_id (net_id_of p) p;
  }

  -- It returns no error.
  unfoldable pub add_peer : Config T → Bytes → PeerId → Config T
  unfolding index_peer
  add_peer cfg name id = record cfg {
    peers = cfg.peers ++ mk_peer name id ∷ [];
    peer_lookup = index_peer (mk_peer name id) cfg.peer_lookup;
  }

  -- With a TUN device the last peer is read again, and nothing is done with it.
  unfoldable pub add_peer_with_tun : Config T → Bytes → PeerId → Bool → Outcome (Config T)
  unfolding add_peer
  add_peer_with_tun cfg name id has_tun =
      let cfg' = add_peer cfg name id in
      if has_tun then (elim (get_last? cfg'.peers) [ none ↦ panic | some p ↦ ok cfg' ]) else ok cfg'
