-- ===== src/Checks/OfConfig.antt =====
-- Instances and tests of the package config.
use mynetwork.Common.{
  ◌≡◌, refl, ◌++◌, [], ◌∷◌, List, Bytes, codes, put, bytes_eq, ok, some, trim_prefix,
}
use mynetwork.Config.{Peer, RouteTableEntry, Config}
use mynetwork.Config.Ids.{mk_builtin_addr4, mk_builtin_addr6, mk_service_id, addr6_prefix}
use mynetwork.Config.Lookup.{find_peer_by_cli_ref}
use mynetwork.Config.Update.{mk_peer, add_peer}
use mynetwork.Config.Consistency.{IsConsistent, IsRouted, add_peer-IsIndexed}
use mynetwork.Config.Read.{Decoders, read}
use mynetwork.Config.Read.Result.{IsReadFrom, read-IsReadFrom, empty-IsIndexed}
use mynetwork.Config.ListRanger.{list_ranger}

abbrev pub keep : Bytes → Bytes
keep s = s

-- A configuration with no peer.
abbrev pub blank : Config (List RouteTableEntry)
blank = record {
  path = codes "/etc/c.json";
  interface = codes "ms0";
  listen_addresses = [];
  peers = [];
  peer_lookup = record { by_route = []; by_name = []; by_net_id = [] };
  private_key = [];
  builtin_addr4 = 100 ∷ 64 ∷ 1 ∷ 2 ∷ [];
  builtin_addr6 = addr6_prefix ++ 0 ∷ 0 ∷ 0 ∷ 0 ∷ [];
  services = [];
}

addr4_of_id : mk_builtin_addr4 (1 ∷ 2 ∷ 4 ∷ []) ≡ 100 ∷ 64 ∷ 4 ∷ 0 ∷ []
unfolding mk_builtin_addr4
addr4_of_id = refl

service_a : mk_service_id (codes "ab") ≡ 0xff ∷ 0x9c ∷ []
unfolding mk_service_id
service_a = refl

abbrev pub alice : Peer
alice = mk_peer (codes "alice") (codes "QmA")

abbrev pub bob : Peer
bob = mk_peer (codes "bob") (codes "QmB")

cli_ref_test : find_peer_by_cli_ref keep (alice ∷ bob ∷ []) (codes "@bob") ≡ some bob
unfolding find_peer_by_cli_ref trim_prefix bytes_eq
cli_ref_test = refl

add_peer-IsIndexed_example :
    let cfg = add_peer list_ranger keep blank (codes "alice") (codes "QmA") in
    IsConsistent list_ranger keep cfg
    × (cfg.peers ≡ [] ++ mk_peer (codes "alice") (codes "QmA") ∷ [])
unfolding list_ranger
add_peer-IsIndexed_example =
    add_peer-IsIndexed list_ranger keep blank (codes "alice") (codes "QmA")
      (empty-IsIndexed keep, IsRouted.no_peers)

-- 10.0.0.0/8 by way of alice and 10.1.0.0/16 by way of bob.
abbrev pub wide : RouteTableEntry
wide = record {
  net = record { ip = 10 ∷ 0 ∷ 0 ∷ 0 ∷ []; mask = 255 ∷ 0 ∷ 0 ∷ 0 ∷ [] };
  target = alice;
}

abbrev pub narrow : RouteTableEntry
narrow = record {
  net = record { ip = 10 ∷ 1 ∷ 0 ∷ 0 ∷ []; mask = 255 ∷ 255 ∷ 0 ∷ 0 ∷ [] };
  target = bob;
}

abbrev pub with_wide : Config (List RouteTableEntry)
with_wide = record blank {
  peer_lookup = record { by_route = wide ∷ []; by_name = []; by_net_id = [] };
}

-- A file with one peer and one route.
abbrev decoders : Decoders
decoders = record {
  read_file = λ p. ok p;
  unmarshal_json = λ s. ok (record {
    listen_addresses = codes "/ip4/0.0.0.0/tcp/8001" ∷ [];
    private_key = codes "k";
    peers =
        record {
          id = codes "QmA";
          name = codes "alice";
          routes = record { net = codes "10.0.0.0/8" } ∷ [];
        }
        ∷ [];
    services = (codes "web", codes "/tcp/80") ∷ [];
  });
  multibase_decode = λ s. ok s;
  unmarshal_private_key = λ s. ok s;
  id_from_private_key = λ s. ok s;
  new_multiaddr = λ s. ok s;
  peer_decode = λ s. ok s;
  parse_cidr = λ s. ok (record { ip = 10 ∷ 0 ∷ 0 ∷ 0 ∷ []; mask = 255 ∷ 0 ∷ 0 ∷ 0 ∷ [] });
}

abbrev read_back : Config (List RouteTableEntry)
read_back = record (add_peer list_ranger keep with_wide (codes "alice") (codes "QmA")) {
  path = codes "f";
  interface = [];
  listen_addresses = codes "/ip4/0.0.0.0/tcp/8001" ∷ [];
  private_key = codes "k";
  builtin_addr4 = mk_builtin_addr4 (codes "k");
  builtin_addr6 = mk_builtin_addr6 (codes "k");
  services = (codes "web", codes "/tcp/80") ∷ [];
}

read-IsReadFrom_example : IsReadFrom list_ranger keep decoders (codes "f") read_back
unfolding read add_peer list_ranger put
read-IsReadFrom_example = read-IsReadFrom list_ranger keep decoders (codes "f") refl
