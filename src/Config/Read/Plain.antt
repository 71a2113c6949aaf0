-- ===== src/Config/Read/Plain.antt =====
-- `Read` of a file without peers and services.
use mynetwork.Common.{◌≡◌, [], List, Bytes, ok}
use mynetwork.Config.{PeerId, Ranger, Config}
use mynetwork.Config.Ids.{mk_builtin_addr4, mk_builtin_addr6}
use mynetwork.Config.Read.{Decoders, read_addresses, read_peers, read_services, read}

-- The configuration of a node that knows no peers.
unfoldable pub lone_config :
    {T : Type 0} → Ranger T → Bytes → Bytes → PeerId → List Bytes → Config T
lone_config rg path key id addrs = record {
  path = path;
  interface = [];
  listen_addresses = addrs;
  peers = [];
  peer_lookup = record { by_route = rg.empty; by_name = []; by_net_id = [] };
  private_key = key;
  builtin_addr4 = mk_builtin_addr4 id;
  builtin_addr6 = mk_builtin_addr6 id;
  services = [];
}

module _ {T : Type 0} (rg : Ranger T) (u : Bytes → Bytes) (d : Decoders) where
  pub read-lone_config :
      (path in_bytes text key_bytes key : Bytes) (id : PeerId) (listen addrs : List Bytes)
      → d.read_file path ≡ ok in_bytes
      → d.unmarshal_json in_bytes
        ≡ ok (record { listen_addresses = listen; private_key = text; peers = []; services = [] })
      → d.multibase_decode text ≡ ok key_bytes
      → d.unmarshal_private_key key_bytes ≡ ok key
      → d.id_from_private_key key ≡ ok id
      → read_addresses rg u d listen ≡ ok addrs
      → read rg u d path ≡ ok (lone_config rg path key id addrs)
  unfolding read read_peers read_services lone_config
  read-lone_config path in_bytes text key_bytes key id listen addrs file json base back own
        decoded =
      rw (file, json, base, back, own, decoded)
