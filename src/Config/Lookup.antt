-- ===== src/Config/Lookup.antt =====
-- config/config.go: the linear searches over the peers, and the searches in the route table.
use mynetwork.Common.{
  Bool, List, [], ◌∷◌, Option, none, some, Bytes, bytes_eq, has_prefix, trim_prefix, if◌then◌else◌,
  Outcome, ok, err, panic, fatal, IpNet, codes,
}
use mynetwork.Config.{PeerId, Peer, RouteTableEntry, Ranger, Config}

-- The loop that the searches share: the first peer that passes the test.
unfoldable pub find_first : (Peer → Bool) → List Peer → Option Peer
find_first test [] = none
find_first test (p ∷ ps) = if test p then some p else find_first test ps

unfoldable pub find_peer : List Peer → PeerId → Option Peer
unfolding find_first
find_peer peers needle = find_first (λ p. bytes_eq p.id needle) peers

unfoldable pub find_peer_by_name : List Peer → Bytes → Option Peer
unfolding find_first
find_peer_by_name peers needle = find_first (λ p. bytes_eq p.name needle) peers

-- `id_string` is `peer.ID.String`.
module _ (id_string : PeerId → Bytes) where
  unfoldable pub find_peer_by_id_prefix : List Peer → Bytes → Option Peer
  unfolding find_first
  find_peer_by_id_prefix peers needle = find_first (λ p. has_prefix (id_string p.id) needle) peers

  unfoldable pub find_peer_by_cli_ref : List Peer → Bytes → Option Peer
  unfolding find_peer_by_id_prefix find_peer_by_name
  find_peer_by_cli_ref peers needle =
      if has_prefix needle (codes "@")
      then find_peer_by_name peers (trim_prefix needle (codes "@"))
      else find_peer_by_id_prefix peers needle

-- What both route searches do with the networks found. Entries are inserted as pointers, and the
-- warning about a second one asserts the type `RouteTableEntry` itself, which is a panic.
unfoldable pub pick_route : Outcome (List RouteTableEntry) → Outcome (Option RouteTableEntry)
pick_route (ok []) = ok none
pick_route (ok (e ∷ [])) = ok (some e)
pick_route (ok (e ∷ f ∷ es)) = panic
pick_route (err m) = ok none
pick_route panic = panic
pick_route fatal = fatal

module _ {T : Type 0} (rg : Ranger T) where
  unfoldable pub find_route : Config T → IpNet → Outcome (Option RouteTableEntry)
  unfolding pick_route
  find_route cfg needle = pick_route (rg.covered_networks cfg.peer_lookup.by_route needle)

  unfoldable pub find_route_for_ip : Config T → Bytes → Outcome (Option RouteTableEntry)
  unfolding pick_route
  find_route_for_ip cfg needle = pick_route (rg.containing_networks cfg.peer_lookup.by_route needle)
