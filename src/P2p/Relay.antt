-- ===== src/P2p/Relay.antt =====
-- p2p/relay.go: who may use this node as a relay.
use mynetwork.Common.{Bool, ◌||◌, List, is_some}
use mynetwork.Config.{PeerId, Peer}
use mynetwork.Config.Lookup.{find_peer}

unfoldable pub allow_reserve : List Peer → PeerId → Bool
unfolding find_peer
allow_reserve allowed_peers p = is_some (find_peer allowed_peers p)

unfoldable pub allow_connect : List Peer → PeerId → PeerId → Bool
unfolding find_peer
allow_connect allowed_peers src dest =
    is_some (find_peer allowed_peers src) || is_some (find_peer allowed_peers dest)
