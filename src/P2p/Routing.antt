-- ===== src/P2p/Routing.antt =====
-- p2p/routing.go and p2p/routing_windows.go: the search for a peer by several routings at once, and the
-- gater, which keeps the connections of the daemon out of its own tunnel.
pub mod Tunnel
use mynetwork.Common.{
  ℕ, ◌+◌, min, ltb, Bool, true, false, not, ◌&&◌, ◌==◌, length, List, [], ◌∷◌, ◌++◌, Bytes, codes,
  bytes_eq, Option, none, some, Outcome, ok, err, ◌>>=◌, if◌then◌else◌,
}
use mynetwork.Config.{PeerId, RouteTableEntry, Ranger, Config}
use mynetwork.Config.Lookup.{find_route_for_ip}
use mynetwork.P2p.Pex.{AddrInfo}

-- What a routing does in FindPeer: the milliseconds after which it ends, and what it then gives, by
-- whether its context has been cancelled before; `none` for an error.
pub record Search : Type 0 where
  pub ends : ℕ
  pub answer : Bool → Option (List Bytes)

-- The addresses that the routings found, in the order in which they ended. The context is cancelled at a
-- deadline, and half a second after a routing that found the peer.
unfoldable pub gather : ℕ → List Search → List Bytes
gather deadline [] = []
gather deadline (r ∷ rs) = elim (r.answer (ltb deadline r.ends)) [
  | none ↦ gather deadline rs
  | some addrs ↦ addrs ++ gather (min deadline (r.ends + 500)) rs
]

-- `ParallelRouting.FindPeer`, whose context has a timeout of 30 seconds.
unfoldable pub parallel_find_peer : PeerId → List Search → Outcome AddrInfo
unfolding gather
parallel_find_peer p results = ok (record { id = p; addrs = gather 30000 results })

-- On Windows nothing but the timeout cancels.
unfoldable pub windows_gather : List Search → List Bytes
windows_gather [] = []
windows_gather (r ∷ rs) = elim (r.answer (ltb 30000 r.ends)) [
  | none ↦ windows_gather rs
  | some addrs ↦ addrs ++ windows_gather rs
]

unfoldable pub windows_find_peer : PeerId → List Search → Outcome AddrInfo
unfolding windows_gather
windows_find_peer p results =
    let addrs = windows_gather results in
    if length addrs == 0
    then err (codes "routing: not found")
    else ok (record { id = p; addrs = addrs })

-- `NewRecursionGater`, with the link of the interface; its error is a panic.
unfoldable pub new_recursion_gater : Outcome ℕ → Outcome ℕ
new_recursion_gater (ok index) = ok index
new_recursion_gater _ = Outcome.panic

-- Whether the first of the kernel's routes to an address goes through a link.
unfoldable pub first_is : Option (List ℕ) → ℕ → Bool
first_is none ifindex = false
first_is (some []) ifindex = false
first_is (some (link ∷ rest)) ifindex = link == ifindex

module _ {T : Type 0} (rg : Ranger T) (config : Config T) where
  -- `InterceptAddrDial`: the IPv4 address of the multiaddress, if it has one, and whether it may be
  -- dialled. The address stands in four bytes; ParseIP's sixteen are the same address for the route table
  -- and for the kernel.
  unfoldable pub intercept_addr_dial :
      (Bytes → Option (List ℕ)) → ℕ → PeerId → Option Bytes → Outcome Bool
  unfolding find_route_for_ip bytes_eq first_is
  intercept_addr_dial route_get ifindex pid none = ok true
  intercept_addr_dial route_get ifindex pid (some ip) = do
    found ← find_route_for_ip rg config ip
    ok (elim found [
      | none ↦ true
      | some rte ↦ not (bytes_eq rte.target.id pid && first_is (route_get ip) ifindex)
    ])

  unfoldable pub windows_intercept_addr_dial : PeerId → Option Bytes → Outcome Bool
  unfolding find_route_for_ip bytes_eq
  windows_intercept_addr_dial pid none = ok true
  windows_intercept_addr_dial pid (some ip) = do
    found ← find_route_for_ip rg config ip
    ok (elim found [ none ↦ true | some rte ↦ not (bytes_eq rte.target.id pid) ])

-- `InterceptPeerDial`, `InterceptAccept`, `InterceptSecured` and `InterceptUpgraded` allow everything.
abbrev pub intercept_others : Bool
intercept_others = true
