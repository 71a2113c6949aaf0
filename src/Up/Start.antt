-- ===== src/Up/Start.antt =====
-- cli/up.go: what `UpRun` does before the packet loop: the TUN device, its routes, the service network
-- and its services. The host and the servers that it starts are left out.
pub mod Services
pub mod Routes
pub mod Finish
use mynetwork.Common.{
  ℕ, ◌+◌, ◌*◌, Bool, true, false, List, [], ◌∷◌, ◌++◌, map, Bytes, codes, bytes_eq, take, drop,
  length, ◌==◌, Option, none, some, Outcome, ok, err, panic, fatal, ◌>>=◌, if◌then◌else◌, IpNet,
  cidr_mask, Dict,
}
use mynetwork.Config.{PeerId, Peer, RouteTableEntry, Ranger, Config}
use mynetwork.Config.Ids.{mk_net_id}
use mynetwork.Svc.{ServiceNetwork, Proxy}
use mynetwork.Svc.Proxies.{Component, proxy_to}
use mynetwork.Svc.Network.{register}
use mynetwork.Rpc.Server.{all_ipv4, all_ipv6}
use mynetwork.Tun.{Tun, Machine, OptionFunc, apply, Driver, address, mtu_option, route_option}
use mynetwork.Up.Routing.{network_range}

-- The name of the interface, and `getDefaultConfigPath`, where `%APPDATA%` and filepath.Join are
-- parameters.
unfoldable pub interface_name : Bytes → Bytes
unfolding bytes_eq
interface_name flag = if bytes_eq flag [] then codes "mynetwork" else flag

unfoldable pub get_default_config_path : Option (List Bytes → Bytes) → Bytes → Bytes → Bytes
get_default_config_path (some join) app_data if_name =
    join (app_data ∷ codes "mynetwork" ∷ (if_name ++ codes ".json") ∷ [])
get_default_config_path none app_data if_name = codes "/etc/mynetwork/" ++ if_name ++ codes ".json"

-- `checkErr`.
unfoldable pub check_err : {A : Type 0} → Outcome A → Outcome A
check_err (ok value) = ok value
check_err (err message) = fatal
check_err fatal = fatal
check_err panic = panic

-- The options of the device, with the text of an address.
unfoldable pub device_options :
    {T W : Type 0} → Driver W → (Bytes → Bytes) → Config T → List (Option (OptionFunc W))
unfolding address mtu_option
device_options d ip_string config =
    address d (ip_string config.builtin_addr4 ++ codes "/32")
    ∷ address d (ip_string config.builtin_addr6 ++ codes "/128")
    ∷ mtu_option d 1420
    ∷ []

-- The networks of the route table.
unfoldable pub config_routes : {T : Type 0} → Ranger T → Config T → Outcome (List IpNet)
unfolding check_err
config_routes rg config = do
  all_routes4 ← check_err (rg.covered_networks config.peer_lookup.by_route all_ipv4)
  all_routes6 ← check_err (rg.covered_networks config.peer_lookup.by_route all_ipv6)
  ok (map (λ r. r.net) all_routes4 ++ map (λ r. r.net) all_routes6)

-- `IPMask.Size`: the bits of a mask of ones and then zeros, and all its bits; else 0 and 0.
byte_ones : ℕ → Option ℕ
byte_ones v =
    if v == 0
    then some 0
    else if v == 128
    then some 1
    else if v == 192
    then some 2
    else if v == 224
    then some 3
    else if v == 240
    then some 4
    else if v == 248
    then some 5
    else if v == 252
    then some 6
    else if v == 254
    then some 7
    else none

all_zero : Bytes → Bool
all_zero [] = true
all_zero (v ∷ mask) = let rest = all_zero mask in if v == 0 then rest else false

simple_mask_length : Bytes → Option ℕ
unfolding byte_ones all_zero
simple_mask_length [] = some 0
simple_mask_length (v ∷ mask) =
    let more = simple_mask_length mask in
    if v == 255
    then (elim more [ none ↦ none | some n ↦ some (8 + n) ])
    else if all_zero mask
    then byte_ones v
    else none

unfoldable pub mask_size : Bytes → ℕ × ℕ
unfolding simple_mask_length
mask_size mask = elim (simple_mask_length mask) [
  | none ↦ (0, 0)
  | some ones ↦ (ones, 8 * length mask)
]

-- `copy(addr[from:], bytes)`, for bytes that fit.
unfoldable pub copy_at : ℕ → Bytes → Bytes → Bytes
copy_at from bytes addr = take from addr ++ (bytes ++ drop (from + length bytes) addr)

-- The route for the services of one node.
unfoldable pub service_route : Bytes → IpNet
unfolding copy_at mask_size cidr_mask
service_route net_id =
    let (mask1, mask0) = mask_size network_range.mask in
    record { ip = copy_at 10 net_id network_range.ip; mask = cidr_mask (mask1 + 32) mask0 }

-- One for each peer, and then the node's own.
unfoldable pub service_routes : List Peer → PeerId → List IpNet
unfolding service_route mk_net_id
service_routes [] self = service_route (mk_net_id self) ∷ []
service_routes (p ∷ peers) self = service_route (mk_net_id p.id) ∷ service_routes peers self

-- The loop over the services of the configuration, whose addresses are given as components.
unfoldable pub register_services :
    {T : Type 0}
    → (Bytes → List Component)
    → List (Bytes × Bytes)
    → ServiceNetwork T
    → Outcome (ServiceNetwork T)
unfolding check_err proxy_to register
register_services components [] sn = ok sn
register_services components ((name, addr) ∷ services) sn = do
  proxy ← check_err (proxy_to (components addr))
  register_services components services (register sn name proxy)

module _ {W : Type 0} (write_lock : W → W × Option Bytes) (up : OptionFunc W) (d : Driver W) where
  -- The end: the lock is written, the device is brought up, and the routes are applied; every error
  -- ends the process.
  unfoldable pub apply_routes :
      List IpNet → Machine W × Option Bytes → Machine W × Outcome (Unit {0})
  unfolding apply route_option
  apply_routes nets (m, some e) = (m, fatal)
  apply_routes nets (m, none) =
      let (m', failed) = apply (map (route_option d) nets) m in
      (m', elim failed [ some e ↦ fatal | none ↦ ok tt ])

  unfoldable pub bring_up : List IpNet → Tun → W × Option Bytes → Machine W × Outcome (Unit {0})
  unfolding apply_routes
  bring_up nets t (w, some e) = ((t, w), fatal)
  bring_up nets t (w, none) = apply_routes nets (up (t, w))

  unfoldable pub finish : List IpNet → Machine W → Machine W × Outcome (Unit {0})
  unfolding bring_up
  finish nets (t, w) = bring_up nets t (write_lock w)
