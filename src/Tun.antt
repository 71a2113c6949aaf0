-- ===== src/Tun.antt =====
-- tun/tun.go and tun/options.go: the TUN device and the options that configure it. An option is a
-- function on the device and on the system, and a nil option is `none`.
pub mod Applied
pub mod Linux
pub mod Windows
pub mod Darwin
use mynetwork.Common.{ℕ, Option, none, some, List, [], ◌∷◌, Bytes, IpNet}

-- `Interface`, with the names of the interfaces: nil, that of the package water, and that of
-- tun_windows.go with the LUID of its device.
pub data Iface : Type 0 where
  no_iface : Iface
  water_iface : Bytes → Iface
  wintun_iface : Bytes → ℕ → Iface

-- `Name`; it is not called on a nil interface.
abbrev pub iface_name : Iface → Bytes
iface_name no_iface = []
iface_name (water_iface name) = name
iface_name (wintun_iface name luid) = name

pub record Tun : Type 0 where
  pub iface : Iface
  pub mtu : ℕ
  pub src : Bytes
  pub dst : Bytes
  pub addresses : List Bytes

-- The device that New starts from.
abbrev pub new_tun : Iface → Tun
new_tun iface = record { iface = iface; mtu = 0; src = []; dst = []; addresses = [] }

-- The device and the system, which the options change; W is the state of the system.
abbrev pub Machine : Type 0 → Type 0
Machine W = Tun × W

-- `Option`.
abbrev pub OptionFunc : Type 0 → Type 0
OptionFunc W = Machine W → Machine W × Option Bytes

module _ {W : Type 0} where
  -- `Apply`.
  unfoldable pub apply : List (Option (OptionFunc W)) → Machine W → Machine W × Option Bytes
  apply [] m = (m, none)
  apply (none ∷ opts) m = apply opts m
  apply (some opt ∷ opts) m =
      let (m', failed) = opt m in elim failed [ some e ↦ (m', some e) | none ↦ apply opts m' ]

-- What each system provides for the options.
pub record Driver (W : Type 0) : Type 0 where
  pub set_mtu : ℕ → OptionFunc W
  pub set_address : Bytes → OptionFunc W
  pub set_dest_address : Bytes → OptionFunc W
  pub add_route : IpNet → OptionFunc W
  pub del_route : IpNet → OptionFunc W

module _ {W : Type 0} (d : Driver W) where
  -- `Address`, `MTU`, `DestAddress`, `Route` and `RemoveRoute`.
  unfoldable pub address : Bytes → Option (OptionFunc W)
  address addr = some (d.set_address addr)

  unfoldable pub mtu_option : ℕ → Option (OptionFunc W)
  mtu_option mtu = some (d.set_mtu mtu)

  unfoldable pub dest_address : Bytes → Option (OptionFunc W)
  dest_address addr = some (d.set_dest_address addr)

  unfoldable pub route_option : IpNet → Option (OptionFunc W)
  route_option dest = some (d.add_route dest)

  unfoldable pub remove_route_option : IpNet → Option (OptionFunc W)
  remove_route_option dest = some (d.del_route dest)
