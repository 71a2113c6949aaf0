-- ===== src/Tun/Linux.antt =====
-- tun/tun_linux.go: the device on Linux. The packages water and netlink are parameters.
pub mod Undone
pub mod Missing
use mynetwork.Common.{ℕ, ◌⊎◌, inl, inr, Option, none, some, List, Bytes, codes, IpNet}
use mynetwork.Tun.{water_iface, iface_name, Tun, new_tun, Machine, OptionFunc, apply, Driver}

-- `netlink.Route`, with the fields that are filled.
pub record Route : Type 0 where
  pub link_index : ℕ
  pub dst : IpNet
  pub priority : ℕ

-- The calls of water and netlink: W is the state of the system, A an address. A link is known by its
-- index; a call gives an error or what it is for.
pub record Netlink (W A : Type 0) : Type 0 where
  pub water_new : W → Bytes → W × (Bytes ⊎ Bytes)
  pub link_by_name : W → Bytes → Bytes ⊎ ℕ
  pub parse_addr : Bytes → Bytes ⊎ A
  pub link_set_mtu : W → ℕ → ℕ → W × Option Bytes
  pub addr_add : W → ℕ → A → W × Option Bytes
  pub route_add : W → Route → W × Option Bytes
  pub route_del : W → Route → W × Option Bytes
  pub link_set_up : W → ℕ → W × Option Bytes
  pub link_set_down : W → ℕ → W × Option Bytes
  pub link_del : W → ℕ → W × Option Bytes

module _ {W A : Type 0} (nl : Netlink W A) where
  -- `LinkByName` of the interface, and a call that takes the link.
  unfoldable pub on_link : (ℕ → W → W × Option Bytes) → OptionFunc W
  on_link call (t, w) = elim (nl.link_by_name w (iface_name t.iface)) [
    | inl e ↦ ((t, w), some e)
    | inr link ↦ let (w', failed) = call link w in ((t, w'), failed)
  ]

  unfoldable pub set_mtu : ℕ → OptionFunc W
  unfolding on_link
  set_mtu mtu = on_link (λ link w. nl.link_set_mtu w link mtu)

  unfoldable pub set_address : Bytes → OptionFunc W
  unfolding on_link
  set_address address m = elim (nl.parse_addr address) [
    | inl e ↦ (m, some e)
    | inr addr ↦ on_link (λ link w. nl.addr_add w link addr) m
  ]

  unfoldable pub set_dest_address : Bytes → OptionFunc W
  set_dest_address address m =
      (m, some (codes "destination addresses are not supported under linux"))

  -- The priority of the routes is 3000.
  unfoldable pub add_route : IpNet → OptionFunc W
  unfolding on_link
  add_route network =
      on_link
        (λ link w. nl.route_add w (record { link_index = link; dst = network; priority = 3000 }))

  unfoldable pub del_route : IpNet → OptionFunc W
  unfolding on_link
  del_route network =
      on_link
        (λ link w. nl.route_del w (record { link_index = link; dst = network; priority = 3000 }))

  unfoldable pub up : OptionFunc W
  unfolding on_link
  up = on_link (λ link w. nl.link_set_up w link)

  unfoldable pub down : OptionFunc W
  unfolding on_link
  down = on_link (λ link w. nl.link_set_down w link)

  -- `Delete`, for a device that may be another's.
  unfoldable pub delete : Bytes → W → W × Option Bytes
  delete name w = elim (nl.link_by_name w name) [
    | inl e ↦ (w, some e)
    | inr link ↦ nl.link_del w link
  ]

  abbrev pub linux : Driver W
  linux = record {
    set_mtu = set_mtu;
    set_address = set_address;
    set_dest_address = set_dest_address;
    add_route = add_route;
    del_route = del_route;
  }

  -- `New`: no device when water fails, and the device with the error of an option.
  unfoldable pub new : Bytes → List (Option (OptionFunc W)) → W → (Option Tun × W) × Option Bytes
  unfolding apply
  new name opts w =
      let (w1, made) = nl.water_new w name in
      elim made [
        | inl e ↦ ((none, w1), some e)
        | inr iface ↦
            let ((t, w2), failed) = apply opts (new_tun (water_iface iface), w1) in
            ((some t, w2), failed)
      ]
