-- ===== src/Tun/Linux/Missing.antt =====
-- What a call on Linux does for a device that is gone.
use mynetwork.Common.{ℕ, ◌≡◌, refl, inl, inr, some, Bytes, IpNet}
use mynetwork.Tun.{iface_name, Tun}
use mynetwork.Tun.Linux.{
  Netlink, on_link, set_mtu, set_address, add_route, del_route, up, down, delete,
}

module _ {W A : Type 0} (nl : Netlink W A) where
  -- When the system has no link of the name of the interface, setMTU, addRoute, delRoute, Up and Down
  -- return the error of the lookup, so do Delete and, for an address that can be parsed, setAddress; and
  -- neither the device nor the system is changed.
  pub on_link-error :
      (t : Tun) (w : W) (error : Bytes) (mtu : ℕ) (address : Bytes) (addr : A) (n : IpNet)
      → nl.link_by_name w (iface_name t.iface) ≡ inl error
      → nl.parse_addr address ≡ inr addr
      → (set_mtu nl mtu (t, w) ≡ ((t, w), some error))
        × (set_address nl address (t, w) ≡ ((t, w), some error))
        × (add_route nl n (t, w) ≡ ((t, w), some error))
        × (del_route nl n (t, w) ≡ ((t, w), some error))
        × (up nl (t, w) ≡ ((t, w), some error))
        × (down nl (t, w) ≡ ((t, w), some error))
        × (delete nl (iface_name t.iface) w ≡ (w, some error))
  unfolding set_mtu set_address add_route del_route up down delete on_link
  on_link-error t w error mtu address addr n missing parsed = (
    rw (on_link, missing) refl,
    rw (set_address, parsed, on_link, missing) refl,
    rw (on_link, missing) refl,
    rw (on_link, missing) refl,
    rw (on_link, missing) refl,
    rw (on_link, missing) refl,
    rw (delete, missing) refl,
  )
