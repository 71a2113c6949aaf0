-- ===== src/Tun/Darwin.antt =====
-- tun/tun_darwin.go: the device on macOS. The package water and the command ifconfig are parameters.
-- The file has no addRoute and no delRoute.
use mynetwork.Common.{
  ℕ, ◌≡◌, refl, ap, ◌∙◌, ◌⊎◌, inl, inr, Option, none, some, List, [], ◌∷◌, ◌++◌, map, Bytes, codes,
}
use mynetwork.Tun.{water_iface, iface_name, Tun, new_tun, OptionFunc, apply}

pub record Mac (W : Type 0) : Type 0 where
  pub water_new : W → W × (Bytes ⊎ Bytes)
  pub command : W → List Bytes → W × Option Bytes
  pub decimal : ℕ → Bytes

module _ {W : Type 0} (mac : Mac W) where
  -- `ifconfig` with arguments that depend on the device.
  unfoldable pub ifconfig : (Tun → List Bytes) → OptionFunc W
  ifconfig args (t, w) = let (w', failed) = mac.command w (args t) in ((t, w'), failed)

  unfoldable pub set_mtu : ℕ → OptionFunc W
  unfolding ifconfig
  set_mtu mtu = ifconfig (λ t. iface_name t.iface ∷ codes "mtu" ∷ mac.decimal mtu ∷ [])

  unfoldable pub set_address : Bytes → OptionFunc W
  set_address address (t, w) = ((record t { src = address }, w), none)

  unfoldable pub set_dest_address : Bytes → OptionFunc W
  set_dest_address address (t, w) = ((record t { dst = address }, w), none)

  unfoldable pub up : OptionFunc W
  unfolding ifconfig
  up = ifconfig (λ t. iface_name t.iface ∷ codes "inet" ∷ t.src ∷ t.dst ∷ codes "up" ∷ [])

  unfoldable pub down : OptionFunc W
  unfolding ifconfig
  down = ifconfig (λ t. iface_name t.iface ∷ codes "down" ∷ [])

  -- `Delete` of a name.
  unfoldable pub delete : Bytes → W → W × Option Bytes
  delete name w = (w, some (codes "removing an interface is unsupported under mac"))

  -- `New`, which does not use its name, with what water made.
  unfoldable pub new_from :
      List (Option (OptionFunc W)) → W × (Bytes ⊎ Bytes) → (Option Tun × W) × Option Bytes
  unfolding apply
  new_from opts (w, inl e) = ((none, w), some e)
  new_from opts (w, inr iface) =
      let ((t, w'), failed) = apply opts (new_tun (water_iface iface), w) in ((some t, w'), failed)

  unfoldable pub new : Bytes → List (Option (OptionFunc W)) → W → (Option Tun × W) × Option Bytes
  unfolding new_from
  new name opts w = new_from opts (mac.water_new w)

  -- Addresses that are set one after the other: the device keeps the last.
  apply-set_address :
      (addresses : List Bytes) (last : Bytes) (t : Tun) (w : W)
      → apply (map (λ a. some (set_address a)) (addresses ++ last ∷ [])) (t, w)
        ≡ ((record t { src = last }, w), none)
  unfolding apply set_address
  apply-set_address [] last t w = refl
  apply-set_address (a ∷ addresses) last t w =
      apply-set_address addresses last (record t { src = a }) w

  -- On macOS, New with Address options for any addresses and a last one gives a device without an
  -- error, when water makes an interface, and Up on that device runs ifconfig once, with the last
  -- address as the only one, as an `inet` address, and with an empty destination: the addresses before
  -- the last are never configured.
  pub new-up_last :
      (name iface last : Bytes) (addresses : List Bytes) (w w1 : W)
      → mac.water_new w ≡ (w1, inr iface)
      → (t : Tun) × (new name (map (λ a. some (set_address a)) (addresses ++ last ∷ [])) w
          ≡ ((some t, w1), none))
        × (up (t, w1) ≡ (
          (t, (mac.command w1 (iface ∷ codes "inet" ∷ last ∷ [] ∷ codes "up" ∷ [])).0),
          (mac.command w1 (iface ∷ codes "inet" ∷ last ∷ [] ∷ codes "up" ∷ [])).1,
        ))
  unfolding new new_from up ifconfig
  new-up_last name iface last addresses w w1 made =
      let opts = map (λ a. some (set_address a)) (addresses ++ last ∷ []) in
      (
        record (new_tun (water_iface iface)) { src = last },
        ap (new_from opts) made
            ∙ ap (λ r. ((some r.0.0, r.0.1), r.1))
                (apply-set_address addresses last (new_tun (water_iface iface)) w1),
        refl,
      )
