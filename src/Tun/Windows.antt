-- ===== src/Tun/Windows.antt =====
-- tun/tun_windows.go: the device on Windows. The packages wintun and winipcfg, the command netsh and
-- the parser of addresses are parameters.
pub mod Address
pub mod Configured
pub mod Skipped
use mynetwork.Common.{
  ℕ, ◌*◌, ◌<◌, ltb, leb, ◌==◌, Bool, true, false, not, ◌&&◌, ◌||◌, any, ◌⊎◌, inl, inr, Option, none,
  some, is_some, List, [], ◌∷◌, ◌++◌, Bytes, codes, bytes_eq, contains, split, length, IpNet, to4,
  to16, Outcome, panic, fatal, ok, err, ◌>>=◌, if◌then◌else◌, get_or,
}
use mynetwork.Tun.{
  Iface, no_iface, water_iface, wintun_iface, iface_name, Tun, new_tun, Machine, OptionFunc, apply,
  Driver,
}
use mynetwork.Tun.Windows.Address.{Scanner, Prefix, parse_addresses}

-- The calls of the system: W is its state, R a row of the table of IP interfaces. A command gives its
-- output and perhaps an error.
pub record System (W R : Type 0) : Type 0 where
  pub create_tun : W → Bytes → ℕ → W × (Bytes ⊎ (Bytes × ℕ))
  pub command : W → List Bytes → W × (Bytes × Option Bytes)
  pub set_ip_addresses : W → ℕ → List Prefix → W × Option Bytes
  pub ip_interface : W → ℕ → Bytes → Option R
  pub set_row : W → R → ℕ → W
  pub decimal : ℕ → Bytes
  pub net_string : IpNet → Bytes
  pub scanner : Scanner

-- `ipv4` or `ipv6`, by the network's address.
abbrev pub family : IpNet → Bytes
family dest = if length (to4 dest.ip) == 0 then codes "ipv6" else codes "ipv4"

-- Whether a line of the output names the network and the interface.
unfoldable pub has_line : Bytes → Bytes → Bytes → Bool
unfolding contains split
has_line dest iface output =
    any (λ line. contains line dest && contains line iface) (split b'\n' output)

module _ {W R : Type 0} (sys : System W R) where
  unfoldable pub netsh : List Bytes → W → W × Option Bytes
  netsh args w =
      let (w', (output, failed)) = sys.command w args in
      elim failed [
        | none ↦ (w', none)
        | some e ↦ (w', some (codes "netsh command failed: " ++ e ++ codes ", output: " ++ output))
      ]

  -- netsh as an option: the device stays as it is.
  unfoldable pub run_netsh : List Bytes → OptionFunc W
  unfolding netsh
  run_netsh args (t, w) = let (w', failed) = netsh args w in ((t, w'), failed)

  unfoldable pub set_mtu : ℕ → OptionFunc W
  set_mtu mtu (t, w) = ((record t { mtu = mtu }, w), none)

  unfoldable pub set_address : Bytes → OptionFunc W
  unfolding bytes_eq
  set_address address (t, w) =
      let t' = if bytes_eq t.src [] then record t { src = address } else t in
      ((record t' { addresses = t'.addresses ++ address ∷ [] }, w), none)

  unfoldable pub set_dest_address : Bytes → OptionFunc W
  set_dest_address address m =
      (m, some (codes "destination addresses are not supported under windows"))

  -- `routeExists`, with the result of the command that shows the routes.
  unfoldable pub found_route : IpNet → Bytes → W × (Bytes × Option Bytes) → W × Bool
  unfolding has_line
  found_route dest iface (w, (output, failed)) =
      (w, not (is_some failed) && has_line (sys.net_string dest) iface output)

  unfoldable pub route_exists : IpNet → Bytes → W → W × Bool
  unfolding found_route
  route_exists dest iface w =
      found_route dest iface
        (sys.command w (codes "interface" ∷ family dest ∷ codes "show" ∷ codes "route" ∷ []))

  -- `addRoute`, with the result of routeExists.
  unfoldable pub add_unless_exists : IpNet → Tun → W × Bool → Machine W × Option Bytes
  unfolding run_netsh
  add_unless_exists dest t (w, true) = ((t, w), none)
  add_unless_exists dest t (w, false) =
      run_netsh
        (codes "interface"
          ∷ family dest
          ∷ codes "add"
          ∷ codes "route"
          ∷ sys.net_string dest
          ∷ iface_name t.iface
          ∷ [])
        (t, w)

  unfoldable pub add_route : IpNet → OptionFunc W
  unfolding route_exists add_unless_exists
  add_route dest (t, w) = add_unless_exists dest t (route_exists dest (iface_name t.iface) w)

  unfoldable pub del_route : IpNet → OptionFunc W
  unfolding run_netsh
  del_route dest (t, w) =
      run_netsh
        (codes "interface"
          ∷ family dest
          ∷ codes "delete"
          ∷ codes "route"
          ∷ sys.net_string dest
          ∷ iface_name t.iface
          ∷ [])
        (t, w)

  -- `setupMTU`, `setupAddress` and `setupWintunInterface`, which nothing calls.
  unfoldable pub setup_mtu : ℕ → OptionFunc W
  unfolding run_netsh
  setup_mtu mtu (t, w) =
      run_netsh
        (codes "interface"
          ∷ codes "ipv4"
          ∷ codes "set"
          ∷ codes "subinterface"
          ∷ iface_name t.iface
          ∷ codes "mtu="
          ∷ sys.decimal mtu
          ∷ [])
        (t, w)

  unfoldable pub setup_address : Bytes → OptionFunc W
  unfolding run_netsh
  setup_address address (t, w) =
      run_netsh
        (codes "interface"
          ∷ codes "ip"
          ∷ codes "set"
          ∷ codes "address"
          ∷ codes "name="
          ∷ iface_name t.iface
          ∷ codes "static"
          ∷ address
          ∷ [])
        (t, w)

  unfoldable pub setup_wintun_interface : OptionFunc W
  unfolding run_netsh split
  setup_wintun_interface (t, w) =
      let name = iface_name t.iface in
      let ip = sys.scanner.parse_ip (get_or (split b'/' t.src) 0 []) in
      let args4 =
        codes "ipv4"
        ∷ codes "set"
        ∷ codes "address"
        ∷ (codes "name=" ++ name)
        ∷ codes "static"
        ∷ t.src
        ∷ [] in
      let args6 =
        codes "ipv6"
        ∷ codes "set"
        ∷ codes "address"
        ∷ (codes "interface=" ++ name)
        ∷ (codes "address=" ++ t.src)
        ∷ [] in
      let args = if length (to4 ip) == 0 then args6 else args4 in
      let (m1, failed) = run_netsh (codes "interface" ∷ args) (t, w) in
      let (m2, failed2) =
        run_netsh
          (codes "interface"
            ∷ codes "ipv4"
            ∷ codes "set"
            ∷ codes "subinterface"
            ∷ name
            ∷ (codes "mtu=" ++ sys.decimal t.mtu)
            ∷ [])
          m1 in
      if length ip == 0
      then ((t, w), some (codes "invalid IP address: " ++ t.src))
      else (elim failed [
        | some e ↦ (m1, some (codes "set IP address failed: " ++ e))
        | none ↦ elim failed2 [
          | some e ↦ (m2, some (codes "set MTU failed: " ++ e))
          | none ↦ (m2, none)
        ]
      ])

  abbrev pub windows : Driver W
  windows = record {
    set_mtu = set_mtu;
    set_address = set_address;
    set_dest_address = set_dest_address;
    add_route = add_route;
    del_route = del_route;
  }

  -- `New`, with what wintun made: no device when it failed and when an option fails.
  unfoldable pub new_from :
      List (Option (OptionFunc W)) → W × (Bytes ⊎ (Bytes × ℕ)) → (Option Tun × W) × Option Bytes
  unfolding apply
  new_from opts (w1, inl e) = ((none, w1), some (codes "create TUN device failed: " ++ e))
  new_from opts (w1, inr (iface, luid)) =
      let ((t, w2), failed) = apply opts (new_tun (wintun_iface iface luid), w1) in
      elim failed [ some e ↦ ((none, w2), some e) | none ↦ ((some t, w2), none) ]

  unfoldable pub new : Bytes → List (Option (OptionFunc W)) → W → (Option Tun × W) × Option Bytes
  unfolding new_from
  new name opts w = new_from opts (sys.create_tun w name 1420)

  -- The MTU of the interface in one family; what fails is printed or ignored.
  unfoldable pub set_row_mtu : ℕ → ℕ → Bytes → W → W
  set_row_mtu luid mtu family w = elim (sys.ip_interface w luid family) [
    | none ↦ w
    | some row ↦ sys.set_row w row mtu
  ]

  -- After the call of SetIPAddresses.
  unfoldable pub configured : ℕ → ℕ → W × Option Bytes → W × Option Bytes
  unfolding set_row_mtu
  configured luid mtu (w, some e) = (w, some (codes "failed to set IP addresses: " ++ e))
  configured luid mtu (w, none) =
      let w' = set_row_mtu luid mtu (codes "AF_INET6") (set_row_mtu luid mtu (codes "AF_INET") w) in
      (if ltb 0 mtu then w' else w, none)

  -- `setupWintunWithWinipcfg`, for the addresses of the device.
  unfoldable pub setup_addresses : ℕ → Tun → W → W × Option Bytes
  unfolding configured parse_addresses
  setup_addresses luid t w = elim (parse_addresses sys.scanner t.addresses) [
    | inl e ↦ (w, some e)
    | inr [] ↦ (w, some (codes "no valid addresses specified"))
    | inr (p ∷ ps) ↦ configured luid t.mtu (sys.set_ip_addresses w luid (p ∷ ps))
  ]

  unfoldable pub setup_wintun_with_winipcfg : Tun → W → W × Option Bytes
  unfolding setup_addresses
  setup_wintun_with_winipcfg t w = elim t.iface [
    | wintun_iface name luid ↦ setup_addresses luid t w
    | _ ↦ (w, some (codes "interface is not a WintunInterface"))
  ]

  -- `getWindowsSetupFunc`, and `Up`, which calls its result.
  unfoldable pub get_windows_setup_func : Tun → Option (W → W × Option Bytes)
  unfolding setup_wintun_with_winipcfg bytes_eq
  get_windows_setup_func t = elim t.iface [
    | no_iface ↦ none
    | _ ↦ if bytes_eq t.src [] then none else some (setup_wintun_with_winipcfg t)
  ]

  unfoldable pub up : OptionFunc W
  unfolding get_windows_setup_func
  up (t, w) = elim (get_windows_setup_func t) [
    | none ↦ ((t, w), none)
    | some setup ↦ let (w', failed) = setup w in ((t, w'), failed)
  ]

  unfoldable pub down : OptionFunc W
  down m = (m, none)

  unfoldable pub delete : Bytes → W → W × Option Bytes
  unfolding netsh
  delete name w =
      netsh
        (codes "interface"
          ∷ codes "set"
          ∷ codes "interface"
          ∷ codes "name="
          ∷ name
          ∷ codes "disable"
          ∷ [])
        w
