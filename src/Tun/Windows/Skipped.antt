-- ===== src/Tun/Windows/Skipped.antt =====
-- What is not done on Windows: addresses that cannot be parsed, and routes that seem to exist.
use mynetwork.Common.{
  ℕ, ◌≡◌, refl, sym, ap, ap₂, append_assoc, any-append, contains-append, ◌∙◌, inl, inr, Sum-cases,
  true, false, ◌&&◌, any, none, some, List, [], ◌∷◌, ◌++◌, Bytes, codes, bytes_eq, contains, split,
  arith, Bool-cases, IpNet,
}
use mynetwork.Tun.{wintun_iface, iface_name, Tun}
use mynetwork.Tun.Windows.Address.{Scanner, trim_space, parse_address, parse_addresses}
use mynetwork.Tun.Windows.{
  System, setup_addresses, setup_wintun_with_winipcfg, get_windows_setup_func, up, family, has_line,
  found_route, add_unless_exists, route_exists, add_route,
}

parse_addresses-bad :
    (sc : Scanner) (before : List Bytes) (bad : Bytes) (after : List Bytes) (e : Bytes)
    → bytes_eq (trim_space sc bad) [] ≡ false
    → parse_address sc (trim_space sc bad) ≡ inl e
    → (x : Bytes) × (parse_addresses sc (before ++ bad ∷ after) ≡ inl x)
unfolding parse_addresses
parse_addresses-bad sc [] bad after e full fails = (e, ground (arith, full, fails))
parse_addresses-bad sc (a ∷ before) bad after e full fails =
    let (x, later) = parse_addresses-bad sc before bad after e full fails in
    elim (Bool-cases (bytes_eq (trim_space sc a) [])) [
      | inl empty ↦ (x, ground (arith, empty, later))
      | inr more ↦ elim (Sum-cases (parse_address sc (trim_space sc a))) [
        | inl (y, bad_too) ↦ (y, ground (arith, more, bad_too))
        | inr (p, fine) ↦ (x, ground (arith, more, fine, later))
      ]
    ]

module _ {W R : Type 0} (sys : System W R) where
  up-setup_addresses :
      (name : Bytes) (luid : ℕ) (t : Tun) (w : W)
      → t.iface ≡ wintun_iface name luid
      → bytes_eq t.src [] ≡ false
      → up sys (t, w) ≡ ((t, (setup_addresses sys luid t w).0), (setup_addresses sys luid t w).1)
  unfolding up get_windows_setup_func setup_wintun_with_winipcfg
  up-setup_addresses name luid t w device full = ground (arith, device, full)

  -- On Windows, when one of the addresses of a device of New that has a first address is not empty
  -- after TrimSpace and is refused as an address with a prefix, then Up returns an error and has not
  -- called the system: neither the addresses in front of the bad one nor the MTU are set.
  pub up-bad_address :
      (name : Bytes) (luid : ℕ) (t : Tun) (w : W) (before : List Bytes) (bad : Bytes)
      (after : List Bytes) (e : Bytes)
      → t.iface ≡ wintun_iface name luid
      → bytes_eq t.src [] ≡ false
      → t.addresses ≡ before ++ bad ∷ after
      → bytes_eq (trim_space sys.scanner bad) [] ≡ false
      → parse_address sys.scanner (trim_space sys.scanner bad) ≡ inl e
      → (x : Bytes) × (up sys (t, w) ≡ ((t, w), some x))
  unfolding setup_addresses
  up-bad_address name luid t w before bad after e device full parts nonempty fails =
      let (x, refused) = parse_addresses-bad sys.scanner before bad after e nonempty fails in
      let parsed = ap (parse_addresses sys.scanner) parts ∙ refused in
      let set : setup_addresses sys luid t w ≡ (w, some x) = rw (setup_addresses, parsed) refl in
      (x, up-setup_addresses name luid t w device full ∙ ap (λ r. ((t, r.0), r.1)) set)

  has_line-occurring :
      (dest iface : Bytes) (before : List Bytes) (a b c : Bytes) (after : List Bytes)
      (output : Bytes)
      → split b'\n' output ≡ before ++ (a ++ (dest ++ (b ++ (iface ++ c)))) ∷ after
      → has_line dest iface output ≡ true
  unfolding has_line
  has_line-occurring dest iface before a b c after output lines =
      let line = a ++ (dest ++ (b ++ (iface ++ c))) in
      let shift : (a ++ (dest ++ b)) ++ (iface ++ c) ≡ line =
        append_assoc a (dest ++ b) (iface ++ c)
        ∙ ap (λ l. a ++ l) (append_assoc dest b (iface ++ c)) in
      let first = contains-append a dest (b ++ (iface ++ c)) in
      let second =
        ap (λ l. contains l iface) (sym shift) ∙ contains-append (a ++ (dest ++ b)) iface c in
      ap (any (λ l. contains l dest && contains l iface)) lines
      ∙ any-append (λ l. contains l dest && contains l iface) before line after
          (ap₂ (λ x y. x && y) first second)

  -- On Windows, addRoute returns nil and runs no command but `netsh interface … show route` when the
  -- text of the network occurs in a line of the output of that command and the name of the interface
  -- occurs in it behind, wherever the two stand: within a longer network or a longer name too.
  pub add_route-occurring :
      (t : Tun) (w w' : W) (dest : IpNet) (before : List Bytes) (a b c : Bytes) (after : List Bytes)
      (output : Bytes)
      → sys.command w (codes "interface" ∷ family dest ∷ codes "show" ∷ codes "route" ∷ [])
        ≡ (w', (output, none))
      → split b'\n' output
        ≡ before ++ (a ++ (sys.net_string dest ++ (b ++ (iface_name t.iface ++ c)))) ∷ after
      → add_route sys dest (t, w) ≡ ((t, w'), none)
  unfolding add_route route_exists found_route add_unless_exists
  add_route-occurring t w w' dest before a b c after output shown lines =
      let seen =
        has_line-occurring (sys.net_string dest) (iface_name t.iface) before a b c after output
          lines in
      ap (λ r. add_unless_exists sys dest t (found_route sys dest (iface_name t.iface) r)) shown
      ∙ ap (λ s. add_unless_exists sys dest t (w', s)) seen
