-- ===== src/Tun/Windows/Configured.antt =====
-- What Up on Windows configures.
use mynetwork.Common.{
  ℕ, ◌<◌, ◌≡◌, refl, ap, ◌∙◌, ◌≢◌, inr, true, false, ltb, none, some, List, [], ◌∷◌, ◌++◌, Bytes,
  codes, bytes_eq, is_ascii, split_free, split-append, IsFree, All, All-mono, length, to4, to16,
  arith,
}
use mynetwork.Tun.{wintun_iface, Tun, apply, address, mtu_option}
use mynetwork.Tun.Windows.Address.{
  Scanner, Prefix, is_space, trim_left, trim_right, trim_space, scan_sign, sscanf_d, prefix_from,
  ip_prefix, parse_parts, parse_address, parse_addresses,
}
use mynetwork.Tun.Windows.{
  System, windows, set_mtu, set_address, new, set_row_mtu, configured, new_from, setup_addresses,
  setup_wintun_with_winipcfg, get_windows_setup_func, up,
}

-- A byte of the text of an IP address: ASCII, no space and no slash.
abbrev pub IsIpByte : ℕ → Type 0
IsIpByte c = (c < 128) × (is_space c ≡ false) × (c ≢ b'/')

append-full : (s : Bytes) (b : ℕ) (t : Bytes) → bytes_eq (s ++ b ∷ t) [] ≡ false
unfolding bytes_eq
append-full [] b t = refl
append-full (x ∷ s) b t = refl

trim_right-append :
    (s : Bytes) (b : ℕ) (t : Bytes)
    → trim_right (b ∷ t) ≡ b ∷ t
    → trim_right (s ++ b ∷ t) ≡ s ++ b ∷ t
unfolding trim_right
trim_right-append [] b t h = h
trim_right-append (x ∷ s) b t h = ground (arith, trim_right-append s b t h, append-full s b t)

trim_left-first : (c : ℕ) (s : Bytes) → is_space c ≡ false → trim_left (c ∷ s) ≡ c ∷ s
unfolding trim_left
trim_left-first c s h = rw (trim_left, h) refl

is_ascii-append :
    (s t : Bytes) → All (λ c. c < 128) s → is_ascii t ≡ true → is_ascii (s ++ t) ≡ true
unfolding is_ascii
is_ascii-append [] t h k = k
is_ascii-append (c ∷ s) t (small, h) k = ground (arith, small, is_ascii-append s t h k)

module _ (sc : Scanner) where
  -- A text in front of a slash and a number is left as it is.
  trim_space-address :
      (text len : Bytes)
      → All IsIpByte text
      → is_ascii len ≡ true
      → trim_right (b'/' ∷ len) ≡ b'/' ∷ len
      → trim_space sc (text ++ b'/' ∷ len) ≡ text ++ b'/' ∷ len
  unfolding trim_space is_ascii
  trim_space-address [] len h small last =
      rw (trim_space, small, trim_left-first b'/' len refl) last
  trim_space-address (x ∷ text) len (p, h) small last =
      let ascii =
        is_ascii-append (x ∷ text) (b'/' ∷ len) (All-mono IsIpByte (x ∷ text) (λ y q. q.0) (p, h))
          small in
      rw (trim_space, ascii, trim_left-first x (text ++ b'/' ∷ len) p.1)
        (trim_right-append (x ∷ text) b'/' len last)

  parse_address-parts :
      (text len : Bytes)
      → All IsIpByte text
      → IsFree b'/' len
      → parse_address sc (text ++ b'/' ∷ len) ≡ parse_parts sc text len
  unfolding parse_address
  parse_address-parts text len h free =
      let parts =
        split-append b'/' text len (All-mono IsIpByte text (λ y q. q.2) h)
        ∙ ap (λ l. text ∷ l) (split_free b'/' len free) in
      rw (parse_address, parts) refl

  -- The number behind the slash, and the prefix of an address of one kind.
  parse_parts-number :
      (text len ip : Bytes) (n : ℕ)
      → sc.parse_ip text ≡ ip
      → length ip ≡ 16
      → sscanf_d sc len ≡ some (false, n)
      → parse_parts sc text len ≡ ip_prefix ip (false, n)
  unfolding parse_parts
  parse_parts-number text len ip n e l read = ground (arith, e, l, read)

  ip_prefix-v4 :
      (ip : Bytes)
      → length (to4 ip) ≡ 4
      → ip_prefix ip (false, 32) ≡ inr (record { addr = to4 ip; bits = some 32 })
  unfolding ip_prefix prefix_from
  ip_prefix-v4 ip l = ground (arith, l)

  ip_prefix-v6 :
      (ip : Bytes)
      → length ip ≡ 16
      → to4 ip ≡ []
      → ip_prefix ip (false, 128) ≡ inr (record { addr = ip; bits = some 128 })
  unfolding ip_prefix prefix_from to16
  ip_prefix-v6 ip l no4 = ground (arith, l, no4)

  sscanf_d-numbers :
      (sscanf_d sc (codes "32") ≡ some (false, 32))
      × (sscanf_d sc (codes "128") ≡ some (false, 128))
  unfolding sscanf_d scan_sign is_ascii
  sscanf_d-numbers = (refl, refl)

  parse_addresses-cons :
      (text len : Bytes) (p : Prefix) (rest : List Bytes) (ps : List Prefix)
      → trim_space sc (text ++ b'/' ∷ len) ≡ text ++ b'/' ∷ len
      → parse_address sc (text ++ b'/' ∷ len) ≡ inr p
      → parse_addresses sc rest ≡ inr ps
      → parse_addresses sc ((text ++ b'/' ∷ len) ∷ rest) ≡ inr (p ∷ ps)
  unfolding parse_addresses
  parse_addresses-cons text len p rest ps trimmed parsed more =
      ground (arith, trimmed, append-full text b'/' len, parsed, more)

  -- Both addresses of a node.
  parse_addresses-node :
      (text4 text6 : Bytes)
      → All IsIpByte text4
      → All IsIpByte text6
      → length (sc.parse_ip text4) ≡ 16
      → length (to4 (sc.parse_ip text4)) ≡ 4
      → length (sc.parse_ip text6) ≡ 16
      → to4 (sc.parse_ip text6) ≡ []
      → parse_addresses sc ((text4 ++ codes "/32") ∷ (text6 ++ codes "/128") ∷ [])
        ≡ inr (
            record { addr = to4 (sc.parse_ip text4); bits = some 32 }
            ∷ record { addr = sc.parse_ip text6; bits = some 128 }
            ∷ [])
  unfolding is_ascii trim_right parse_addresses
  parse_addresses-node text4 text6 h4 h6 l4 v4 l6 v6 =
      let free2 : IsFree b'/' (codes "32") =
        ((λ e. omega (arith, e)), ((λ e. omega (arith, e)), tt)) in
      let free3 : IsFree b'/' (codes "128") =
        ((λ e. omega (arith, e)), ((λ e. omega (arith, e)), ((λ e. omega (arith, e)), tt))) in
      parse_addresses-cons text4 (codes "32") _ ((text6 ++ codes "/128") ∷ []) _
        (trim_space-address text4 (codes "32") h4 refl refl)
        (parse_address-parts text4 (codes "32") h4 free2
          ∙ parse_parts-number text4 (codes "32") (sc.parse_ip text4) 32 refl l4 sscanf_d-numbers.0
          ∙ ip_prefix-v4 (sc.parse_ip text4) v4)
        (parse_addresses-cons text6 (codes "128") _ [] []
          (trim_space-address text6 (codes "128") h6 refl refl)
          (parse_address-parts text6 (codes "128") h6 free3
            ∙ parse_parts-number text6 (codes "128") (sc.parse_ip text6) 128 refl l6
                sscanf_d-numbers.1
            ∙ ip_prefix-v6 (sc.parse_ip text6) l6 v6)
          refl)

module _ {W R : Type 0} (sys : System W R) where
  -- The device that New makes with the options of a node.
  abbrev node_tun : Bytes → ℕ → ℕ → Bytes → Bytes → Tun
  node_tun name luid mtu address4 address6 = record {
    iface = wintun_iface name luid;
    mtu = mtu;
    src = address4;
    dst = [];
    addresses = address4 ∷ address6 ∷ [];
  }

  new-node_tun :
      (name dev address4 address6 : Bytes) (mtu luid : ℕ) (w w1 : W)
      → bytes_eq address4 [] ≡ false
      → sys.create_tun w name 1420 ≡ (w1, inr (dev, luid))
      → new sys name
          (address (windows sys) address4
            ∷ address (windows sys) address6
            ∷ mtu_option (windows sys) mtu
            ∷ [])
          w
        ≡ ((some (node_tun dev luid mtu address4 address6), w1), none)
  unfolding new new_from set_mtu set_address address mtu_option apply bytes_eq
  new-node_tun name dev address4 address6 mtu luid w w1 full made =
      ap
        (new_from sys (
          address (windows sys) address4
          ∷ address (windows sys) address6
          ∷ mtu_option (windows sys) mtu
          ∷ []))
        made
      ∙ rw full refl

  setup_addresses-taken :
      (luid : ℕ) (t : Tun) (w w1 : W) (p : Prefix) (ps : List Prefix)
      → parse_addresses sys.scanner t.addresses ≡ inr (p ∷ ps)
      → sys.set_ip_addresses w luid (p ∷ ps) ≡ (w1, none)
      → ltb 0 t.mtu ≡ true
      → setup_addresses sys luid t w ≡ (
        set_row_mtu sys luid t.mtu
            (codes "AF_INET6")
            (set_row_mtu sys luid t.mtu (codes "AF_INET") w1),
        none,
      )
  unfolding setup_addresses configured
  setup_addresses-taken luid t w w1 p ps parsed taken positive =
      let set : setup_addresses sys luid t w ≡ configured sys luid t.mtu (w1, none) =
        rw (setup_addresses, parsed) (ap (configured sys luid t.mtu) taken) in
      set ∙ rw positive refl

  up-setup_addresses :
      (name : Bytes) (luid mtu : ℕ) (address4 address6 : Bytes) (w : W)
      → bytes_eq address4 [] ≡ false
      → up sys (node_tun name luid mtu address4 address6, w) ≡ (
        (
          node_tun name luid mtu address4 address6,
          (setup_addresses sys luid (node_tun name luid mtu address4 address6) w).0,
        ),
        (setup_addresses sys luid (node_tun name luid mtu address4 address6) w).1,
      )
  unfolding up get_windows_setup_func setup_wintun_with_winipcfg
  up-setup_addresses name luid mtu address4 address6 w full = rw (up, full) refl

  -- On Windows, New with the options Address of an IPv4 address with /32, Address of an IPv6 address
  -- with /128 and MTU of a positive number gives no error and a device, when wintun makes one; and when
  -- the system takes the addresses, Up on that device gives no error, after one call of SetIPAddresses
  -- with exactly the two prefixes, the IPv4 address in four bytes with 32 bits and the IPv6 address with
  -- 128, and after the MTU was set in the interface's rows for IPv4 and then for IPv6. The two rows are
  -- there. The texts of the addresses have no space, slash or
  -- byte that is not ASCII, and ParseIP reads them as addresses of sixteen bytes, the first an IPv4
  -- address and the second not.
  pub new-up :
      (name dev text4 text6 : Bytes) (mtu luid : ℕ) (w w1 w2 : W) (row4 row6 : R)
      → All IsIpByte text4
      → All IsIpByte text6
      → length (sys.scanner.parse_ip text4) ≡ 16
      → length (to4 (sys.scanner.parse_ip text4)) ≡ 4
      → length (sys.scanner.parse_ip text6) ≡ 16
      → to4 (sys.scanner.parse_ip text6) ≡ []
      → ltb 0 mtu ≡ true
      → sys.create_tun w name 1420 ≡ (w1, inr (dev, luid))
      → sys.set_ip_addresses w1 luid (
          record { addr = to4 (sys.scanner.parse_ip text4); bits = some 32 }
          ∷ record { addr = sys.scanner.parse_ip text6; bits = some 128 }
          ∷ [])
        ≡ (w2, none)
      → sys.ip_interface w2 luid (codes "AF_INET") ≡ some row4
      → sys.ip_interface (sys.set_row w2 row4 mtu) luid (codes "AF_INET6") ≡ some row6
      → (t : Tun) × (new sys name
            (address (windows sys) (text4 ++ codes "/32")
              ∷ address (windows sys) (text6 ++ codes "/128")
              ∷ mtu_option (windows sys) mtu
              ∷ [])
            w
          ≡ ((some t, w1), none))
        × (up sys (t, w1) ≡ ((t, sys.set_row (sys.set_row w2 row4 mtu) row6 mtu), none))
  unfolding set_row_mtu
  new-up name dev text4 text6 mtu luid w w1 w2 row4 row6 h4 h6 l4 v4 l6 v6 positive made taken in4
        in6 =
      let address4 = text4 ++ codes "/32" in
      let address6 = text6 ++ codes "/128" in
      let full = append-full text4 b'/' (codes "32") in
      let t = node_tun dev luid mtu address4 address6 in
      let first : set_row_mtu sys luid mtu (codes "AF_INET") w2 ≡ sys.set_row w2 row4 mtu =
        rw (set_row_mtu, in4) refl in
      let second : set_row_mtu sys luid mtu (codes "AF_INET6") (sys.set_row w2 row4 mtu)
          ≡ sys.set_row (sys.set_row w2 row4 mtu) row6 mtu =
        rw (set_row_mtu, in6) refl in
      (
        t,
        new-node_tun name dev address4 address6 mtu luid w w1 full made,
        up-setup_addresses dev luid mtu address4 address6 w1 full
            ∙ ap (λ r. ((t, r.0), r.1))
                (setup_addresses-taken luid t w1 w2 _ _
                  (parse_addresses-node sys.scanner text4 text6 h4 h6 l4 v4 l6 v6) taken positive)
            ∙ ap (λ v. ((t, set_row_mtu sys luid mtu (codes "AF_INET6") v), none)) first
            ∙ ap (λ v. ((t, v), none)) second,
      )
