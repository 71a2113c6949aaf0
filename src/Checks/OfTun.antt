-- ===== src/Checks/OfTun.antt =====
-- Instances of the theorems about the package tun, on small systems.
use mynetwork.Common.{
  ℕ, suc, ltb, ◌≡◌, refl, ◌↔◌, ap, sym, ◌∙◌, ◌⊎◌, inl, inr, Bool, not, ◌&&◌, ◌==◌, true, List, [],
  ◌∷◌, ◌++◌, Bytes, codes, bytes_eq, bytes_eq_refl, replicate, to4, Option, none, some, IpNet,
  cidr_mask, All, split, if◌then◌else◌, arith,
}
use mynetwork.Tun.Linux
use mynetwork.Tun.Windows
use mynetwork.Tun.{
  Tun, water_iface, wintun_iface, new_tun, Machine, OptionFunc, apply, address, mtu_option,
  route_option,
}
use mynetwork.Tun.Applied.{HasRun, HasStopped, apply-HasRun_iff}
use mynetwork.Tun.Linux.{Netlink, Route, linux, add_route, on_link}
use mynetwork.Tun.Linux.Undone.{NetlinkLaws, removals, apply-removals-linux}
use mynetwork.Tun.Windows.Address.{Scanner, Prefix, is_space}
use mynetwork.Tun.Windows.{System, windows, family, set_row_mtu}
use mynetwork.Tun.Windows.Configured.{IsIpByte, new-up}
use mynetwork.Tun.Windows.Skipped.{add_route-occurring}
use mynetwork.Tun.Darwin.{Mac}

-- A kernel whose state is its routes, with one link, and that takes every route.
abbrev one_link : Bytes → Bytes ⊎ ℕ
one_link name = if bytes_eq name (codes "mynetwork") then inr 3 else inl (codes "Link not found")

unfoldable pub delete_first : List Route → Route → List Route × Option Bytes
delete_first [] r = ([], some (codes "no such process"))
delete_first (x ∷ rest) r =
    if bytes_eq x.dst.ip r.dst.ip then (rest, none) else (x ∷ rest, some (codes "no such process"))

abbrev pub kernel : Netlink (List Route) Bytes
kernel = record {
  water_new = λ w name. (w, inr name);
  link_by_name = λ w name. one_link name;
  parse_addr = λ s. inr s;
  link_set_mtu = λ w link mtu. (w, none);
  addr_add = λ w link addr. (w, none);
  route_add = λ w r. (r ∷ w, none);
  route_del = delete_first;
  link_set_up = λ w link. (w, none);
  link_set_down = λ w link. (w, none);
  link_del = λ w link. (w, none);
}

delete_first-cons :
    (w w' : List Route) (r : Route)
    → ◌≡◌ {A = List Route × Option Bytes} (r ∷ w, none) (w', none)
    → delete_first w' r ≡ (w, none)
unfolding delete_first
delete_first-cons w w' r e = ap (λ s. delete_first s.0 r) (sym e) ∙ rw (bytes_eq_refl r.dst.ip) refl

kernel-NetlinkLaws : NetlinkLaws kernel
kernel-NetlinkLaws = record { links_kept = λ w r name. refl; taken_back = delete_first-cons }

abbrev pub ten : IpNet
ten = record { ip = 10 ∷ 0 ∷ 0 ∷ 0 ∷ []; mask = cidr_mask 8 32 }

abbrev eleven : IpNet
eleven = record { ip = 11 ∷ 0 ∷ 0 ∷ 0 ∷ []; mask = cidr_mask 8 32 }

abbrev pub via_link : IpNet → Route
via_link n = record { link_index = 3; dst = n; priority = 3000 }

abbrev pub started : Machine (List Route)
started = (new_tun (water_iface (codes "mynetwork")), [])

apply-removals-linux_example :
    apply
      (removals (linux kernel) (ten ∷ eleven ∷ []))
      (new_tun (water_iface (codes "mynetwork")), via_link eleven ∷ via_link ten ∷ [])
    ≡ (started, none)
unfolding apply route_option add_route on_link bytes_eq
apply-removals-linux_example =
    apply-removals-linux kernel kernel-NetlinkLaws (ten ∷ eleven ∷ []) started
      (new_tun (water_iface (codes "mynetwork")), via_link eleven ∷ via_link ten ∷ []) refl

-- A nil option, one that works and one that fails.
abbrev mixed : List (Option (OptionFunc (List Route)))
mixed =
    none
    ∷ some (Linux.add_route kernel ten)
    ∷ some (Linux.set_dest_address kernel (codes "10.0.0.1"))
    ∷ some (Linux.add_route kernel eleven)
    ∷ []

abbrev with_ten : Machine (List Route)
with_ten = (new_tun (water_iface (codes "mynetwork")), via_link ten ∷ [])

abbrev unsupported : Bytes
unsupported = codes "destination addresses are not supported under linux"

apply-HasRun_iff_example :
    ((apply mixed started ≡ (with_ten, none)) ↔ HasRun mixed started with_ten)
    × ((apply mixed started ≡ (with_ten, some unsupported))
        ↔ HasStopped mixed started with_ten unsupported)
apply-HasRun_iff_example = apply-HasRun_iff mixed started with_ten unsupported

mixed_fails : apply mixed started ≡ (with_ten, some unsupported)
unfolding apply Linux.add_route Linux.set_dest_address on_link bytes_eq
mixed_fails = refl

abbrev lost : Tun
lost = new_tun (water_iface (codes "gone"))

-- A Windows whose state is the prefixes that were set and the number of rows that were written. It
-- knows two addresses, and its route table has a line for 110.0.0.0/8.
abbrev v4_text : Bytes
v4_text = codes "100.64.1.2"

abbrev v6_text : Bytes
v6_text = codes "fd00::1"

abbrev v6_ip : Bytes
v6_ip = 0xfd ∷ replicate 14 0 ++ 1 ∷ []

abbrev scanner : Scanner
scanner = record {
  parse_ip = λ s.
      if bytes_eq s v4_text
      then replicate 10 0 ++ 0xff ∷ 0xff ∷ 100 ∷ 64 ∷ 1 ∷ 2 ∷ []
      else if bytes_eq s v6_text
      then v6_ip
      else [];
  unicode_trim = λ s. s;
  unicode_scan = λ s. none;
}

abbrev shown : Bytes
shown = codes "No Manual 256 110.0.0.0/8 12 mynetwork"

abbrev system : System (List Prefix × ℕ) Bytes
system = record {
  create_tun = λ w name mtu. (w, inr (name, 7));
  command = λ w args. (w, (shown, none));
  set_ip_addresses = λ w luid ps. ((ps, w.1), none);
  ip_interface = λ w luid fam. some fam;
  set_row = λ w row mtu. (w.0, suc w.1);
  decimal = λ n. [];
  net_string = λ n. codes "10.0.0.0/8";
  scanner = scanner;
}

abbrev node_prefixes : List Prefix
node_prefixes =
    record { addr = 100 ∷ 64 ∷ 1 ∷ 2 ∷ []; bits = some 32 }
    ∷ record { addr = v6_ip; bits = some 128 }
    ∷ []

all_ip_bytes : Bytes → Bool
unfolding is_space
all_ip_bytes [] = true
all_ip_bytes (c ∷ s) = ltb c 128 && not (is_space c) && not (c == b'/') && all_ip_bytes s

all_ip_bytes-All : (s : Bytes) → all_ip_bytes s ≡ true → All IsIpByte s
unfolding all_ip_bytes
all_ip_bytes-All [] h = tt
all_ip_bytes-All (c ∷ s) h = (
  (ground (arith, h), ground (arith, h), λ e. ground (arith, h, e)),
  all_ip_bytes-All s (ground (arith, h)),
)

new-up_example :
    (t : Tun) × (Windows.new system
        (codes "mynetwork")
        (address (windows system) (v4_text ++ codes "/32")
          ∷ address (windows system) (v6_text ++ codes "/128")
          ∷ mtu_option (windows system) 1420
          ∷ [])
        ([], 0)
      ≡ ((some t, ([], 0)), none))
    × (Windows.up system (t, ([], 0)) ≡ ((t, (node_prefixes, 2)), none))
unfolding all_ip_bytes is_space bytes_eq to4 set_row_mtu
new-up_example =
    new-up system (codes "mynetwork") (codes "mynetwork") v4_text v6_text 1420 7 ([], 0) ([], 0)
      (node_prefixes, 0) (codes "AF_INET") (codes "AF_INET6") (all_ip_bytes-All v4_text refl)
      (all_ip_bytes-All v6_text refl) refl refl refl refl refl refl refl refl refl

abbrev half_bad : Tun
half_bad = record {
  iface = wintun_iface (codes "mynetwork") 7;
  mtu = 1420;
  src = codes "100.64.1.2/32";
  dst = [];
  addresses = codes "100.64.1.2/32" ∷ codes " fd00::1 " ∷ [];
}

-- The line is about another network, which ends in the same text.
add_route-occurring_example :
    Windows.add_route system ten (half_bad, ([], 0)) ≡ ((half_bad, ([], 0)), none)
unfolding split
add_route-occurring_example =
    add_route-occurring system half_bad ([], 0) ([], 0) ten [] (codes "No Manual 256 1")
      (codes " 12 ") [] [] shown refl refl

-- A Mac that remembers its commands.
abbrev mac : Mac (List (List Bytes))
mac = record {
  water_new = λ w. (w, inr (codes "utun3"));
  command = λ w args. (args ∷ w, none);
  decimal = λ n. [];
}
