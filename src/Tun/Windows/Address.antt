-- ===== src/Tun/Windows/Address.antt =====
-- tun/tun_windows.go: the loop of setupWintunWithWinipcfg over the addresses, with what it uses of the
-- packages strings, fmt and netip.
use mynetwork.Common.{
  ℕ, ◌+◌, ◌-◌, ◌*◌, ◌^◌, leb, ◌==◌, Bool, true, false, not, ◌&&◌, ◌||◌, ◌⊎◌, inl, inr, Option, none,
  some, List, [], ◌∷◌, ◌++◌, Bytes, codes, bytes_eq, split, is_ascii, is_digit, length, to4, to16,
  if◌then◌else◌,
}

-- `net.ParseIP`, with the empty slice for nil, and what TrimSpace and Sscanf do with bytes that are not
-- ASCII.
pub record Scanner : Type 0 where
  pub parse_ip : Bytes → Bytes
  pub unicode_trim : Bytes → Bytes
  pub unicode_scan : Bytes → Option (Bool × ℕ)

-- An ASCII space.
unfoldable pub is_space : ℕ → Bool
is_space c = (c == 32) || leb 9 c && leb c 13

unfoldable pub trim_left : Bytes → Bytes
unfolding is_space
trim_left [] = []
trim_left (c ∷ s) = let rest = trim_left s in if is_space c then rest else c ∷ s

unfoldable pub trim_right : Bytes → Bytes
unfolding is_space bytes_eq
trim_right [] = []
trim_right (c ∷ s) =
    let rest = trim_right s in if is_space c && bytes_eq rest [] then [] else c ∷ rest

-- `strings.TrimSpace`.
unfoldable pub trim_space : Scanner → Bytes → Bytes
unfolding trim_left trim_right is_ascii
trim_space sc s = if is_ascii s then trim_right (trim_left s) else sc.unicode_trim s

-- The digits in front, after a value; what follows them is left.
unfoldable pub scan_digits : ℕ → Bytes → ℕ
unfolding is_digit
scan_digits value [] = value
scan_digits value (c ∷ s) =
    let more = scan_digits (value * 10 + (c - 48)) s in if is_digit c then more else value

-- An int of 64 bits, negative or not, from at least one digit.
unfoldable pub scan_number : Bool → Bytes → Option (Bool × ℕ)
unfolding scan_digits is_digit
scan_number negative [] = none
scan_number negative (c ∷ s) =
    let value = scan_digits 0 (c ∷ s) in
    let bound = if negative then 2 ^ 63 else 2 ^ 63 - 1 in
    if is_digit c && leb value bound then some (negative, value) else none

-- `fmt.Sscanf` for "%d": spaces are passed over, but not the end of a line.
unfoldable pub scan_sign : Bytes → Option (Bool × ℕ)
unfolding scan_number is_space
scan_sign [] = none
scan_sign (c ∷ s) =
    let next = scan_sign s in
    if is_space c && not (c == 10)
    then next
    else if c == b'+'
    then scan_number false s
    else if c == b'-'
    then scan_number true s
    else scan_number false (c ∷ s)

unfoldable pub sscanf_d : Scanner → Bytes → Option (Bool × ℕ)
unfolding scan_sign is_ascii
sscanf_d sc s = if is_ascii s then scan_sign s else sc.unicode_scan s

-- `netip.Prefix`: an address and the number of bits, none where it is invalid.
pub record Prefix : Type 0 where
  pub addr : Bytes
  pub bits : Option ℕ

-- `netip.PrefixFrom`.
unfoldable pub prefix_from : Bytes → Bool × ℕ → Prefix
prefix_from addr (negative, n) = record {
  addr = addr;
  bits = if leb n (8 * length addr) && (not negative || (n == 0)) then some n else none;
}

-- The prefix of an IP address: of four bytes if it is an IPv4 address, else of sixteen, and
-- `netip.AddrFromSlice` refuses other lengths.
unfoldable pub ip_prefix : Bytes → Bool × ℕ → Bytes ⊎ Prefix
unfolding prefix_from to4 to16
ip_prefix ip len =
    if length (to4 ip) == 4
    then inr (prefix_from (to4 ip) len)
    else if length (to16 ip) == 16
    then inr (prefix_from (to16 ip) len)
    else inl (codes "failed to create IPv6 address")

-- The two parts of an address.
unfoldable pub parse_parts : Scanner → Bytes → Bytes → Bytes ⊎ Prefix
unfolding ip_prefix sscanf_d
parse_parts sc ip_part len_part =
    if length (sc.parse_ip ip_part) == 0
    then inl (codes "invalid IP address: " ++ ip_part)
    else (elim (sscanf_d sc len_part) [
      | none ↦ inl (codes "invalid prefix length: " ++ len_part)
      | some len ↦ ip_prefix (sc.parse_ip ip_part) len
    ])

-- One address that is not empty.
unfoldable pub parse_address : Scanner → Bytes → Bytes ⊎ Prefix
unfolding parse_parts split
parse_address sc address = elim (split b'/' address) [
  | ip_part ∷ len_part ∷ [] ↦ parse_parts sc ip_part len_part
  | _ ↦ inl (codes "invalid address format: " ++ address)
]

-- The loop: empty addresses are passed over, and the first bad one ends it.
unfoldable pub parse_addresses : Scanner → List Bytes → Bytes ⊎ List Prefix
unfolding parse_address trim_space bytes_eq
parse_addresses sc [] = inr []
parse_addresses sc (address ∷ rest) =
    let later = parse_addresses sc rest in
    if bytes_eq (trim_space sc address) []
    then later
    else (elim (parse_address sc (trim_space sc address)) [
      | inl e ↦ inl e
      | inr p ↦ elim later [ inl e ↦ inl e | inr ps ↦ inr (p ∷ ps) ]
    ])
