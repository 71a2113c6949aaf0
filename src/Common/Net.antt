-- ===== src/Common/Net.antt =====
-- What the sources use of the package net: IPv4 and IPv6 addresses, masks and networks. An address
-- is its byte slice, and `nil` is the empty one.
use Prim.Native.Nat.{ℕ, zero, suc, ◌-◌, ◌/◌, ◌^◌, bit_and}
use mathlib.Core.Bool.{Bool, true, false, ◌&&◌, ◌||◌}
use mathlib.Core.List.{[], ◌∷◌, ◌++◌}
use mynetwork.Common.Tests.{ltb, leb, ◌==◌, if◌then◌else◌}
use mynetwork.Common.Lists.{length, take, drop, replicate}
use mynetwork.Common.Text.{Bytes, bytes_eq}

-- The prefix of an IPv4 address in IPv6 form.
abbrev v4_prefix : Bytes
v4_prefix = replicate 10 0 ++ 0xff ∷ 0xff ∷ []

-- `IP.To4` and `IP.To16`.
unfoldable pub to4 : Bytes → Bytes
unfolding bytes_eq
to4 ip =
    if length ip == 4
    then ip
    else if length ip == 16 && bytes_eq (take 12 ip) v4_prefix
    then drop 12 ip
    else []

unfoldable pub to16 : Bytes → Bytes
to16 ip = if length ip == 4 then v4_prefix ++ ip else if length ip == 16 then ip else []

-- `IP.Equal`: an IPv4 address and its IPv6 form are equal.
unfoldable pub ip_equal : Bytes → Bytes → Bool
unfolding bytes_eq
ip_equal ip x =
    if length ip == length x
    then bytes_eq ip x
    else if length ip == 4 && length x == 16
    then bytes_eq (v4_prefix ++ ip) x
    else length ip == 16 && length x == 4 && bytes_eq ip (v4_prefix ++ x)

-- `net.CIDRMask`: `ones` bits of 1 and then 0, over `bits` bits.
mask_bytes : ℕ → ℕ → Bytes
mask_bytes zero ones = []
mask_bytes (suc l) ones =
    (if leb 8 ones then 255 else 255 - 255 / 2 ^ ones) ∷ mask_bytes l (ones - 8)

unfoldable pub cidr_mask : ℕ → ℕ → Bytes
unfolding mask_bytes
cidr_mask ones bits =
    if (bits == 32) || (bits == 128)
    then if ltb bits ones then [] else mask_bytes (bits / 8) ones
    else []

pub record IpNet : Type 0 where
  pub ip : Bytes
  pub mask : Bytes

-- `networkNumberAndMask`; two empty slices for a malformed network.
network_number_and_mask : IpNet → Bytes × Bytes
unfolding to4
network_number_and_mask n =
    let ip = if length (to4 n.ip) == 0 then n.ip else to4 n.ip in
    if (length ip == 4) || (length ip == 16)
    then if length n.mask == 4
      then if length ip == 4 then (ip, n.mask) else ([], [])
      else if length n.mask == 16
      then (ip, if length ip == 4 then drop 12 n.mask else n.mask)
      else ([], [])
    else ([], [])

unfoldable pub masked_eq : Bytes → Bytes → Bytes → Bool
masked_eq (a ∷ as') (m ∷ ms) (b ∷ bs) = bit_and a m == bit_and b m && masked_eq as' ms bs
masked_eq _ _ _ = true

-- `IPNet.Contains`.
unfoldable pub ip_net_contains : IpNet → Bytes → Bool
unfolding network_number_and_mask masked_eq to4
ip_net_contains n ip =
    let x = if length (to4 ip) == 0 then ip else to4 ip in
    let (nn, m) = network_number_and_mask n in
    if length x == length nn then masked_eq nn m x else false
