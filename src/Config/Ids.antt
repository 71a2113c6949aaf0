-- ===== src/Config/Ids.antt =====
-- config/idhash.go: the addresses and identifiers that are computed from a peer's ID.
pub mod Shape
use mynetwork.Common.{
  ℕ, suc, ◌+◌, ◌*◌, ◌%◌, bit_xor, [], ◌∷◌, ◌++◌, Bytes, codes, get_or, set, to4, to16,
}
use mynetwork.Config.{PeerId}

-- `for i, b := range s { a[i%m+o] ^= b }`, from index `i` on.
pub xor_loop : ℕ → ℕ → ℕ → Bytes → Bytes → Bytes
xor_loop m o i a [] = a
xor_loop m o i a (b ∷ s) =
    xor_loop m o (suc i) (set a (i % m + o) (bit_xor (get_or a (i % m + o) 0) b)) s

unfoldable pub mk_builtin_addr4 : PeerId → Bytes
unfolding xor_loop to4
mk_builtin_addr4 p = to4 (xor_loop 2 2 0 (100 ∷ 64 ∷ 1 ∷ 2 ∷ []) p)

unfoldable pub mk_net_id : PeerId → Bytes
unfolding xor_loop
mk_net_id p = xor_loop 4 0 0 (0xde ∷ 0xad ∷ 0xbe ∷ 0xef ∷ []) p

-- "\xfd\x00hyprspace\x00" and four bytes that the loop and then the assignment fill.
abbrev pub addr6_prefix : Bytes
addr6_prefix = 0xfd ∷ 0x00 ∷ codes "hyprspace" ++ 0x00 ∷ []

unfoldable pub mk_builtin_addr6 : PeerId → Bytes
unfolding xor_loop mk_net_id to16
mk_builtin_addr6 p =
    let a = xor_loop 4 12 0 (addr6_prefix ++ 0 ∷ 0 ∷ 0 ∷ 0 ∷ []) p in
    let n = mk_net_id p in
    to16 (
      set (set (set (set a 12 (get_or n 0 0)) 13 (get_or n 1 0)) 14 (get_or n 2 0)) 15
        (get_or n 3 0))

-- `for i, b := range []byte(serviceName) { id[i%2] ^= b * byte(i) }`, from index `i` on; the
-- product wraps at 256.
pub service_loop : ℕ → Bytes → Bytes → Bytes
service_loop i id [] = id
service_loop i id (b ∷ s) =
    service_loop (suc i) (set id (i % 2) (bit_xor (get_or id (i % 2) 0) (b * (i % 256) % 256))) s

unfoldable pub mk_service_id : Bytes → Bytes
unfolding service_loop
mk_service_id name = service_loop 0 (0xff ∷ 0xfe ∷ []) name

-- "\xfd\x00hyprspsv".
abbrev pub service_prefix : Bytes
service_prefix = 0xfd ∷ 0x00 ∷ codes "hyprspsv"

unfoldable pub mk_service_addr6 : PeerId → Bytes → Bytes
unfolding mk_net_id mk_service_id to16
mk_service_addr6 p service_name =
    let a = service_prefix ++ 0 ∷ 0 ∷ 0 ∷ 0 ∷ 0 ∷ 0 ∷ [] in
    let n = mk_net_id p in
    let b =
      set (set (set (set a 10 (get_or n 0 0)) 11 (get_or n 1 0)) 12 (get_or n 2 0)) 13
        (get_or n 3 0) in
    let s = mk_service_id service_name in to16 (set (set b 14 (get_or s 0 0)) 15 (get_or s 1 0))
