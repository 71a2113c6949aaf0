-- ===== src/Config/Ids/Shape.antt =====
-- The layout of the computed addresses.
use mynetwork.Common.{
  ℕ, suc, ◌+◌, ◌%◌, ◌≡◌, refl, ◌∙◌, [], ◌∷◌, ◌++◌, Bytes, length, get_or, set, bit_xor, length-set,
  arith,
}
use native.Mathlib.Nat.{add-zero}
use mynetwork.Config.{PeerId}
use mynetwork.Config.Ids.{
  xor_loop, mk_builtin_addr4, mk_net_id, mk_builtin_addr6, service_loop, mk_service_id,
  mk_service_addr6, addr6_prefix, service_prefix,
}

length-xor_loop : (m o i : ℕ) (a s : Bytes) → length (xor_loop m o i a s) ≡ length a
unfolding xor_loop
length-xor_loop m o i a [] = refl
length-xor_loop m o i a (b ∷ s) = length-xor_loop m o (suc i) _ s ∙ length-set a (i % m + o) _

length-service_loop : (i : ℕ) (a s : Bytes) → length (service_loop i a s) ≡ length a
unfolding service_loop
length-service_loop i a [] = refl
length-service_loop i a (b ∷ s) = length-service_loop (suc i) _ s ∙ length-set a (i % 2) _

set-append : (p a : Bytes) (j v : ℕ) → set (p ++ a) (j + length p) v ≡ p ++ set a j v
set-append [] a j v = ground arith
set-append (x ∷ p) a j v = ground (arith, set-append p a j v)

get_or-append : (p a : Bytes) (j d : ℕ) → get_or (p ++ a) (j + length p) d ≡ get_or a j d
get_or-append [] a j d = ground arith
get_or-append (x ∷ p) a j d = ground (arith, get_or-append p a j d)

-- The loop leaves what stands before its offset alone.
xor_loop-append :
    (m i : ℕ) (p a s : Bytes) → xor_loop m (length p) i (p ++ a) s ≡ p ++ xor_loop m 0 i a s
unfolding xor_loop
xor_loop-append m i p a [] = refl
xor_loop-append m i p a (b ∷ s) =
    rw (get_or-append p a (i % m) 0, set-append p a (i % m) _, add-zero (i % m))
      (xor_loop-append m (suc i) p (set a (i % m) (bit_xor (get_or a (i % m) 0) b)) s)

pub length-mk_net_id : (p : PeerId) → length (mk_net_id p) ≡ 4
unfolding mk_net_id
length-mk_net_id p = length-xor_loop 4 0 0 _ p

pub length-mk_service_id : (s : Bytes) → length (mk_service_id s) ≡ 2
unfolding mk_service_id
length-mk_service_id s = length-service_loop 0 _ s

pub two_elems : (a : Bytes) → length a ≡ 2 → (x y : ℕ) × (a ≡ x ∷ y ∷ [])
two_elems (x ∷ y ∷ []) h = (x, y, refl)
two_elems [] h = absurd (omega arith)
two_elems (x ∷ []) h = absurd (omega arith)
two_elems (x ∷ y ∷ z ∷ a) h = absurd (omega arith)

pub four_elems : (a : Bytes) → length a ≡ 4 → (x y z w : ℕ) × (a ≡ x ∷ y ∷ z ∷ w ∷ [])
four_elems (x ∷ y ∷ z ∷ w ∷ []) h = (x, y, z, w, refl)
four_elems [] h = absurd (omega arith)
four_elems (x ∷ []) h = absurd (omega arith)
four_elems (x ∷ y ∷ []) h = absurd (omega arith)
four_elems (x ∷ y ∷ z ∷ []) h = absurd (omega arith)
four_elems (x ∷ y ∷ z ∷ w ∷ v ∷ a) h = absurd (omega arith)

-- The IPv4 address of every peer lies in 100.64.0.0/16.
pub mk_builtin_addr4_shape : (p : PeerId) → (x y : ℕ) × (mk_builtin_addr4 p ≡ 100 ∷ 64 ∷ x ∷ y ∷ [])
unfolding mk_builtin_addr4
mk_builtin_addr4_shape p =
    let (x, y, e) = two_elems (xor_loop 2 0 0 (1 ∷ 2 ∷ []) p) (length-xor_loop 2 0 0 _ p) in
    (x, y, rw (xor_loop-append 2 0 (100 ∷ 64 ∷ []) (1 ∷ 2 ∷ []) p, e))

-- The IPv6 address of a peer is the fixed prefix and the peer's network ID.
pub mk_builtin_addr6-mk_net_id : (p : PeerId) → mk_builtin_addr6 p ≡ addr6_prefix ++ mk_net_id p
unfolding mk_builtin_addr6
mk_builtin_addr6-mk_net_id p =
    let (x, y, z, w, e) = four_elems (mk_net_id p) (length-mk_net_id p) in
    let (x', y', z', w', e') =
      four_elems (xor_loop 4 0 0 (0 ∷ 0 ∷ 0 ∷ 0 ∷ []) p) (length-xor_loop 4 0 0 _ p) in
    rw (e, xor_loop-append 4 0 addr6_prefix (0 ∷ 0 ∷ 0 ∷ 0 ∷ []) p, e')

-- The address of a service is the service prefix, the peer's network ID and the service's.
pub mk_service_addr6_parts :
    (p : PeerId) (s : Bytes)
    → mk_service_addr6 p s ≡ service_prefix ++ mk_net_id p ++ mk_service_id s
unfolding mk_service_addr6
mk_service_addr6_parts p s =
    let (x, y, z, w, e) = four_elems (mk_net_id p) (length-mk_net_id p) in
    let (a, b, f) = two_elems (mk_service_id s) (length-mk_service_id s) in rw (e, f)

-- The first byte of a service's name is multiplied by 0, so it has no influence on the identifier.
pub mk_service_id-cons : (b c : ℕ) (s : Bytes) → mk_service_id (b ∷ s) ≡ mk_service_id (c ∷ s)
unfolding mk_service_id service_loop
mk_service_id-cons b c s = ground arith
