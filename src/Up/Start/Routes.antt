-- ===== src/Up/Start/Routes.antt =====
-- The routes that the start applies.
use mynetwork.Common.{
  zero, suc, masked_eq, to4, if◌then◌else◌, ℕ, ◌≡◌, refl, sym, ◌∙◌, ◌⊎◌, inl, inr, true, false, any,
  List, [], ◌∷◌, ◌++◌, Bytes, length, replicate, cidr_mask, ip_net_contains, bit_and-zero, ◌==◌,
  arith, Bool-cases,
}
use mynetwork.Config.{PeerId, Peer}
use mynetwork.Config.Ids.{mk_net_id, mk_service_id, mk_service_addr6, service_prefix}
use mynetwork.Config.Ids.Shape.{
  mk_service_addr6_parts, four_elems, two_elems, length-mk_net_id, length-mk_service_id,
}
use mynetwork.Up.Routing.{network_range}
use mynetwork.Up.Start.{copy_at, mask_size, service_route, service_routes}

service_route_four :
    (x y z w : ℕ)
    → service_route (x ∷ y ∷ z ∷ w ∷ [])
      ≡ record { ip = service_prefix ++ x ∷ y ∷ z ∷ w ∷ 0 ∷ 0 ∷ []; mask = cidr_mask 112 128 }
unfolding service_route mask_size copy_at cidr_mask
service_route_four x y z w = refl

service_route-mk_service_addr6 :
    (p : PeerId) (name : Bytes)
    → ip_net_contains (service_route (mk_net_id p)) (mk_service_addr6 p name) ≡ true
unfolding ip_net_contains cidr_mask
service_route-mk_service_addr6 p name =
    let (x, y, z, w, e) = four_elems (mk_net_id p) (length-mk_net_id p) in
    let (a, b, f) = two_elems (mk_service_id name) (length-mk_service_id name) in
    rw (mk_service_addr6_parts p name, e, f, service_route_four x y z w)
      (ground (arith, bit_and-zero a, bit_and-zero b))

-- No bits of mask, no difference.
masked_eq-zeros : (s x : Bytes) (n : ℕ) → masked_eq s (replicate n 0) x ≡ true
unfolding masked_eq
masked_eq-zeros [] x n = refl
masked_eq-zeros (a ∷ s) [] zero = refl
masked_eq-zeros (a ∷ s) (b ∷ x) zero = refl
masked_eq-zeros (a ∷ s) [] (suc n) = refl
masked_eq-zeros (a ∷ s) (b ∷ x) (suc n) =
    ground (arith, bit_and-zero a, bit_and-zero b, masked_eq-zeros s x n)

-- A mask that is cut off accepts more.
masked_eq-widen :
    (p s s' m rest x : Bytes) (n : ℕ)
    → length p ≡ length m
    → masked_eq (p ++ s) (m ++ rest) x ≡ true
    → masked_eq (p ++ s') (m ++ replicate n 0) x ≡ true
unfolding masked_eq
masked_eq-widen [] s s' [] rest x n l h = masked_eq-zeros s' x n
masked_eq-widen [] s s' (b ∷ m) rest x n l h = absurd (omega (arith, l))
masked_eq-widen (a ∷ p) s s' [] rest x n l h = absurd (omega (arith, l))
masked_eq-widen (a ∷ p) s s' (b ∷ m) rest [] n l h = refl
masked_eq-widen (a ∷ p) s s' (b ∷ m) rest (c ∷ x) n l h =
    ground (arith, h, masked_eq-widen p s s' m rest x n (omega (arith, l)))

-- The test of a service route and that of the whole range, on an address of any length.
unfoldable shown_ip : Bytes → Bytes
shown_ip ip = if length (to4 ip) == 0 then ip else to4 ip

ip_net_contains-service_route :
    (x y z w : ℕ) (ip : Bytes)
    → ip_net_contains (service_route (x ∷ y ∷ z ∷ w ∷ [])) ip ≡ (
        if length (shown_ip ip) == 16
        then masked_eq
            (service_prefix ++ x ∷ y ∷ z ∷ w ∷ 0 ∷ 0 ∷ [])
            (replicate 10 255 ++ 255 ∷ 255 ∷ 255 ∷ 255 ∷ 0 ∷ 0 ∷ [])
            (shown_ip ip)
        else false)
unfolding ip_net_contains shown_ip cidr_mask
ip_net_contains-service_route x y z w ip = rw (service_route_four x y z w) refl

ip_net_contains-network_range :
    (ip : Bytes)
    → ip_net_contains network_range ip ≡ (
        if length (shown_ip ip) == 16
        then masked_eq
            (service_prefix ++ 0 ∷ 0 ∷ 0 ∷ 0 ∷ 0 ∷ 0 ∷ [])
            (replicate 10 255 ++ replicate 6 0)
            (shown_ip ip)
        else false)
unfolding ip_net_contains shown_ip cidr_mask
ip_net_contains-network_range ip = refl

service_route-network_range :
    (p : PeerId) (ip : Bytes)
    → ip_net_contains (service_route (mk_net_id p)) ip ≡ true
    → ip_net_contains network_range ip ≡ true
service_route-network_range p ip h =
    let (x, y, z, w, e) = four_elems (mk_net_id p) (length-mk_net_id p) in
    let inside = sym (ip_net_contains-service_route x y z w ip) ∙ rw e at h in
    ip_net_contains-network_range ip ∙ (elim (Bool-cases (length (shown_ip ip) == 16)) [
      | inl long ↦
          let matched : masked_eq (service_prefix ++ x ∷ y ∷ z ∷ w ∷ 0 ∷ 0 ∷ [])
                (replicate 10 255 ++ 255 ∷ 255 ∷ 255 ∷ 255 ∷ 0 ∷ 0 ∷ []) (shown_ip ip)
              ≡ true =
            rw long at inside in
          rw long (
            masked_eq-widen service_prefix (x ∷ y ∷ z ∷ w ∷ 0 ∷ 0 ∷ []) (replicate 6 0)
              (replicate 10 255) (255 ∷ 255 ∷ 255 ∷ 255 ∷ 0 ∷ 0 ∷ []) (shown_ip ip) 6 refl matched)
      | inr short ↦ let wrong : false ≡ true = rw short at inside in absurd (cc wrong)
    ])

-- The node itself, or one of its peers.
abbrev pub IsNode : List Peer → PeerId → PeerId → Type 0
IsNode [] self p = self ≡ p
IsNode (q ∷ peers) self p = (q.id ≡ p) ⊎ IsNode peers self p

service_routes-any :
    (peers : List Peer) (self p : PeerId) (name : Bytes)
    → IsNode peers self p
    → any (λ n. ip_net_contains n (mk_service_addr6 p name)) (service_routes peers self) ≡ true
unfolding service_routes
service_routes-any [] self p name h = rw h (rw (service_route-mk_service_addr6 p name) refl)
service_routes-any (q ∷ peers) self p name (inl same) =
    rw same (rw (service_route-mk_service_addr6 p name) refl)
service_routes-any (q ∷ peers) self p name (inr later) =
    ground (arith, service_routes-any peers self p name later)

service_routes-within :
    (peers : List Peer) (self : PeerId) (ip : Bytes)
    → any (λ n. ip_net_contains n ip) (service_routes peers self) ≡ true
    → ip_net_contains network_range ip ≡ true
unfolding service_routes
service_routes-within [] self ip h = ground (arith, h, service_route-network_range self ip)
service_routes-within (q ∷ peers) self ip h =
    ground (arith, h, service_route-network_range q.id ip, service_routes-within peers self ip)

-- Among the routes for services that the start makes, some route covers the address of every service of
-- the node itself and of every peer of the configuration; and an address that one of those routes
-- covers lies in the range of the service network, so that they divert no other address.
pub service_routes-cover :
    (peers : List Peer) (self p : PeerId) (name ip : Bytes)
    → IsNode peers self p
    → any (λ n. ip_net_contains n ip) (service_routes peers self) ≡ true
    → (any (λ n. ip_net_contains n (mk_service_addr6 p name)) (service_routes peers self) ≡ true)
      × (ip_net_contains network_range ip ≡ true)
service_routes-cover peers self p name ip h covered =
    (service_routes-any peers self p name h, service_routes-within peers self ip covered)
