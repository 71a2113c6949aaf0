-- ===== src/Up/Routing/Delivery.antt =====
-- Where packets go.
use mynetwork.Common.{
  ◌↔◌, ℕ, ◌≡◌, ap, ◌∙◌, true, false, Bytes, bit_and, bit_and-zero, ◌==◌, ==_iff, Bool-cases,
  Option-cases, bind_ok, get_or, some, Outcome, ok, ip_equal, ip_net_contains, cidr_mask, arith,
  inl, inr,
}
use mynetwork.Config.{PeerId, RouteTableEntry, Ranger}
use mynetwork.Config.Ids.{mk_net_id, mk_service_id, mk_service_addr6}
use mynetwork.Config.Ids.Shape.{
  mk_service_addr6_parts, four_elems, two_elems, length-mk_net_id, length-mk_service_id,
}
use mynetwork.Config.Lookup.{find_route_for_ip}
use mynetwork.Svc.{ServiceNetwork}
use mynetwork.Up.Routing.{slice, network_range, sent_to, forward, to_service, packet_round}

-- Every service address lies in the range of the service network.
pub network_range-mk_service_addr6 :
    (p : PeerId) (name : Bytes) → ip_net_contains network_range (mk_service_addr6 p name) ≡ true
unfolding ip_net_contains cidr_mask
network_range-mk_service_addr6 p name =
    let (x, y, z, w, e) = four_elems (mk_net_id p) (length-mk_net_id p) in
    let (a, b, f) = two_elems (mk_service_id name) (length-mk_service_id name) in
    rw (mk_service_addr6_parts p name, e, f)
      (ground (
        arith,
        bit_and-zero x,
        bit_and-zero y,
        bit_and-zero z,
        bit_and-zero w,
        bit_and-zero a,
        bit_and-zero b,
      ))

module _ {T : Type 0} (rg : Ranger T) where
  -- The one route of the table to an address leads to a peer.
  pub record Leads (sn : ServiceNetwork T) (dst : Bytes) (id : PeerId) : Type 0 where
    pub entry : RouteTableEntry
    pub route : find_route_for_ip rg sn.config dst ≡ ok (some entry)
    pub target : entry.target.id ≡ id

  -- A packet that a peer should get: its destination address is not the node's own, a route leads
  -- from it to the peer, and for IPv6 it is no address of the service network.
  pub data IsFor (sn : ServiceNetwork T) (packet : Bytes) (id : PeerId) : Type 0 where
    v4 :
        bit_and (get_or packet 0 0) 0xf0 ≡ 0x40
        → ip_equal sn.config.builtin_addr4 (slice packet 16 20) ≡ false
        → Leads sn (slice packet 16 20) id
        → IsFor sn packet id
    v6 :
        bit_and (get_or packet 0 0) 0xf0 ≡ 0x60
        → ip_equal sn.config.builtin_addr6 (slice packet 24 40) ≡ false
        → ip_net_contains network_range (slice packet 24 40) ≡ false
        → Leads sn (slice packet 24 40) id
        → IsFor sn packet id

module _ {T : Type 0} (rg : Ranger T) (listen : Bytes → ℕ → Outcome (Unit {0}))
    (sn : ServiceNetwork T) where
  forward-sent_to :
      (dst : Bytes) {sn' : ServiceNetwork T} {id : PeerId}
      → forward rg listen sn dst ≡ ok (sn', sent_to id)
      → Leads rg sn dst id × (sn' ≡ sn)
  unfolding forward
  forward-sent_to dst {sn'} {id} e =
      let (route, found, e') = bind_ok (find_route_for_ip rg sn.config dst) _ e in
      elim (Option-cases route) [
        | inl nowhere ↦ absurd (cc (nowhere, e'))
        | inr (entry, there) ↦ (
          record { entry = entry; route = found ∙ ap ok there; target = ground (arith, there, e') },
          ground (arith, there, e'),
        )
      ]

  to_service-ne-sent_to :
      (packet : Bytes) {sn' : ServiceNetwork T} {id : PeerId}
      → ¬ (to_service rg listen sn packet ≡ ok (sn', sent_to id))
  unfolding to_service
  to_service-ne-sent_to packet e = ground arith

  packet_round-IsFor :
      (packet : Bytes) {sn' : ServiceNetwork T} {id : PeerId}
      → packet_round rg listen sn packet ≡ ok (sn', sent_to id)
      → IsFor rg sn packet id × (sn' ≡ sn)
  unfolding packet_round
  packet_round-IsFor packet {sn'} {id} e =
      elim (Bool-cases (bit_and (get_or packet 0 0) 0xf0 == 0x40)) [
        | inl is4 ↦ elim (Bool-cases (ip_equal sn.config.builtin_addr4 (slice packet 16 20))) [
          | inl own ↦ absurd (ground arith)
          | inr other ↦
              let (leads, same) =
                forward-sent_to (slice packet 16 20) {sn' = sn'} {id = id} (ground arith) in
              (IsFor.v4 ((==_iff _ _).0 is4) other leads, same)
        ]
        | inr not4 ↦ elim (Bool-cases (bit_and (get_or packet 0 0) 0xf0 == 0x60)) [
          | inr not6 ↦ absurd (ground arith)
          | inl is6 ↦ elim (Bool-cases (ip_equal sn.config.builtin_addr6 (slice packet 24 40))) [
            | inl own ↦ absurd (ground arith)
            | inr other ↦ elim (Bool-cases (ip_net_contains network_range (slice packet 24 40))) [
              | inl service ↦
                  absurd (to_service-ne-sent_to packet {sn' = sn'} {id = id} (ground arith))
              | inr plain ↦
                  let (leads, same) =
                    forward-sent_to (slice packet 24 40) {sn' = sn'} {id = id} (ground arith) in
                  (IsFor.v6 ((==_iff _ _).0 is6) other plain leads, same)
            ]
          ]
        ]
      ]

  packet_round_of_IsFor :
      (packet : Bytes) (id : PeerId)
      → IsFor rg sn packet id
      → packet_round rg listen sn packet ≡ ok (sn, sent_to id)
  unfolding packet_round forward
  packet_round_of_IsFor packet id (v4 is4 other leads) =
      ground (arith, is4, other, leads.route, leads.target)
  packet_round_of_IsFor packet id (v6 is6 other plain leads) =
      ground (arith, is6, other, plain, leads.route, leads.target)

  -- A packet is sent to a peer exactly when it is for that peer, and sending leaves the service
  -- network as it was.
  pub packet_round-sent_to_iff :
      (packet : Bytes) (id : PeerId)
      → (packet_round rg listen sn packet ≡ ok (sn, sent_to id)) ↔ IsFor rg sn packet id
  packet_round-sent_to_iff packet id =
      ((λ e. (packet_round-IsFor packet e).0), packet_round_of_IsFor packet id)
