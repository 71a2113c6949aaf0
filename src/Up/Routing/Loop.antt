-- ===== src/Up/Routing/Loop.antt =====
-- What holds however long the packet loop runs.
use mynetwork.Common.{
  ℕ, ◌+◌, ◌*◌, ◌%◌, ◌≡◌, subst, List, [], ◌∷◌, Bytes, bit_and, ◌==◌, get_or, Outcome, ok, bind_ok,
  Bool-cases, Option-cases, inl, inr, ip_equal, ip_net_contains, arith,
}
use mynetwork.Config.{Ranger}
use mynetwork.Config.Lookup.{find_route_for_ip}
use mynetwork.Svc.{ServiceNetwork}
use mynetwork.Svc.Network.{ensure_listener}
use mynetwork.Svc.Network.Invariant.{IsCoherent, ensure_listener-IsCoherent}
use mynetwork.Up.Routing.{
  slice, network_range, Action, dropped, TunRead, read_packet, read_failed, interface_closed,
  forward, to_service, packet_round, packet_loop,
}

module _ {T : Type 0} (rg : Ranger T) (listen : Bytes → ℕ → Outcome (Unit {0})) where
  forward-IsCoherent :
      (sn : ServiceNetwork T) (dst : Bytes) {sn' : ServiceNetwork T} {act : Action}
      → forward rg listen sn dst ≡ ok (sn', act)
      → IsCoherent sn
      → IsCoherent sn'
  unfolding forward
  forward-IsCoherent sn dst {sn'} {act} e h =
      let (route, found, e') = bind_ok (find_route_for_ip rg sn.config dst) _ e in
      elim (Option-cases route) [
        | inl nowhere ↦ let same : sn ≡ sn' = ground (arith, nowhere, e') in subst IsCoherent same h
        | inr (entry, there) ↦
            let same : sn ≡ sn' = ground (arith, there, e') in subst IsCoherent same h
      ]

  to_service-IsCoherent :
      (sn : ServiceNetwork T) (packet : Bytes) {sn' : ServiceNetwork T} {act : Action}
      → to_service rg listen sn packet ≡ ok (sn', act)
      → IsCoherent sn
      → IsCoherent sn'
  unfolding to_service
  to_service-IsCoherent sn packet {sn'} {act} e h = elim (Bool-cases (get_or packet 6 0 == 0x06)) [
    | inr other ↦ let same : sn ≡ sn' = ground (arith, other, e) in subst IsCoherent same h
    | inl tcp ↦
        let port = (get_or packet 42 0 * 256 + get_or packet 43 0) % 65536 in
        let ((sn1, ready, events), ensured, e') =
          bind_ok (ensure_listener listen sn (slice packet 24 40) port) _
            (rw (tcp, to_service) at e) in
        let same : sn1 ≡ sn' = ground (arith, e') in
        subst IsCoherent same
          (ensure_listener-IsCoherent listen sn (slice packet 24 40) port ensured h)
  ]

  packet_round-IsCoherent :
      (sn : ServiceNetwork T) (packet : Bytes) {sn' : ServiceNetwork T} {act : Action}
      → packet_round rg listen sn packet ≡ ok (sn', act)
      → IsCoherent sn
      → IsCoherent sn'
  unfolding packet_round
  packet_round-IsCoherent sn packet {sn'} e h =
      elim (Bool-cases (bit_and (get_or packet 0 0) 0xf0 == 0x40)) [
        | inl is4 ↦ elim (Bool-cases (ip_equal sn.config.builtin_addr4 (slice packet 16 20))) [
          | inl own ↦ unchanged (rw (is4, own, packet_round) at e)
          | inr other ↦
              forward-IsCoherent sn (slice packet 16 20) (rw (is4, other, packet_round) at e) h
        ]
        | inr not4 ↦ elim (Bool-cases (bit_and (get_or packet 0 0) 0xf0 == 0x60)) [
          | inr not6 ↦ unchanged (rw (not4, not6, packet_round) at e)
          | inl is6 ↦ elim (Bool-cases (ip_equal sn.config.builtin_addr6 (slice packet 24 40))) [
            | inl own ↦ unchanged (rw (not4, is6, own, packet_round) at e)
            | inr other ↦ elim (Bool-cases (ip_net_contains network_range (slice packet 24 40))) [
              | inl service ↦
                  to_service-IsCoherent sn packet
                    (rw (not4, is6, other, service, packet_round) at e) h
              | inr plain ↦
                  forward-IsCoherent sn (slice packet 24 40)
                    (rw (not4, is6, other, plain, packet_round) at e) h
            ]
          ]
        ]
      ]
    where
      unchanged :
          {act : Action}
          → ◌≡◌ {A = Outcome (ServiceNetwork T × Action)} (ok (sn, dropped)) (ok (sn', act))
          → IsCoherent sn'
      unchanged e' = let same : sn ≡ sn' = ground (arith, e') in subst IsCoherent same h

  -- However many packets the loop reads, whatever they hold and whatever errors come between, the two
  -- sets of the service network are in agreement at its end if they were at its start: an address is
  -- active exactly when it has a set of ports.
  pub packet_loop-IsCoherent :
      (sn : ServiceNetwork T) (reads : List TunRead) {sn' : ServiceNetwork T} {acts : List Action}
      → packet_loop rg listen sn reads ≡ ok (sn', acts)
      → IsCoherent sn
      → IsCoherent sn'
  unfolding packet_loop
  packet_loop-IsCoherent sn [] {sn'} e h =
      let same : sn ≡ sn' = ground (arith, e) in subst IsCoherent same h
  packet_loop-IsCoherent sn (interface_closed ∷ reads) {sn'} e h =
      let same : sn ≡ sn' = ground (arith, e) in subst IsCoherent same h
  packet_loop-IsCoherent sn (read_failed ∷ reads) e h = packet_loop-IsCoherent sn reads e h
  packet_loop-IsCoherent sn (read_packet packet ∷ reads) {sn'} e h =
      let ((sn1, action), rounded, e1) = bind_ok (packet_round rg listen sn packet) _ e in
      let ((sn2, actions), looped, e2) = bind_ok (packet_loop rg listen sn1 reads) _ e1 in
      let same : sn2 ≡ sn' = ground (arith, e2) in
      subst IsCoherent same
        (packet_loop-IsCoherent sn1 reads looped (packet_round-IsCoherent sn packet rounded h))
