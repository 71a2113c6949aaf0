-- ===== src/P2p/Routing/Tunnel.antt =====
-- The gater and the packet loop: a dial is refused when its packets would come back to the daemon.
use mynetwork.Common.{
  ℕ, ◌≡◌, refl, ap, ◌∙◌, inl, inr, Bool, true, false, not, ◌&&◌, ==_iff, List, [], ◌∷◌, Bytes,
  bytes_eq, bytes_eq_iff, bit_and, get_or, ip_equal, Option, none, some, Option-cases, Outcome, ok,
  bind_ok, ok-injective, ==_refl,
}
use mynetwork.Config.{PeerId, Ranger}
use mynetwork.Config.Lookup.{find_route_for_ip}
use mynetwork.Svc.{ServiceNetwork}
use mynetwork.Up.Routing.{slice, sent_to, packet_round}
use mynetwork.Up.Routing.Delivery.{v4, Leads, packet_round-sent_to_iff}
use mynetwork.P2p.Routing.{first_is, intercept_addr_dial, windows_intercept_addr_dial}

first_is-some :
    (o : Option (List ℕ)) (ifindex : ℕ)
    → first_is o ifindex ≡ true
    → (others : List ℕ) × (o ≡ some (ifindex ∷ others))
unfolding first_is
first_is-some none ifindex e = absurd (cc e)
first_is-some (some []) ifindex e = absurd (cc e)
first_is-some (some (link ∷ rest)) ifindex e =
    (rest, ap (λ l. some (l ∷ rest)) ((==_iff link ifindex).0 e))

-- A refusal needs both tests.
both_true : (a b : Bool) → not (a && b) ≡ false → (a ≡ true) × (b ≡ true)
both_true true true e = (refl, refl)
both_true true false e = absurd (cc e)
both_true false b e = absurd (cc e)

module _ {T : Type 0} (rg : Ranger T) (sn : ServiceNetwork T) where
  -- A dial into the tunnel: the table of the daemon leads from the address to the peer, and the kernel's
  -- route to the address to the interface.
  pub record Recurses (route_get : Bytes → Option (List ℕ)) (ifindex : ℕ) (pid : PeerId)
      (ip : Bytes) : Type 0 where
    pub leads : Leads rg sn ip pid
    pub others : List ℕ
    pub through : route_get ip ≡ some (ifindex ∷ others)

  intercept_addr_dial_of_Recurses :
      (route_get : Bytes → Option (List ℕ)) (ifindex : ℕ) (pid : PeerId) (ip : Bytes)
      → Recurses route_get ifindex pid ip
      → intercept_addr_dial rg sn.config route_get ifindex pid (some ip) ≡ ok false
  unfolding intercept_addr_dial first_is
  intercept_addr_dial_of_Recurses route_get ifindex pid ip h =
      let same = (bytes_eq_iff h.leads.entry.target.id pid).1 h.leads.target in
      rw (intercept_addr_dial, h.leads.route, h.through, same, ==_refl ifindex) refl

  intercept_addr_dial-Recurses :
      (route_get : Bytes → Option (List ℕ)) (ifindex : ℕ) (pid : PeerId) (ip : Bytes)
      → intercept_addr_dial rg sn.config route_get ifindex pid (some ip) ≡ ok false
      → Recurses route_get ifindex pid ip
  unfolding intercept_addr_dial
  intercept_addr_dial-Recurses route_get ifindex pid ip e =
      let (found, route, tested) = bind_ok (find_route_for_ip rg sn.config ip) _ e in
      elim (Option-cases found) [
        | inl nothing ↦
            let wrong : true ≡ false = ok-injective (rw nothing at tested) in absurd (cc wrong)
        | inr (rte, there) ↦
            let refused : not (bytes_eq rte.target.id pid && first_is (route_get ip) ifindex)
                ≡ false =
              ok-injective (rw there at tested) in
            let (own, link) =
              both_true (bytes_eq rte.target.id pid) (first_is (route_get ip) ifindex) refused in
            let (others, through) = first_is-some (route_get ip) ifindex link in
            record {
              leads = record {
                entry = rte;
                route = route ∙ ap ok there;
                target = (bytes_eq_iff rte.target.id pid).0 own;
              };
              others = others;
              through = through;
            }
      ]

  windows_of_Leads :
      (pid : PeerId) (ip : Bytes)
      → Leads rg sn ip pid
      → windows_intercept_addr_dial rg sn.config pid (some ip) ≡ ok false
  unfolding windows_intercept_addr_dial
  windows_of_Leads pid ip h =
      let same = (bytes_eq_iff h.entry.target.id pid).1 h.target in
      rw (windows_intercept_addr_dial, h.route, same) refl

  -- When the gater outside Windows refuses to dial a peer at an IPv4 address, then the one route of the
  -- daemon's table to that address leads to the peer, and the first of the kernel's routes to it goes
  -- through the daemon's interface; an IPv4 packet to that address, which is not the node's own, is sent
  -- to the same peer by the packet loop, so that the connection would have run through itself; and the
  -- gater on Windows refuses the dial too.
  pub intercept_addr_dial-packet_round :
      (listen : Bytes → ℕ → Outcome (Unit {0})) (route_get : Bytes → Option (List ℕ)) (ifindex : ℕ)
      (pid : PeerId) (packet : Bytes)
      → bit_and (get_or packet 0 0) 0xf0 ≡ 0x40
      → ip_equal sn.config.builtin_addr4 (slice packet 16 20) ≡ false
      → intercept_addr_dial rg sn.config route_get ifindex pid (some (slice packet 16 20))
        ≡ ok false
      → Recurses route_get ifindex pid (slice packet 16 20)
        × (packet_round rg listen sn packet ≡ ok (sn, sent_to pid))
        × (windows_intercept_addr_dial rg sn.config pid (some (slice packet 16 20)) ≡ ok false)
  intercept_addr_dial-packet_round listen route_get ifindex pid packet is4 other refused =
      let h = intercept_addr_dial-Recurses route_get ifindex pid (slice packet 16 20) refused in
      (
        h,
        (packet_round-sent_to_iff rg listen sn packet pid).1 (v4 is4 other h.leads),
        windows_of_Leads pid (slice packet 16 20) h.leads,
      )
