-- ===== src/Svc/Network/Invariant.antt =====
-- The two sets of the service network agree, so that no write meets a missing map.
use mynetwork.Common.{
  ℕ, ◌≡◌, Bool, List, [], ◌∷◌, Bytes, get, put, get-put, bytes_eq_iff, subst, ok-injective, is_some,
  Outcome, ok, arith, Option-cases, inl, inr,
}
use mynetwork.Svc.{ServiceNetwork, Event}
use mynetwork.Svc.Network.{with_addr, with_port, ensure_listener}

module _ {T : Type 0} where
  -- An address is active exactly when it has a map of ports.
  pub record IsCoherent (sn : ServiceNetwork T) : Type 0 where
    pub agree : (a : Bytes) → is_some (get sn.active_addrs a) ≡ is_some (get sn.active_ports a)

  with_addr-IsCoherent :
      (sn : ServiceNetwork T) (addr : Bytes) → IsCoherent sn → IsCoherent (with_addr sn addr)
  unfolding with_addr
  with_addr-IsCoherent sn addr h = record {
    agree = λ a.
        ground
          (arith, h.agree a, get-put sn.active_addrs addr a tt, get-put sn.active_ports addr a []);
  }

  with_port-IsCoherent :
      (sn : ServiceNetwork T) (addr : Bytes) (port : ℕ) {sn' : ServiceNetwork T}
      → with_port sn addr port ≡ ok sn'
      → IsCoherent sn
      → IsCoherent sn'
  unfolding with_port
  with_port-IsCoherent sn addr port {sn'} e h = elim (Option-cases (get sn.active_ports addr)) [
    | inl missing ↦ absurd (cc (missing, e))
    | inr (ports, there) ↦
        let written : record sn { active_ports = put sn.active_ports addr (port ∷ ports) } ≡ sn' =
          ok-injective (rw (there, with_port) at e) in
        subst IsCoherent written (record {
          agree = λ a. ground (
            arith,
            h.agree a,
            there,
            get-put sn.active_ports addr a (port ∷ ports),
            bytes_eq_iff addr a,
          );
        })
  ]

  -- Every call of `EnsureListener` that returns keeps the two sets in agreement: an address is active
  -- exactly when it has a set of ports.
  pub ensure_listener-IsCoherent :
      (listen : Bytes → ℕ → Outcome (Unit {0})) (sn : ServiceNetwork T) (addr : Bytes) (port : ℕ)
      {sn' : ServiceNetwork T} {b : Bool} {events : List Event}
      → ensure_listener listen sn addr port ≡ ok (sn', b, events)
      → IsCoherent sn
      → IsCoherent sn'
  unfolding ensure_listener
  ensure_listener-IsCoherent listen sn addr port {sn'} e h = ground (
    arith,
    with_port-IsCoherent sn addr port {sn' = sn'},
    with_port-IsCoherent (with_addr sn addr) addr port {sn' = sn'},
    with_addr-IsCoherent sn addr h,
  )
