-- ===== src/Svc/Network/Once.antt =====
-- That an address and port is listened on once.
use mynetwork.Common.{
  ℕ, ◌≡◌, Bool, true, false, List, [], ◌∷◌, Bytes, get, put, get-put, bytes_eq_iff, is_some,
  Outcome, ok, arith, Bool-cases, Option-cases, inl, inr, subst, ok-injective,
}
use mynetwork.Svc.{Proxy, ServiceNetwork, Event}
use mynetwork.Svc.Network.{register, port_active, with_addr, with_port, ensure_listener}
use mynetwork.Svc.Network.Reach.{ensured_active}

module _ {T : Type 0} where
  -- The states that calls of Register and EnsureListener lead to, whatever they are given and give, and
  -- whatever the network stack answers.
  pub data IsAfter (sn : ServiceNetwork T) : ServiceNetwork T → Type 0 where
    at_once : IsAfter sn sn
    registered :
        {sn1 : ServiceNetwork T} (name : Bytes) (proxy : Proxy)
        → IsAfter sn sn1
        → IsAfter sn (register sn1 name proxy)
    ensured :
        {sn1 sn2 : ServiceNetwork T} {b : Bool} {events : List Event}
        (listen : Bytes → ℕ → Outcome (Unit {0})) (addr : Bytes) (port : ℕ)
        → IsAfter sn sn1
        → ensure_listener listen sn1 addr port ≡ ok (sn2, b, events)
        → IsAfter sn sn2

  -- The address is known and the port entered.
  abbrev IsServed : Bytes → ℕ → ServiceNetwork T → Type 0
  IsServed addr port sn =
      (is_some (get sn.active_addrs addr) ≡ true) × (port_active sn addr port ≡ true)

  module _ (addr : Bytes) (port : ℕ) where
    with_port-IsServed :
        (sn : ServiceNetwork T) (a : Bytes) (p : ℕ) {sn' : ServiceNetwork T}
        → with_port sn a p ≡ ok sn'
        → IsServed addr port sn
        → IsServed addr port sn'
    unfolding with_port port_active
    with_port-IsServed sn a p {sn'} e (known, active) =
        elim (Option-cases (get sn.active_ports a)) [
          | inl missing ↦ absurd (cc (missing, e))
          | inr (ports, there) ↦
              let written : record sn { active_ports = put sn.active_ports a (p ∷ ports) } ≡ sn' =
                ok-injective (rw (there, with_port) at e) in
              subst (IsServed addr port) written (
                known,
                ground (
                  arith,
                  active,
                  there,
                  get-put sn.active_ports a addr (p ∷ ports),
                  bytes_eq_iff a addr,
                ),
              )
        ]

    -- A fresh address is another one.
    with_addr-IsServed :
        (sn : ServiceNetwork T) (a : Bytes)
        → is_some (get sn.active_addrs a) ≡ false
        → IsServed addr port sn
        → IsServed addr port (with_addr sn a)
    unfolding with_addr port_active
    with_addr-IsServed sn a fresh (known, active) = (
      ground (arith, known, fresh, get-put sn.active_addrs a addr tt),
      ground (arith, known, fresh, active, get-put sn.active_ports a addr [], bytes_eq_iff a addr),
    )

    ensure_listener-IsServed :
        (listen : Bytes → ℕ → Outcome (Unit {0})) (sn : ServiceNetwork T) (a : Bytes) (p : ℕ)
        {sn' : ServiceNetwork T} {b : Bool} {events : List Event}
        → ensure_listener listen sn a p ≡ ok (sn', b, events)
        → IsServed addr port sn
        → IsServed addr port sn'
    unfolding ensure_listener
    ensure_listener-IsServed listen sn a p {sn'} e h =
        elim (Bool-cases (is_some (get sn.active_addrs a))) [
          | inl known ↦ ground (arith, known, h, with_port-IsServed sn a p {sn' = sn'})
          | inr fresh ↦ ground (
            arith,
            fresh,
            with_port-IsServed (with_addr sn a) a p {sn' = sn'},
            with_addr-IsServed sn a fresh h,
            h,
          )
        ]

    IsAfter-IsServed :
        {sn sn' : ServiceNetwork T}
        → IsAfter sn sn'
        → IsServed addr port sn
        → IsServed addr port sn'
    unfolding register port_active
    IsAfter-IsServed at_once h = h
    IsAfter-IsServed (registered name proxy more) h = IsAfter-IsServed more h
    IsAfter-IsServed (ensured {sn1} {sn2} listen a p more e) h =
        ensure_listener-IsServed listen sn1 a p e (IsAfter-IsServed more h)

  -- Once `EnsureListener` has succeeded for an address and port, it does nothing and succeeds for them
  -- ever after, whatever calls of Register and EnsureListener, for these or other addresses and ports,
  -- come between, and whatever the network stack would answer.
  pub ensure_listener_again :
      (listen listen' : Bytes → ℕ → Outcome (Unit {0})) (sn : ServiceNetwork T) (addr : Bytes)
      (port : ℕ) {sn1 sn2 : ServiceNetwork T} {events : List Event}
      → ensure_listener listen sn addr port ≡ ok (sn1, true, events)
      → IsAfter sn1 sn2
      → ensure_listener listen' sn2 addr port ≡ ok (sn2, true, [])
  unfolding ensure_listener
  ensure_listener_again listen listen' sn addr port e more =
      let (known, active) =
        IsAfter-IsServed addr port more (ensured_active listen sn addr port e) in
      rw (known, active)
