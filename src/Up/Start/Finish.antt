-- ===== src/Up/Start/Finish.antt =====
-- The end of the start: the lock, the device and its routes.
use mynetwork.Common.{
  ◌≡◌, sym, ap, subst, ◌↔◌, ◌∙◌, inl, inr, List, map, Bytes, Outcome, ok, fatal, Option, none, some,
  IpNet, Pair-cases,
}
use mynetwork.Tun.{Tun, Machine, OptionFunc, apply, Driver, route_option}
use mynetwork.Tun.Applied.{HasRun, apply-HasRun, HasRun-apply}
use mynetwork.Up.Start.{apply_routes, bring_up, finish}

module _ {W : Type 0} (write_lock : W → W × Option Bytes) (up : OptionFunc W) (d : Driver W) where
  -- The steps of the end of the start, in their order and none of them failing.
  pub record IsUp (nets : List IpNet) (t : Tun) (w : W) (m' : Machine W) : Type 0 where
    pub locked : W
    pub lock : write_lock w ≡ (locked, none)
    pub raised : Machine W
    pub raise : up (t, locked) ≡ (raised, none)
    pub routed : HasRun (map (route_option d) nets) raised m'

  -- After Apply.
  ended : Machine W × Option Bytes → Machine W × Outcome (Unit {0})
  ended r = (r.0, elim r.1 [ some x ↦ fatal | none ↦ ok tt ])

  IsUp-finish :
      (nets : List IpNet) (t : Tun) (w : W) (m' : Machine W)
      → IsUp nets t w m'
      → finish write_lock up d nets (t, w) ≡ (m', ok tt)
  unfolding finish bring_up apply_routes ended
  IsUp-finish nets t w m' h =
      ap (bring_up write_lock up d nets t) h.lock
      ∙ ap (apply_routes write_lock up d nets) h.raise
      ∙ ap ended (HasRun-apply h.routed)

  apply_routes-HasRun :
      (nets : List IpNet) (m m' : Machine W)
      → apply_routes write_lock up d nets (m, none) ≡ (m', ok tt)
      → HasRun (map (route_option d) nets) m m'
  unfolding apply_routes ended
  apply_routes-HasRun nets m m' e =
      let result = apply (map (route_option d) nets) m in
      elim (Pair-cases result) [
        | inl (m1, fine) ↦
            let same : ◌≡◌ {A = Machine W × Outcome (Unit {0})} (m1, ok tt) (m', ok tt) =
              sym (ap ended fine) ∙ e in
            subst (HasRun (map (route_option d) nets) m) (ap (λ r. r.0) same)
              (apply-HasRun (map (route_option d) nets) m m1 fine)
        | inr (m1, x, failed) ↦
            let wrong : ◌≡◌ {A = Machine W × Outcome (Unit {0})} (m1, fatal) (m', ok tt) =
              sym (ap ended failed) ∙ e in
            absurd (cc wrong)
      ]

  finish-raised :
      (nets : List IpNet) (t : Tun) (w locked : W) (m' : Machine W)
      → write_lock w ≡ (locked, none)
      → apply_routes write_lock up d nets (up (t, locked)) ≡ (m', ok tt)
      → IsUp nets t w m'
  unfolding apply_routes
  finish-raised nets t w locked m' lock e = elim (Pair-cases (up (t, locked))) [
    | inl (raised, raise) ↦ record {
      locked = locked;
      lock = lock;
      raised = raised;
      raise = raise;
      routed =
          apply_routes-HasRun nets raised m'
            (sym (ap (apply_routes write_lock up d nets) raise) ∙ e);
    }
    | inr (m1, x, failed) ↦
        let wrong : ◌≡◌ {A = Machine W × Outcome (Unit {0})} (m1, fatal) (m', ok tt) =
          sym (ap (apply_routes write_lock up d nets) failed) ∙ e in
        absurd (cc wrong)
  ]

  finish-IsUp :
      (nets : List IpNet) (t : Tun) (w : W) (m' : Machine W)
      → finish write_lock up d nets (t, w) ≡ (m', ok tt)
      → IsUp nets t w m'
  unfolding finish bring_up
  finish-IsUp nets t w m' e = elim (Pair-cases (write_lock w)) [
    | inl (locked, lock) ↦
        finish-raised nets t w locked m' lock (sym (ap (bring_up write_lock up d nets t) lock) ∙ e)
    | inr (w1, x, failed) ↦
        let wrong : ◌≡◌ {A = Machine W × Outcome (Unit {0})} ((t, w1), fatal) (m', ok tt) =
          sym (ap (bring_up write_lock up d nets t) failed) ∙ e in
        absurd (cc wrong)
  ]

  -- The start of UpRun reaches the packet loop, with the device and the system in some state, exactly
  -- when the lock can be written, the device then brought up, and then the options for all the routes
  -- run in their order, each step without an error and from the state that the step before it left,
  -- and the last leaves that state; in every other case the process ends.
  pub finish-IsUp_iff :
      (nets : List IpNet) (t : Tun) (w : W) (m' : Machine W)
      → (finish write_lock up d nets (t, w) ≡ (m', ok tt)) ↔ IsUp nets t w m'
  finish-IsUp_iff nets t w m' = (finish-IsUp nets t w m', IsUp-finish nets t w m')
