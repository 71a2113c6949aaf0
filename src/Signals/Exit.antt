-- ===== src/Signals/Exit.antt =====
-- What is left behind when the daemon ends on a signal.
use mynetwork.Common.{
  ◌≡◌, sym, ap, subst, ◌∙◌, inl, inr, true, false, none, some, Pair-cases, Bytes, Outcome, ok,
  fatal,
}
use mynetwork.Signals.{Calls, Running, fatal_or, bring_down, remove_and_down, shut_down}

-- Who removes the lock without an error has removed it, and the other calls do not bring it back or take
-- it away.
pub record LockLaws {W : Type 0} (calls : Calls W) : Type 0 where
  pub removed : (w w' : W) → calls.remove_lock w ≡ (w', none) → calls.lock_exists w' ≡ false
  pub host_keeps : (w : W) → calls.lock_exists (calls.close_host w).0 ≡ calls.lock_exists w
  pub iface_keeps : (w : W) → calls.lock_exists (calls.close_iface w) ≡ calls.lock_exists w
  pub down_keeps : (w : W) → calls.lock_exists (calls.down w).0 ≡ calls.lock_exists w

module _ {W : Type 0} (calls : Calls W) (laws : LockLaws calls) where
  -- How the case ends. Each way names the calls before it, with the states that they leave, in their
  -- order: Close of the host, the removal of the lock, and Down after the end of the interface.
  pub data Ends (w : W) : W × Outcome (Running W) → Type 0 where
    shut :
        (w1 w2 w' : W)
        → calls.close_host w ≡ (w1, none)
        → calls.remove_lock w1 ≡ (w2, none)
        → calls.down (calls.close_iface w2) ≡ (w', none)
        → calls.lock_exists w' ≡ false
        → Ends w (w', ok (record { cancelled = true; os = w' }))
    down_failed :
        (w1 w2 w' : W) (e : Bytes)
        → calls.close_host w ≡ (w1, none)
        → calls.remove_lock w1 ≡ (w2, none)
        → calls.down (calls.close_iface w2) ≡ (w', some e)
        → calls.lock_exists w' ≡ false
        → Ends w (w', fatal)
    lock_failed :
        (w1 w' : W) (e : Bytes)
        → calls.close_host w ≡ (w1, none)
        → calls.remove_lock w1 ≡ (w', some e)
        → Ends w (w', fatal)
    host_failed :
        (w' : W) (e : Bytes)
        → calls.close_host w ≡ (w', some e)
        → calls.lock_exists w' ≡ calls.lock_exists w
        → Ends w (w', fatal)

  bring_down-Ends :
      (w w1 w2 : W)
      → calls.close_host w ≡ (w1, none)
      → calls.remove_lock w1 ≡ (w2, none)
      → Ends w (bring_down calls w2)
  unfolding bring_down fatal_or
  bring_down-Ends w w1 w2 closed removed =
      let gone = laws.removed w1 w2 removed in
      let kept = laws.down_keeps (calls.close_iface w2) ∙ laws.iface_keeps w2 ∙ gone in
      let next : W → W × Outcome (Running W) =
        λ w'. (w', ok (record { cancelled = true; os = w' })) in
      elim (Pair-cases (calls.down (calls.close_iface w2))) [
        | inl (w', fine) ↦
            subst (Ends w) (sym (ap (fatal_or calls next) fine)) (
              shut w1 w2 w' closed removed fine (ap (λ r. calls.lock_exists r.0) (sym fine) ∙ kept))
        | inr (w', e, failed) ↦ subst (Ends w) (sym (ap (fatal_or calls next) failed)) (
            down_failed w1 w2 w' e closed removed failed
              (ap (λ r. calls.lock_exists r.0) (sym failed) ∙ kept))
      ]

  remove_and_down-Ends :
      (w w1 : W) → calls.close_host w ≡ (w1, none) → Ends w (remove_and_down calls w1)
  unfolding remove_and_down fatal_or
  remove_and_down-Ends w w1 closed = elim (Pair-cases (calls.remove_lock w1)) [
    | inl (w2, removed) ↦
        subst (Ends w) (sym (ap (fatal_or calls (bring_down calls)) removed))
          (bring_down-Ends w w1 w2 closed removed)
    | inr (w', e, failed) ↦
        subst (Ends w) (sym (ap (fatal_or calls (bring_down calls)) failed))
          (lock_failed w1 w' e closed failed)
  ]

  -- The case of SIGINT and SIGTERM outside Windows ends in one of four ways, by the first call that
  -- fails. If Close of the host, the removal of the lock and then Down succeed, each in the state that the
  -- one before has left, the context is cancelled and the lock is gone. If Down fails, the process ends by
  -- log.Fatal with the lock gone; if the removal fails, it ends there; and if Close of the host fails, it
  -- ends there with the lock still there if it was there before. The calls but the removal leave the lock
  -- as it is.
  pub shut_down-Ends : (w : W) → Ends w (shut_down calls w)
  unfolding shut_down fatal_or
  shut_down-Ends w = elim (Pair-cases (calls.close_host w)) [
    | inl (w1, closed) ↦
        subst (Ends w) (sym (ap (fatal_or calls (remove_and_down calls)) closed))
          (remove_and_down-Ends w w1 closed)
    | inr (w', e, failed) ↦
        subst (Ends w) (sym (ap (fatal_or calls (remove_and_down calls)) failed)) (
          host_failed w' e failed
            (ap (λ r. calls.lock_exists r.0) (sym failed) ∙ laws.host_keeps w))
  ]
