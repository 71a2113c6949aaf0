-- ===== src/Signals/Windows/Sound.antt =====
-- The variables of the console's handler agree with where the loop is.
use mynetwork.Common.{
  ℕ, zero, suc, ◌≡◌, refl, sym, ap, ◌∙◌, ◌≢◌, inl, inr, Bool, true, false, if_both, Bool-cases,
  Option, none, some, is_some, List, [], ◌∷◌, ◌++◌, take, arith,
}
use mynetwork.Signals.{Calls}
use mynetwork.Signals.Windows.{
  Phase, waiting, returned, exited, Handler, Step, console_event, go_signal, done, pick_done,
  pick_exit, pick_shutdown, is_handled, console_ctrl_handler, shutdown_steps, run_steps,
  perform_shutdown, take_case, step, run,
}

module _ {W : Type 0} where
  -- While the handler waits, a shutdown is in progress exactly when the message is in the channel.
  pub record IsSound (s : Handler W) : Type 0 where
    pub ready : is_some s.shutdown_ch ≡ true
    pub pending : s.phase ≡ waiting → s.shutdown_in_progress ≡ true → s.shutdown_ch ≡ some true
    pub begun : s.shutdown_ch ≡ some true → s.shutdown_in_progress ≡ true

  -- A case is taken only in the loop.
  when_waiting :
      (P : Handler W → Type 0) (p : Phase) (s s' : Handler W)
      → P s'
      → P s
      → P (elim p [ waiting ↦ s' | _ ↦ s ])
  when_waiting P waiting s s' new old = new
  when_waiting P returned s s' new old = old
  when_waiting P (exited code) s s' new old = old

  pub leaves_waiting :
      (p : Phase) (s s' : Handler W)
      → p ≡ s.phase
      → (p ≡ waiting → s'.phase ≢ waiting)
      → (let r : Handler W = elim p [ waiting ↦ s' | _ ↦ s ] in r.phase ≢ waiting)
  leaves_waiting waiting s s' q k = k refl
  leaves_waiting returned s s' q k = λ e. absurd (cc (q, e))
  leaves_waiting (exited code) s s' q k = λ e. absurd (cc (q, e))

  pub takes_full :
      (o : Option Bool) (s s' : Handler W)
      → o ≡ some true
      → s'.phase ≢ waiting
      → (let r : Handler W = elim o [ some true ↦ s' | _ ↦ s ] in r.phase ≢ waiting)
  takes_full (some true) s s' full k = k
  takes_full (some false) s s' full k = λ e. absurd (cc full)
  takes_full none s s' full k = λ e. absurd (cc full)

  pub console_ctrl_handler-IsSound :
      (c : ℕ) (s : Handler W) → IsSound s → IsSound (console_ctrl_handler c s).0
  unfolding console_ctrl_handler
  console_ctrl_handler-IsSound c s h = record {
    ready = ground (arith, h.ready);
    pending = λ w p. ground (arith, h.ready, h.pending, h.begun, w, p);
    begun = λ f. ground (arith, h.ready, h.begun, f);
  }

  pub console_ctrl_handler-InProgress :
      (c : ℕ) (s : Handler W)
      → is_handled c ≡ true
      → IsSound s
      → (console_ctrl_handler c s).0.shutdown_in_progress ≡ true
  unfolding console_ctrl_handler
  console_ctrl_handler-InProgress c s handled h = ground (arith, handled, h.ready, h.begun)

module _ {W : Type 0} (calls : Calls W) (has_device : Bool) (set_handler : W → W × Bool)
    (drop_handlers : W → W) where
  run_steps-keeps :
      (n : ℕ) (s : Handler W)
      → ((run_steps calls has_device set_handler drop_handlers
            (take n (shutdown_steps calls has_device set_handler drop_handlers))
            s).shutdown_ch
          ≡ s.shutdown_ch)
        × ((run_steps calls has_device set_handler drop_handlers
              (take n (shutdown_steps calls has_device set_handler drop_handlers))
              s).shutdown_in_progress
            ≡ s.shutdown_in_progress)
  unfolding run_steps shutdown_steps
  run_steps-keeps zero s = (refl, refl)
  run_steps-keeps (suc zero) s = (refl, refl)
  run_steps-keeps (suc (suc zero)) s = (refl, refl)
  run_steps-keeps (suc (suc (suc zero))) s = (refl, refl)
  run_steps-keeps (suc (suc (suc (suc zero)))) s = (refl, refl)
  run_steps-keeps (suc (suc (suc (suc (suc n))))) s = (refl, refl)

  -- After the shutdown, in whatever time.
  perform_shutdown-keeps :
      (n : ℕ) (s : Handler W)
      → ((perform_shutdown calls has_device set_handler drop_handlers n s).shutdown_ch
          ≡ s.shutdown_ch)
        × ((perform_shutdown calls has_device set_handler drop_handlers n s).shutdown_in_progress
            ≡ s.shutdown_in_progress)
  unfolding perform_shutdown
  perform_shutdown-keeps n s = elim (Bool-cases s.handler_set) [
    | inl set ↦
        let (a, b) =
          run_steps-keeps n (record s { handler_set = false; os = drop_handlers s.os }) in
        (rw set a, rw set b)
    | inr unset ↦
        let (a, b) = run_steps-keeps n (record s { handler_set = false }) in
        (rw unset a, rw unset b)
  ]

  pub perform_shutdown-exited :
      (n : ℕ) (s : Handler W)
      → (perform_shutdown calls has_device set_handler drop_handlers n s).phase ≢ waiting
  unfolding perform_shutdown
  perform_shutdown-exited n s e = cc

  perform_shutdown-IsSound :
      (n : ℕ) (s : Handler W)
      → is_some s.shutdown_ch ≡ true
      → (s.shutdown_ch ≡ some true → s.shutdown_in_progress ≡ true)
      → IsSound (perform_shutdown calls has_device set_handler drop_handlers n s)
  perform_shutdown-IsSound n s ready begun =
      let (a, b) = perform_shutdown-keeps n s in
      record {
        ready = ap is_some a ∙ ready;
        pending = λ w p. absurd (perform_shutdown-exited n s w);
        begun = λ f. b ∙ begun (sym a ∙ f);
      }

  -- The channel with its message, or without.
  take_case-IsSound :
      (x : Step) (s : Handler W)
      → IsSound s
      → IsSound (take_case calls has_device set_handler drop_handlers x s)
  unfolding take_case
  take_case-IsSound (console_event c) s h = h
  take_case-IsSound go_signal s h = h
  take_case-IsSound done s h = h
  take_case-IsSound pick_done s h =
      if_both IsSound s.cancelled
        (record { ready = h.ready; pending = λ w. absurd (cc w); begun = h.begun }) h
  take_case-IsSound (pick_exit n) s h =
      if_both IsSound s.exit_ch
        (perform_shutdown-IsSound n (record s { exit_ch = false }) h.ready h.begun) h
  take_case-IsSound (pick_shutdown n) s h =
      let shut : Handler W =
        perform_shutdown calls has_device set_handler drop_handlers n
          (record s { shutdown_ch = some false }) in
      let sound =
        perform_shutdown-IsSound n (record s { shutdown_ch = some false }) refl (λ e. cc) in
      elim s.shutdown_ch as (λ o. IsSound (elim o [ some true ↦ shut | _ ↦ s ])) [
        | some true ↦ sound
        | some false ↦ h
        | none ↦ h
      ]

  -- The states that the cases lead to.
  unfoldable pub taken : Step → Handler W → Handler W
  taken x s = take_case calls has_device set_handler drop_handlers x s

  step-IsSound :
      (x : Step) (s : Handler W)
      → IsSound s
      → IsSound (step calls has_device set_handler drop_handlers x s)
  unfolding step taken
  step-IsSound (console_event c) s h = console_ctrl_handler-IsSound c s h
  step-IsSound go_signal s h = record { ready = h.ready; pending = h.pending; begun = h.begun }
  step-IsSound done s h = record { ready = h.ready; pending = h.pending; begun = h.begun }
  step-IsSound pick_done s h =
      when_waiting IsSound s.phase s (taken pick_done s) (take_case-IsSound pick_done s h) h
  step-IsSound (pick_exit n) s h =
      when_waiting IsSound s.phase s (taken (pick_exit n) s) (take_case-IsSound (pick_exit n) s h) h
  step-IsSound (pick_shutdown n) s h =
      when_waiting IsSound s.phase s (taken (pick_shutdown n) s)
        (take_case-IsSound (pick_shutdown n) s h) h

  abbrev pub InProgress : Handler W → Type 0
  InProgress s = s.shutdown_in_progress ≡ true

  take_case-InProgress : (x : Step) (s : Handler W) → InProgress s → InProgress (taken x s)
  unfolding take_case taken
  take_case-InProgress (console_event c) s h = h
  take_case-InProgress go_signal s h = h
  take_case-InProgress done s h = h
  take_case-InProgress pick_done s h = if_both InProgress s.cancelled h h
  take_case-InProgress (pick_exit n) s h =
      if_both InProgress s.exit_ch ((perform_shutdown-keeps n (record s { exit_ch = false })).1 ∙ h)
        h
  take_case-InProgress (pick_shutdown n) s h =
      let shut : Handler W =
        perform_shutdown calls has_device set_handler drop_handlers n
          (record s { shutdown_ch = some false }) in
      elim s.shutdown_ch as (λ o. InProgress (elim o [ some true ↦ shut | _ ↦ s ])) [
        | some true ↦ (perform_shutdown-keeps n (record s { shutdown_ch = some false })).1 ∙ h
        | some false ↦ h
        | none ↦ h
      ]

  step-InProgress :
      (x : Step) (s : Handler W)
      → InProgress s
      → InProgress (step calls has_device set_handler drop_handlers x s)
  unfolding step taken console_ctrl_handler
  step-InProgress (console_event c) s h = ground (arith, h)
  step-InProgress go_signal s h = h
  step-InProgress done s h = h
  step-InProgress pick_done s h =
      when_waiting InProgress s.phase s (taken pick_done s) (take_case-InProgress pick_done s h) h
  step-InProgress (pick_exit n) s h =
      when_waiting InProgress s.phase s (taken (pick_exit n) s)
        (take_case-InProgress (pick_exit n) s h) h
  step-InProgress (pick_shutdown n) s h =
      when_waiting InProgress s.phase s (taken (pick_shutdown n) s)
        (take_case-InProgress (pick_shutdown n) s h) h

  pub run-IsSound :
      (xs : List Step) (s : Handler W)
      → IsSound s
      → IsSound (run calls has_device set_handler drop_handlers xs s)
  unfolding run
  run-IsSound [] s h = h
  run-IsSound (x ∷ xs) s h = run-IsSound xs _ (step-IsSound x s h)

  pub run-InProgress :
      (xs : List Step) (s : Handler W)
      → InProgress s
      → InProgress (run calls has_device set_handler drop_handlers xs s)
  unfolding run
  run-InProgress [] s h = h
  run-InProgress (x ∷ xs) s h = run-InProgress xs _ (step-InProgress x s h)

  pub run-append :
      (xs ys : List Step) (s : Handler W)
      → run calls has_device set_handler drop_handlers (xs ++ ys) s
        ≡ run calls has_device set_handler drop_handlers ys
            (run calls has_device set_handler drop_handlers xs s)
  unfolding run
  run-append [] ys s = refl
  run-append (x ∷ xs) ys s = run-append xs ys _
