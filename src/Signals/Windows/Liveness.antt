-- ===== src/Signals/Windows/Liveness.antt =====
-- An event of the console ends the daemon.
use mynetwork.Common.{
  ℕ, ◌≡◌, refl, sym, ap, ◌∙◌, ◌≢◌, Bool, true, false, Bool-cases, some, List, [], ◌∷◌, ◌++◌, arith,
}
use mynetwork.Signals.{Calls}
use mynetwork.Signals.Windows.{
  waiting, Handler, Step, console_event, pick_shutdown, is_handled, console_ctrl_handler,
  setup_console_ctrl_handler, perform_shutdown, take_case, step, run, fresh,
}
use mynetwork.Signals.Windows.Sound.{
  IsSound, InProgress, console_ctrl_handler-IsSound, console_ctrl_handler-InProgress,
  leaves_waiting, takes_full, perform_shutdown-exited, taken, run-IsSound, run-InProgress,
  run-append,
}

module _ {W : Type 0} (calls : Calls W) (has_device : Bool) (set_handler : W → W × Bool)
    (drop_handlers : W → W) where
  -- The case of the channel, once a shutdown is in progress.
  step-pick_shutdown :
      (n : ℕ) (s : Handler W)
      → IsSound s
      → InProgress calls has_device set_handler drop_handlers s
      → (step calls has_device set_handler drop_handlers (pick_shutdown n) s).phase ≢ waiting
  unfolding step take_case taken
  step-pick_shutdown n s h begun =
      let emptied : Handler W = record s { shutdown_ch = some false } in
      let shut = perform_shutdown calls has_device set_handler drop_handlers n emptied in
      leaves_waiting s.phase s
        (taken calls has_device set_handler drop_handlers (pick_shutdown n) s) refl
        (λ waits.
          takes_full s.shutdown_ch s shut (h.pending waits begun)
            (perform_shutdown-exited calls has_device set_handler drop_handlers n emptied))

  started-IsSound :
      (w : W)
      → IsSound (setup_console_ctrl_handler calls has_device set_handler drop_handlers (fresh w)).0
  unfolding setup_console_ctrl_handler
  started-IsSound w = ground (arith, Bool-cases (set_handler w).1)

  -- On Windows, from the start of the handler and through any sequence of events of the console,
  -- signals and cases that select takes: after an event of the console of one of the five handled kinds,
  -- whenever select takes the case of the shutdown channel later, the handler is out of its loop, since
  -- the process has been ended or the handler has returned. In whatever time the steps of the shutdown
  -- end.
  pub run-console_event :
      (w : W) (before after : List Step) (c n : ℕ)
      → is_handled c ≡ true
      → (run calls has_device set_handler drop_handlers
          (before ++ (console_event c ∷ (after ++ pick_shutdown n ∷ [])))
          (setup_console_ctrl_handler calls has_device set_handler drop_handlers (fresh w)).0).phase
        ≢ waiting
  unfolding run step
  run-console_event w before after c n handled =
      let s0 =
        (setup_console_ctrl_handler calls has_device set_handler drop_handlers (fresh w)).0 in
      let s1 = run calls has_device set_handler drop_handlers before s0 in
      let sound1 =
        run-IsSound calls has_device set_handler drop_handlers before s0 (started-IsSound w) in
      let s2 = (console_ctrl_handler c s1).0 in
      let s3 = run calls has_device set_handler drop_handlers after s2 in
      let last =
        step-pick_shutdown n s3
          (run-IsSound calls has_device set_handler drop_handlers after s2
            (console_ctrl_handler-IsSound c s1 sound1))
          (run-InProgress calls has_device set_handler drop_handlers after s2
            (console_ctrl_handler-InProgress c s1 handled sound1)) in
      let path =
        run-append calls has_device set_handler drop_handlers before
          (console_event c ∷ (after ++ pick_shutdown n ∷ [])) s0
        ∙ run-append calls has_device set_handler drop_handlers after (pick_shutdown n ∷ []) s2 in
      λ e. last (ap (λ s. s.phase) (sym path) ∙ e)
