-- ===== src/Signals/Windows.antt =====
-- signals/signals_windows.go: the same on Windows, where the events of the console come by a callback.
pub mod Sound
pub mod Liveness
use mynetwork.Common.{
  ℕ, Bool, true, false, not, ◌&&◌, ◌||◌, ◌==◌, leb, length, Option, none, some, is_some, List, [],
  ◌∷◌, take, Bytes, if◌then◌else◌,
}
use mynetwork.Signals.{Calls}

-- Where the handler is: in its loop, after its return, or after the end of the process with a code.
pub data Phase : Type 0 where
  waiting : Phase
  returned : Phase
  exited : ℕ → Phase

-- The package's variables, the channel of signals, the context, and the system. A channel of one place
-- is nil, empty or full.
pub record Handler (W : Type 0) : Type 0 where
  pub shutdown_ch : Option Bool
  pub handler_set : Bool
  pub shutdown_in_progress : Bool
  pub exit_ch : Bool
  pub cancelled : Bool
  pub phase : Phase
  pub os : W

-- What the system does: an event of the console, a signal, a done context; and the cases that select
-- takes, with the number of the steps of the shutdown that end within the timeout of five seconds.
pub data Step : Type 0 where
  console_event : ℕ → Step
  go_signal : Step
  done : Step
  pick_done : Step
  pick_exit : ℕ → Step
  pick_shutdown : ℕ → Step

-- CTRL_C_EVENT, CTRL_BREAK_EVENT, CTRL_CLOSE_EVENT, CTRL_LOGOFF_EVENT and CTRL_SHUTDOWN_EVENT.
unfoldable pub is_handled : ℕ → Bool
is_handled c = (c == 0) || (c == 1) || (c == 2) || (c == 5) || (c == 6)

-- `consoleCtrlHandler`, with whether the event was handled.
unfoldable pub console_ctrl_handler : {W : Type 0} → ℕ → Handler W → Handler W × Bool
unfolding is_handled
console_ctrl_handler c s =
    if not (is_handled c)
    then (s, false)
    else if s.shutdown_in_progress
    then (s, true)
    else (elim s.shutdown_ch [
      | none ↦ (s, true)
      | some true ↦ (s, true)
      | some false ↦ (record s { shutdown_ch = some true; shutdown_in_progress = true }, true)
    ])

module _ {W : Type 0} (calls : Calls W) (has_device : Bool) (set_handler : W → W × Bool)
    (drop_handlers : W → W) where
  -- `setupConsoleCtrlHandler`; the result says whether there was no error.
  unfoldable pub setup_console_ctrl_handler : Handler W → Handler W × Bool
  setup_console_ctrl_handler s =
      let (w, added) = set_handler s.os in
      let made = record s { shutdown_ch = some false; os = w } in
      if s.handler_set
      then (s, true)
      else if added
      then (record made { handler_set = true }, true)
      else (made, false)

  -- The steps of `performShutdown` after the timer was started. Errors are printed.
  unfoldable pub close_device : W → W
  close_device w = if has_device then (calls.down (calls.close_iface w)).0 else w

  unfoldable pub remove_if_there : W → W
  remove_if_there w = if calls.lock_exists w then (calls.remove_lock w).0 else w

  unfoldable pub shutdown_steps : List (Handler W → Handler W)
  unfolding close_device remove_if_there
  shutdown_steps =
      (λ s. record s { cancelled = true })
      ∷ (λ s. record s { os = (calls.close_host s.os).0 })
      ∷ (λ s. record s { os = close_device s.os })
      ∷ (λ s. record s { os = remove_if_there s.os })
      ∷ []

  unfoldable pub run_steps : List (Handler W → Handler W) → Handler W → Handler W
  run_steps [] s = s
  run_steps (step ∷ steps) s = run_steps steps (step s)

  -- The timer ends the process with the code 1, and the end of the steps with 0.
  unfoldable pub perform_shutdown : ℕ → Handler W → Handler W
  unfolding shutdown_steps run_steps
  perform_shutdown timely s =
      let unset =
        if s.handler_set then record s { handler_set = false; os = drop_handlers s.os } else s in
      let s' = run_steps (take timely shutdown_steps) unset in
      record s' { phase = exited (if leb (length shutdown_steps) timely then 0 else 1) }

  -- The loop of `SignalHandler`: a case is taken only when it is ready.
  unfoldable pub take_case : Step → Handler W → Handler W
  unfolding perform_shutdown
  take_case pick_done s = if s.cancelled then record s { phase = returned } else s
  take_case (pick_exit n) s =
      if s.exit_ch then perform_shutdown n (record s { exit_ch = false }) else s
  take_case (pick_shutdown n) s = elim s.shutdown_ch [
    | some true ↦ perform_shutdown n (record s { shutdown_ch = some false })
    | _ ↦ s
  ]
  take_case _ s = s

  -- What happens outside the loop, and inside it while it waits.
  unfoldable pub step : Step → Handler W → Handler W
  unfolding console_ctrl_handler take_case
  step (console_event c) s = (console_ctrl_handler c s).0
  step go_signal s = record s { exit_ch = true }
  step done s = record s { cancelled = true }
  step pick s = elim s.phase [ waiting ↦ take_case pick s | _ ↦ s ]

  unfoldable pub run : List Step → Handler W → Handler W
  unfolding step
  run [] s = s
  run (x ∷ xs) s = run xs (step x s)

-- The variables at the start of the process.
abbrev pub fresh : {W : Type 0} → W → Handler W
fresh w = record {
  shutdown_ch = none;
  handler_set = false;
  shutdown_in_progress = false;
  exit_ch = false;
  cancelled = false;
  phase = waiting;
  os = w;
}
