-- ===== src/Signals.antt =====
-- signals/signals.go: how the daemon ends on a signal. What the handler calls is given by a record.
pub mod Windows
pub mod Exit
use mynetwork.Common.{
  Bool, true, false, Option, none, some, List, [], ◌∷◌, Bytes, Outcome, ok, fatal,
}

-- The calls, on the state of the system: `host.Close`, `os.Stat` and `os.Remove` of the lock, the end of
-- the TUN interface, `TUN.Down`, and the three calls after SIGUSR1.
pub record Calls (W : Type 0) : Type 0 where
  pub close_host : W → W × Option Bytes
  pub lock_exists : W → Bool
  pub remove_lock : W → W × Option Bytes
  pub close_iface : W → W
  pub down : W → W × Option Bytes
  pub rebootstrap : W → W

-- The context, and the system.
pub record Running (W : Type 0) : Type 0 where
  pub cancelled : Bool
  pub os : W

-- A case that select takes.
pub data Choice : Type 0 where
  context_done : Choice
  sigusr1 : Choice
  exit_signal : Choice

module _ {W : Type 0} (calls : Calls W) where
  -- `if err != nil { log.Fatal(err) }` after a call: the process ends there, in the state of the call.
  unfoldable pub fatal_or :
      (W → W × Outcome (Running W)) → W × Option Bytes → W × Outcome (Running W)
  fatal_or next (w, some e) = (w, fatal)
  fatal_or next (w, none) = next w

  -- The case of SIGINT and SIGTERM.
  unfoldable pub bring_down : W → W × Outcome (Running W)
  unfolding fatal_or
  bring_down w =
      fatal_or (λ w'. (w', ok (record { cancelled = true; os = w' })))
        (calls.down (calls.close_iface w))

  unfoldable pub remove_and_down : W → W × Outcome (Running W)
  unfolding bring_down
  remove_and_down w = fatal_or bring_down (calls.remove_lock w)

  unfoldable pub shut_down : W → W × Outcome (Running W)
  unfolding remove_and_down
  shut_down w = fatal_or remove_and_down (calls.close_host w)

  -- The loop, by the cases that select takes: it returns when the context is done, which select can
  -- only see when it is. The Boolean says whether the handler has returned.
  unfoldable pub signal_handler : List Choice → Running W → W × Outcome (Running W × Bool)
  unfolding shut_down
  signal_handler [] s = (s.os, ok (s, false))
  signal_handler (context_done ∷ choices) s =
      let rest = signal_handler choices s in
      elim s.cancelled [ true ↦ (s.os, ok (s, true)) | false ↦ rest ]
  signal_handler (sigusr1 ∷ choices) s =
      signal_handler choices (record s { os = calls.rebootstrap s.os })
  signal_handler (exit_signal ∷ choices) s =
      let (w, ended) = shut_down s.os in
      elim ended [ ok s' ↦ signal_handler choices s' | _ ↦ (w, fatal) ]
