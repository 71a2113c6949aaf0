-- ===== src/Checks/OfSignals.antt =====
-- Instances of the theorems about signals, on a system that is the lock alone.
use mynetwork.Common.{refl, sym, ap, ◌≢◌, Bool, true, false, none, some, [], ◌∷◌, ◌++◌, codes}
use mynetwork.Signals.{Calls, shut_down}
use mynetwork.Signals.Exit.{LockLaws, Ends, shut_down-Ends}
use mynetwork.Signals.Windows.{
  waiting, console_event, go_signal, pick_done, pick_shutdown, is_handled,
  setup_console_ctrl_handler, run, fresh,
}
use mynetwork.Signals.Windows.Liveness.{run-console_event}

-- Close of the host fails.
abbrev stubborn : Calls Bool
stubborn = record {
  close_host = λ w. (w, some (codes "busy"));
  lock_exists = λ w. w;
  remove_lock = λ w. (false, none);
  close_iface = λ w. w;
  down = λ w. (w, none);
  rebootstrap = λ w. w;
}

stubborn-LockLaws : LockLaws stubborn
stubborn-LockLaws = record {
  removed = λ w w' e. ap (λ r. r.0) (sym e);
  host_keeps = λ w. refl;
  iface_keeps = λ w. refl;
  down_keeps = λ w. refl;
}

shut_down-Ends_example : Ends stubborn stubborn-LockLaws true (shut_down stubborn true)
shut_down-Ends_example = shut_down-Ends stubborn stubborn-LockLaws true

run-console_event_example :
    (run stubborn true
      (λ w. (w, true))
      (λ w. w)
      ((pick_done ∷ []) ++ (console_event 2 ∷ ((go_signal ∷ []) ++ pick_shutdown 3 ∷ [])))
      (setup_console_ctrl_handler stubborn true (λ w. (w, true)) (λ w. w) (fresh true)).0).phase
    ≢ waiting
unfolding is_handled
run-console_event_example =
    run-console_event stubborn true (λ w. (w, true)) (λ w. w) true (pick_done ∷ []) (go_signal ∷ [])
      2 3 refl
