-- ===== src/Tun/Applied.antt =====
-- What Apply promises: the options are run in their order, up to the first that fails.
use mynetwork.Common.{
  ◌≡◌, refl, sym, ap, subst, ◌∙◌, ◌↔◌, inl, inr, Option, none, some, Pair-cases, List, [], ◌∷◌,
  ◌++◌, Bytes,
}
use mynetwork.Tun.{Machine, OptionFunc, apply}

module _ {W : Type 0} where
  -- All the options have been run, one after the other, and none has failed.
  pub data HasRun : List (Option (OptionFunc W)) → Machine W → Machine W → Type 0 where
    has_run_nil : {m : Machine W} → HasRun [] m m
    has_run_skip :
        {opts : List (Option (OptionFunc W))} {m m' : Machine W}
        → HasRun opts m m'
        → HasRun (none ∷ opts) m m'
    has_run_step :
        {opt : OptionFunc W} {opts : List (Option (OptionFunc W))} {m m' m'' : Machine W}
        → opt m ≡ (m', none)
        → HasRun opts m' m''
        → HasRun (some opt ∷ opts) m m''

  -- The options before one that fails have been run, and nothing after it.
  pub record HasStopped (opts : List (Option (OptionFunc W))) (m m' : Machine W) (error : Bytes)
      : Type 0 where
    pub before : List (Option (OptionFunc W))
    pub failing : OptionFunc W
    pub after : List (Option (OptionFunc W))
    pub parts : opts ≡ before ++ some failing ∷ after
    pub reached : Machine W
    pub run : HasRun before m reached
    pub failed : failing reached ≡ (m', some error)

  rest : List (Option (OptionFunc W)) → Machine W × Option Bytes → Machine W × Option Bytes
  rest opts r = elim r.1 [ some x ↦ (r.0, some x) | none ↦ apply opts r.0 ]

  -- An option that does not fail is followed by the others; one that fails by none.
  pub apply-step :
      (opt : OptionFunc W) (opts : List (Option (OptionFunc W))) (m : Machine W) {m' : Machine W}
      → opt m ≡ (m', none)
      → apply (some opt ∷ opts) m ≡ apply opts m'
  unfolding apply rest
  apply-step opt opts m fine = ap (rest opts) fine

  pub apply-stop :
      (opt : OptionFunc W) (opts : List (Option (OptionFunc W))) (m : Machine W) {m' : Machine W}
      {error : Bytes}
      → opt m ≡ (m', some error)
      → apply (some opt ∷ opts) m ≡ (m', some error)
  unfolding apply rest
  apply-stop opt opts m failed = ap (rest opts) failed

  pub apply-HasRun :
      (opts : List (Option (OptionFunc W))) (m m' : Machine W)
      → apply opts m ≡ (m', none)
      → HasRun opts m m'
  unfolding apply
  apply-HasRun [] m m' e = subst (HasRun [] m) (ap (λ r. r.0) e) has_run_nil
  apply-HasRun (none ∷ opts) m m' e = has_run_skip (apply-HasRun opts m m' e)
  apply-HasRun (some opt ∷ opts) m m' e = elim (Pair-cases (opt m)) [
    | inl (m1, fine) ↦
        has_run_step fine (apply-HasRun opts m1 m' (sym (apply-step opt opts m fine) ∙ e))
    | inr (m1, x, failed) ↦
        let impossible : ◌≡◌ {A = Machine W × Option Bytes} (m1, some x) (m', none) =
          sym (apply-stop opt opts m failed) ∙ e in
        cc
  ]

  pub HasRun-apply :
      {opts : List (Option (OptionFunc W))} {m m' : Machine W}
      → HasRun opts m m'
      → apply opts m ≡ (m', none)
  unfolding apply
  HasRun-apply has_run_nil = refl
  HasRun-apply (has_run_skip h) = HasRun-apply h
  HasRun-apply (has_run_step {opt = opt} {opts = opts} {m = m} fine h) =
      apply-step opt opts m fine ∙ HasRun-apply h

  apply-HasStopped :
      (opts : List (Option (OptionFunc W))) (m m' : Machine W) (error : Bytes)
      → apply opts m ≡ (m', some error)
      → HasStopped opts m m' error
  unfolding apply
  apply-HasStopped [] m m' error e = cc
  apply-HasStopped (none ∷ opts) m m' error e =
      let h = apply-HasStopped opts m m' error e in
      record {
        before = none ∷ h.before;
        failing = h.failing;
        after = h.after;
        parts = ap (λ l. none ∷ l) h.parts;
        reached = h.reached;
        run = has_run_skip h.run;
        failed = h.failed;
      }
  apply-HasStopped (some opt ∷ opts) m m' error e = elim (Pair-cases (opt m)) [
    | inl (m1, fine) ↦
        let h = apply-HasStopped opts m1 m' error (sym (apply-step opt opts m fine) ∙ e) in
        record {
          before = some opt ∷ h.before;
          failing = h.failing;
          after = h.after;
          parts = ap (λ l. some opt ∷ l) h.parts;
          reached = h.reached;
          run = has_run_step fine h.run;
          failed = h.failed;
        }
    | inr (m1, x, failed) ↦ record {
      before = [];
      failing = opt;
      after = opts;
      parts = refl;
      reached = m;
      run = has_run_nil;
      failed = failed ∙ sym (apply-stop opt opts m failed) ∙ e;
    }
  ]

  -- Whatever has been run, the rest is run from there.
  pub apply-append :
      {before : List (Option (OptionFunc W))} (after : List (Option (OptionFunc W)))
      {m m' : Machine W}
      → HasRun before m m'
      → apply (before ++ after) m ≡ apply after m'
  unfolding apply
  apply-append after has_run_nil = refl
  apply-append after (has_run_skip h) = apply-append after h
  apply-append after (has_run_step {opt = opt} {opts = opts} {m = m} fine h) =
      apply-step opt (opts ++ after) m fine ∙ apply-append after h

  HasStopped-apply :
      (opts : List (Option (OptionFunc W))) (m m' : Machine W) (error : Bytes)
      → HasStopped opts m m' error
      → apply opts m ≡ (m', some error)
  unfolding apply
  HasStopped-apply opts m m' error h =
      ap (λ l. apply l m) h.parts
      ∙ apply-append (some h.failing ∷ h.after) h.run
      ∙ apply-stop h.failing h.after h.reached h.failed

  -- Apply returns nil, with the device and the system in some state, exactly when all the options that
  -- are not nil can be run in their order to that state without an error; and it returns an error
  -- exactly when some option gives it, after those before it were run in order without one, and in the
  -- state that the failing option leaves: no later option is run.
  pub apply-HasRun_iff :
      (opts : List (Option (OptionFunc W))) (m m' : Machine W) (error : Bytes)
      → ((apply opts m ≡ (m', none)) ↔ HasRun opts m m')
        × ((apply opts m ≡ (m', some error)) ↔ HasStopped opts m m' error)
  apply-HasRun_iff opts m m' error = (
    (apply-HasRun opts m m', HasRun-apply),
    (apply-HasStopped opts m m' error, HasStopped-apply opts m m' error),
  )
