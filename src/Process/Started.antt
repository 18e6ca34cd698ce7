-- ===== src/Process/Started.antt =====
-- How main ends.
use mock_storage_operator.Prelude.{◌≡◌, refl}
use mock_storage_operator.Exec.{Exec, ok, Reply, value, error, attempt, ◌>>=◌}
use mock_storage_operator.Exec.Ensures.{
  Ensures, Ensures-at, Ensures-self, Ensures-bind, Ensures-pure,
}
use mock_storage_operator.Process.{
  Flags, default_flags, End, returned, exited, or_exit, Runtime, run_manager, main,
}

module _ {W Manager : Type 0} (r : Runtime W Manager) where
  -- each step has succeeded, in this order
  pub record HasRun (before after : W) : Type 0 where
    pub flags : Flags
    pub manager : Manager
    pub w1 : W
    pub w2 : W
    pub w3 : W
    pub w4 : W
    pub w5 : W
    pub parsed : r.parse (default_flags r.getenv) before ≡ (ok flags, w1)
    pub made : attempt (r.new_manager flags) w1 ≡ (ok (value manager), w2)
    pub set_up :
        attempt (r.setup_with_manager flags.provisioner_name manager) w2 ≡ (ok (value tt), w3)
    pub live : attempt (r.add_healthz_check manager) w3 ≡ (ok (value tt), w4)
    pub ready : attempt (r.add_readyz_check manager) w4 ≡ (ok (value tt), w5)
    pub ran : attempt (r.start manager) w5 ≡ (ok (value tt), after)

  abbrev pub Ended : W → End → W → Type 0
  Ended before returned after = HasRun before after
  Ended before (exited code) after = code ≡ 1

  or_exit-Ensures :
      {A : Type 0} (before : W) (next : A → Exec W End) (reply : Reply A) (w : W)
      → ((a : A) → reply ≡ value a → Ensures (next a) w (Ended before))
      → Ensures (or_exit next reply) w (Ended before)
  unfolding or_exit
  or_exit-Ensures before next (value a) w rest = rest a refl
  or_exit-Ensures before next (error e) w rest = Ensures-pure (exited 1) refl

  -- a step whose error ends the process
  step-Ensures :
      {A : Type 0} (before : W) (m : Exec W A) (next : A → Exec W End) (w : W)
      → ((a : A) (w' : W) → attempt m w ≡ (ok (value a), w') → Ensures (next a) w' (Ended before))
      → Ensures (attempt m >>= or_exit next) w (Ended before)
  step-Ensures before m next w rest = Ensures-bind (Ensures-self (attempt m) w) λ reply w' run.
      or_exit-Ensures before next reply w' (λ a is_value. rest a w' (rw is_value at run))

  main-Ensures : (w : W) → Ensures (main r) w (Ended w)
  unfolding main run_manager
  main-Ensures w =
      Ensures-bind (Ensures-self (r.parse (default_flags r.getenv)) w) λ flags w1 parsed.
        step-Ensures w (r.new_manager flags) _ w1 λ manager w2 made.
          step-Ensures w (r.setup_with_manager flags.provisioner_name manager) _ w2 λ a w3 set_up.
            step-Ensures w (r.add_healthz_check manager) _ w3 λ b w4 live.
              step-Ensures w (r.add_readyz_check manager) _ w4 λ c w5 ready.
                step-Ensures w (r.start manager) _ w5 λ d w6 ran. Ensures-pure returned (record {
                  flags = flags;
                  manager = manager;
                  w1 = w1;
                  w2 = w2;
                  w3 = w3;
                  w4 = w4;
                  w5 = w5;
                  parsed = parsed;
                  made = made;
                  set_up = set_up;
                  live = live;
                  ready = ready;
                  ran = ran;
                })

  -- Where main returns, the flags were parsed from the defaults and the environment, the manager was
  -- made from them, the controller was set up with the provisioner's name that they hold, both
  -- health checks were added, and the manager ran to its end without an error, in this order; where
  -- main ends the process itself, it does so with the code 1.
  pub main-Ended : (w w' : W) (end : End) → main r w ≡ (ok end, w') → Ended w end w'
  main-Ended w w' end ran = Ensures-at (main-Ensures w) ran
