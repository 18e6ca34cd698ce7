-- ===== src/Process.antt =====
-- cmd/main.go: getEnvOrDefault and main. The environment, the command line, the manager of
-- controller-runtime and its health checks are parameters; logging and the scheme are left out.
pub mod Started
use mock_storage_operator.Prelude.{ℕ, not, Bool, false, String, ◌==◌, if◌then◌else◌}
use mock_storage_operator.Exec.{Exec, Reply, value, error, pure, attempt, ◌>>=◌}

-- the variables that the flags set
pub record Flags : Type 0 where
  pub metrics_address : String
  pub probe_address : String
  pub leader_election : Bool
  pub provisioner_name : String

-- getEnvOrDefault; a variable that is not set reads as the empty text
unfoldable pub get_env_or_default : (String → String) → String → String → String
get_env_or_default getenv key default_value =
    if not (getenv key == "") then getenv key else default_value

-- the values before `flag.Parse`
unfoldable pub default_flags : (String → String) → Flags
unfolding get_env_or_default
default_flags getenv = record {
  metrics_address = ":8080";
  probe_address = ":8081";
  leader_election = false;
  provisioner_name = get_env_or_default getenv "PROVISIONER_NAME" "kubernetes.io/no-provisioner";
}

-- how the process ends: main returns, or `os.Exit(code)`
pub data End : Type 0 where
  returned : End
  exited : ℕ → End

-- `if err != nil { os.Exit(1) }` and what follows it
unfoldable pub or_exit : {W A : Type 0} → (A → Exec W End) → Reply A → Exec W End
or_exit next (value a) = next a
or_exit next (error e) = pure (exited 1)

-- what main calls
pub record Runtime (W Manager : Type 0) : Type 0 where
  pub getenv : String → String
  -- `flag.Parse`, from the values that the flags have before it
  pub parse : Flags → Exec W Flags
  -- `ctrl.NewManager`
  pub new_manager : Flags → Exec W Manager
  -- `SetupWithManager` of the reconciler of a provisioner
  pub setup_with_manager : String → Manager → Exec W (Unit {0})
  pub add_healthz_check : Manager → Exec W (Unit {0})
  pub add_readyz_check : Manager → Exec W (Unit {0})
  -- `mgr.Start`
  pub start : Manager → Exec W (Unit {0})

module _ {W Manager : Type 0} (r : Runtime W Manager) where
  -- main after the manager was made
  unfoldable pub run_manager : Flags → Manager → Exec W End
  run_manager flags manager = do
    set_up ← attempt (r.setup_with_manager flags.provisioner_name manager)
    or_exit
        (λ _. do
          healthz ← attempt (r.add_healthz_check manager)
          or_exit
              (λ _. do
                readyz ← attempt (r.add_readyz_check manager)
                or_exit
                    (λ _. do ended ← attempt (r.start manager); or_exit (λ _. pure returned) ended)
                    readyz)
              healthz)
        set_up

  -- main
  unfoldable pub main : Exec W End
  main = do
    flags ← r.parse (default_flags r.getenv)
    made ← attempt (r.new_manager flags)
    or_exit (run_manager flags) made
