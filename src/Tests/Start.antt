-- ===== src/Tests/Start.antt =====
-- The theorem on main, applied to a runtime whose steps all succeed and count.
use mock_storage_operator.Prelude.{ℕ, suc, refl}
use mock_storage_operator.Exec.{Exec, ok, ◌>>=◌}
use mock_storage_operator.Process.{returned, or_exit, Runtime, run_manager, main}
use mock_storage_operator.Process.Started.{Ended, main-Ended}

abbrev counted : Exec ℕ (Unit {0})
counted w = (ok tt, suc w)

abbrev counting : Runtime ℕ (Unit {0})
counting = record {
  getenv = λ _. "";
  parse = λ flags w. (ok flags, suc w);
  new_manager = λ _. counted;
  setup_with_manager = λ _ _. counted;
  add_healthz_check = λ _. counted;
  add_readyz_check = λ _. counted;
  start = λ _. counted;
}

main-Ended_example : Ended counting 0 returned 6
unfolding main run_manager or_exit ◌>>=◌
main-Ended_example = main-Ended counting 0 6 returned refl
