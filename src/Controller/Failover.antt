-- ===== src/Controller/Failover.antt =====
-- internal/controller/primary_reconciler.go: checkFailoverSafety and updatePVCAnnotations, which the
-- primary Reconcile names in the calls that are commented out.
pub mod Waiting
pub mod Stamping
use mock_storage_operator.Prelude.{
  ℕ, Bool, true, false, not, ◌||◌, String, ◌==◌, Option, none, some, List, [], ◌∷◌, if◌then◌else◌,
}
use mock_storage_operator.Prelude.Dict
use mock_storage_operator.Prelude.Dict.{insert}
use mock_storage_operator.Exec.{
  Exec, Reply, value, error, pure, discard, attempt, wrapping, for_each, ◌>>=◌,
}
use mock_storage_operator.Objects.{
  Key, Pvc, Vgr, Vrg, VgrClass, VrgAction, failover, relocate, other_action, State, primary_state,
  secondary_state, unknown_state,
}
use mock_storage_operator.Client.{Client}
use mock_storage_operator.Controller.Session.{Result, after_seconds}
use mock_storage_operator.Controller.Configuration.{primary_configuration}
use mock_storage_operator.Controller.Interval.{is_within_schedule_window}

unfoldable pub is_failover : VrgAction → Bool
is_failover failover = true
is_failover relocate = false
is_failover (other_action text) = false

unfoldable pub is_primary_state : State → Bool
is_primary_state primary_state = true
is_primary_state secondary_state = false
is_primary_state unknown_state = false

-- the owner that the group's labels name
abbrev pub owner_key : Vgr → Key
owner_key vgr = record {
  namespace = Dict.index "ramendr.openshift.io/owner-namespace-name" vgr.labels;
  name = Dict.index "ramendr.openshift.io/owner-name" vgr.labels;
}

-- the schedule window of step 4
unfoldable pub window_result : String → ℕ → Option Result
window_result scheduling_interval now =
    if not (is_within_schedule_window now scheduling_interval)
    then some (after_seconds 30)
    else none

-- `pvc.Annotations[key] = text`
unfoldable pub stamped : String → Pvc → Pvc
stamped text pvc = record pvc {
  meta = record (pvc.meta) {
    annotations = insert "mock.storage.io/lastSyncTime" text pvc.annotations;
  };
}

module _ (C : Client) where
  -- steps 2 to 4, on the reply to the read of the owner; a failed read is only logged
  unfoldable pub failover_result : VgrClass → Reply Vrg → Exec C.World (Option Result)
  failover_result vgr_class (error e) = pure none
  failover_result vgr_class (value vrg) =
      if not (is_failover vrg.action)
      then pure none
      else if is_primary_state vrg.state
      then pure none
      else (do
        now ← C.now
        pure (window_result (primary_configuration vgr_class.parameters).scheduling_interval now))

  -- checkFailoverSafety
  unfoldable pub check_failover_safety : VgrClass → Vgr → Exec C.World (Option Result)
  check_failover_safety vgr_class vgr =
      if (owner_key vgr).name == "" || (owner_key vgr).namespace == ""
      then pure none
      else (do vrg ← attempt (C.get_vrg (owner_key vgr)); failover_result vgr_class vrg)

  -- `r.client.Update(r.ctx, pvc)` of one round
  unfoldable pub stamp : String → Pvc → Exec C.World (Unit {0})
  stamp text pvc =
      wrapping "failed to update lastSyncTime annotation: "
        (discard (C.update_pvc (stamped text pvc)))

  -- updatePVCAnnotations; `format` is `Time.Format` with `time.RFC3339`
  unfoldable pub update_pvc_annotations :
      (ℕ → String) → List Pvc → Option ℕ → Exec C.World (Unit {0})
  update_pvc_annotations format pvcs none = pure tt
  update_pvc_annotations format pvcs (some latest_sync) = for_each pvcs (stamp (format latest_sync))
