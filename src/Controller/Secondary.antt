-- ===== src/Controller/Secondary.antt =====
-- internal/controller/secondary_reconciler.go: a VolumeGroupReplication in the secondary state.
pub mod Phases
pub mod Waiting
pub mod Footprint
use mock_storage_operator.Prelude.{
  [], ◌∷◌, Bool, true, false, not, String, Option, none, some, List, [], ◌∷◌, if◌then◌else◌,
}
use mock_storage_operator.Exec.{Exec, pure, for_each, ◌>>=◌, ◌>>◌}
use mock_storage_operator.Objects.{Pvc, Vgr, VgrClass, State, secondary_state}
use mock_storage_operator.Client.{Client}
use mock_storage_operator.Controller.Session.{
  Session, Result, no_requeue, after_seconds, requeue_interval, on_world, modify_vgr, the_vgr,
  update_vgr_status,
}
use mock_storage_operator.Controller.Conditions.{set_vgr_condition}
use mock_storage_operator.Controller.Configuration.{SecondaryConfig, secondary_configuration}
use mock_storage_operator.Controller.FinalSync.{is_secondary_state, are_all_rs_final_syncs_complete}
use Phases.{
  FinalSyncStep, Destinations, get_pvc_list, handle_final_sync, restore_if_temporary,
  reconcile_replication_destinations,
}

-- what updateStatus writes in a VGR that is in the secondary state already
unfoldable pub cleared_status : List String → Vgr → Vgr
cleared_status pvcs vgr = record vgr {
  status = record (vgr.status) {
    conditions = [];
    pvc_refs = pvcs;
    observed_generation = vgr.generation;
  };
}

-- what it writes in another VGR before the conditions
unfoldable pub demoted_status : Destinations → Vgr → Vgr
demoted_status d vgr = record vgr {
  status = record (vgr.status) {
    state = if d.all_ready then secondary_state else vgr.status.state;
    pvc_refs = d.pvcs;
    observed_generation = vgr.generation;
  };
}

module _ (C : Client) where
  -- the conditions that updateStatus sets
  unfoldable pub set_secondary_conditions : Bool → Exec (Session C.World) (Unit {0})
  set_secondary_conditions all_ready = do
    set_vgr_condition C "Completed" all_ready "Demoted"
        "volume group is demoted to secondary and ready to be promoted"
    set_vgr_condition C "Validated" true "PrerequisiteMet"
        "volume group is validated and met all prerequisites"
    set_vgr_condition C "Degraded" false "Healthy" "volume group is healthy"
    set_vgr_condition C "Resyncing" false "NotResyncing" "volume group is not resyncing"
    if all_ready
        then set_vgr_condition C "Replicating" true "Replicating"
            "volume group is replicating: local group is secondary"
        else set_vgr_condition C "Replicating" false "NotReplicating"
            "waiting for all RDs to be created"

  -- updateStatus
  unfoldable pub update_status : Destinations → Exec (Session C.World) (Unit {0})
  update_status d = do
    vgr ← the_vgr
    if is_secondary_state vgr.status.state
        then (do modify_vgr (cleared_status d.pvcs); update_vgr_status C)
        else (do
          modify_vgr (demoted_status d)
          set_secondary_conditions d.all_ready
          update_vgr_status C)

  -- phases 5 and 6 of Reconcile
  unfoldable pub provide_destinations : SecondaryConfig → List Pvc → Exec (Session C.World) Result
  provide_destinations config pvcs = do
    vgr ← the_vgr
    d ← on_world (
        reconcile_replication_destinations C vgr config pvcs
          (record { pvcs = []; all_ready = true }))
    update_status d
    pure (if d.all_ready then requeue_interval else after_seconds 10)

  -- phase 4 and the check of the final sync after it
  unfoldable pub restore_and_provide :
      SecondaryConfig → Bool → List Pvc → Exec (Session C.World) Result
  restore_and_provide config run_final_sync pvcs = do
    on_world (for_each pvcs (restore_if_temporary C))
    if run_final_sync
        then (do
          complete ← are_all_rs_final_syncs_complete C
          if complete then provide_destinations config pvcs else pure no_requeue)
        else provide_destinations config pvcs

  -- what follows handleFinalSync: it returned a result, or the phases go on
  unfoldable pub after_final_sync :
      SecondaryConfig → Bool → List Pvc → Option Result → Exec (Session C.World) Result
  after_final_sync config run_final_sync pvcs (some result) = pure result
  after_final_sync config run_final_sync pvcs none = restore_and_provide config run_final_sync pvcs

  -- `len(pvcList.Items) == 0` and what follows it
  unfoldable pub reconcile_listed : VgrClass → List Pvc → Exec (Session C.World) Result
  reconcile_listed vgr_class [] = pure requeue_interval
  reconcile_listed vgr_class (pvc ∷ pvcs) = do
    step ← handle_final_sync C (pvc ∷ pvcs)
    after_final_sync (secondary_configuration vgr_class.parameters) step.run_final_sync step.pvcs
        step.result

  -- Reconcile
  unfoldable pub reconcile : VgrClass → Exec (Session C.World) Result
  reconcile vgr_class = do pvcs ← get_pvc_list C; reconcile_listed vgr_class pvcs
