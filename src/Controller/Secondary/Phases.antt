-- ===== src/Controller/Secondary/Phases.antt =====
-- internal/controller/secondary_reconciler.go: the phases of Reconcile, that is getPVCList,
-- handleFinalSync, restoreTemporaryPVCs, reconcileReplicationDestinations and updateStatus.
use mock_storage_operator.Prelude.{
  Bool, true, false, not, ◌||◌, String, ◌==◌, Option, none, some, List, [], ◌∷◌, ◌++◌,
  if◌then◌else◌,
}
use mock_storage_operator.Prelude.Dict
use mock_storage_operator.Exec.{
  Exec, Error, Reply, value, error, errorf, error_text, pure, fail, lift, attempt, wrapping,
  discard, ◌>>=◌, ◌>>◌,
}
use mock_storage_operator.Objects.{key_of, Pvc, Rd, Vgr, claim_lost, PvcPhase, LabelSelector}
use mock_storage_operator.Client.{Client}
use mock_storage_operator.Volsync.Temporary.{has_temporary_pvc}
use mock_storage_operator.Volsync.Restore.{restore_pvc_from_temporary}
use mock_storage_operator.Volsync.Destination.{RdArguments, reconcile_rd}
use mock_storage_operator.Controller.Session.{
  Session, Result, after_seconds, handler_for, on_world, the_vgr, update_vgr_status,
}
use mock_storage_operator.Controller.Configuration.{SecondaryConfig, PvcConfig, pvc_configuration}
use mock_storage_operator.Controller.FinalSync.{
  FinalSyncOutcome, should_run_final_sync, are_all_rs_final_syncs_complete, process_final_sync,
  update_final_sync_status,
}
use mock_storage_operator.Controller.FinalSync.Trigger.{without_bind_completed}

-- `runFinalSync`, the result if Reconcile is to return, and the claims as the loops left them
pub record FinalSyncStep : Type 0 where
  pub run_final_sync : Bool
  pub result : Option Result
  pub pvcs : List Pvc

-- FinalSyncHandler.GetRequeueDuration
abbrev pub final_sync_requeue : Result
final_sync_requeue = after_seconds 10

-- the test of handleFinalSync for an error that means "wait"
unfoldable pub is_waiting : Error → Bool
is_waiting e =
    error_text e == "waiting for PVCs to terminate" || error_text e == "PVC  still in use"

-- the arguments of reconcilePVCReplicationDestination's call of ReconcileRD
unfoldable pub rd_arguments : Pvc → PvcConfig → RdArguments
rd_arguments pvc config = record {
  claim = key_of pvc.meta;
  capacity = some config.capacity;
  storage_class_name = some config.storage_class_name;
  access_modes = config.access_modes;
  psk_secret_name = config.psk_secret_name;
  service_type = some config.service_type;
  consistency_group = config.consistency_group;
}

-- `protectedPVCs` and `allReady`
pub record Destinations : Type 0 where
  pub pvcs : List String
  pub all_ready : Bool

unfoldable pub add_destination : String → Option Rd → Destinations → Destinations
add_destination name none acc = record acc { all_ready = false }
add_destination name (some rd) acc = record acc { pvcs = acc.pvcs ++ name ∷ [] }

module _ (C : Client) where
  -- getPVCList, by the selector
  unfoldable pub list_selected : Vgr → Option LabelSelector → Exec (Session C.World) (List Pvc)
  list_selected vgr none = fail (errorf "no PVC selector specified")
  list_selected vgr (some selector) = do
    requirements ← wrapping "invalid pvcSelector: " (lift (C.label_selector_as_selector selector))
    on_world (
        C.list_pvcs (record {
          in_namespace = some vgr.namespace;
          matching_labels = [];
          selector = requirements;
        }))

  -- getPVCList
  unfoldable pub get_pvc_list : Exec (Session C.World) (List Pvc)
  get_pvc_list = do vgr ← the_vgr; list_selected vgr vgr.selector

  -- what follows UpdateFinalSyncStatus
  unfoldable pub after_status_update :
      List Pvc → Reply (Unit {0}) → Exec (Session C.World) FinalSyncStep
  after_status_update pvcs (value _) =
      pure (record { run_final_sync = true; result = none; pvcs = pvcs })
  after_status_update pvcs (error e) =
      if error_text e == "final sync in progress"
      then (do
        update_vgr_status C
        pure (record { run_final_sync = true; result = some final_sync_requeue; pvcs = pvcs }))
      else fail e

  -- what follows ProcessFinalSync
  unfoldable pub after_processing :
      List Pvc → Reply FinalSyncOutcome → Exec (Session C.World) FinalSyncStep
  unfolding is_waiting
  after_processing pvcs (error e) =
      if is_waiting e
      then pure (record { run_final_sync = true; result = some final_sync_requeue; pvcs = pvcs })
      else fail e
  after_processing pvcs (value (result, pvcs')) = do
    updated ← attempt (update_final_sync_status C result)
    after_status_update pvcs' updated

  -- handleFinalSync
  unfoldable pub handle_final_sync : List Pvc → Exec (Session C.World) FinalSyncStep
  handle_final_sync pvcs = do
    should ← should_run_final_sync C
    if not should then pure (record { run_final_sync = false; result = none; pvcs = pvcs }) else (do
      complete ← are_all_rs_final_syncs_complete C
      if complete then pure (record { run_final_sync = true; result = none; pvcs = pvcs }) else (do
        processed ← attempt (process_final_sync C pvcs)
        after_processing pvcs processed))

  -- one claim of restoreTemporaryPVCs
  unfoldable pub restore_if_temporary : Pvc → Exec C.World (Unit {0})
  restore_if_temporary pvc = do
    has_temp_pvc ← has_temporary_pvc C (key_of pvc.meta)
    if has_temp_pvc then restore_pvc_from_temporary C (key_of pvc.meta) else pure tt

  -- handleLostPVC
  unfoldable pub handle_lost_pvc : Pvc → Exec C.World (Unit {0})
  handle_lost_pvc pvc =
      if Dict.contains "pv.kubernetes.io/bind-completed" pvc.annotations
      then discard (
          wrapping "failed to update lost PVC after removing bind-completed annotation: "
            (C.update_pvc (without_bind_completed pvc)))
      else pure tt

  -- reconcilePVCReplicationDestination, with the claim's configuration
  unfoldable pub reconcile_pvc_replication_destination :
      Vgr → SecondaryConfig → Pvc → Exec C.World (Option Rd)
  reconcile_pvc_replication_destination vgr config pvc =
      let pvc_config = pvc_configuration pvc config in
      reconcile_rd C (handler_for vgr pvc_config.scheduling_interval) (rd_arguments pvc pvc_config)

  -- one claim of the loop, by its phase
  unfoldable pub destination_of :
      Vgr → SecondaryConfig → Pvc → Destinations → PvcPhase → Exec C.World Destinations
  destination_of vgr config pvc acc claim_lost =
      handle_lost_pvc pvc >> fail (errorf "PVC in lost phase. Remove annotation. Reconcile again")
  destination_of vgr config pvc acc _ = do
    rd ← reconcile_pvc_replication_destination vgr config pvc
    pure (add_destination pvc.name rd acc)

  -- one claim of the loop
  unfoldable pub destination_step :
      Vgr → SecondaryConfig → Pvc → Destinations → Exec C.World Destinations
  destination_step vgr config pvc acc = destination_of vgr config pvc acc pvc.phase

  -- reconcileReplicationDestinations
  unfoldable pub reconcile_replication_destinations :
      Vgr → SecondaryConfig → List Pvc → Destinations → Exec C.World Destinations
  reconcile_replication_destinations vgr config [] acc = pure acc
  reconcile_replication_destinations vgr config (pvc ∷ pvcs) acc =
      destination_step vgr config pvc acc >>= reconcile_replication_destinations vgr config pvcs
