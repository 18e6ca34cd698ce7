-- ===== src/Controller/Secondary/Footprint.antt =====
-- The calls of the API server that the secondary reconciler makes.
use mock_storage_operator.Prelude.{Bool, List, [], ◌∷◌, Option, none, some}
use mock_storage_operator.Exec.{Reply, value, error}
use mock_storage_operator.Exec.Preserves.{
  Preserves, Preserves-if, Preserves-then, Preserves-bind, Preserves-pure, Preserves-fail,
  Preserves-attempt, Preserves-for_each, preserves_rules,
}
use mock_storage_operator.Objects.{
  Key, Pvc, Vgr, VgrClass, LabelSelector, PvcPhase, claim_lost, claim_bound, claim_pending,
}
use mock_storage_operator.Client.{Client}
use mock_storage_operator.Client.Footprint.{Reads, PauseWrites, VolumeWrites, DestinationWrites}
use mock_storage_operator.Volsync.Footprint.Volumes.{has_temporary_pvc-Preserves, restore-Preserves}
use mock_storage_operator.Volsync.Footprint.Destination.{reconcile_rd-Preserves}
use mock_storage_operator.Controller.Session.{Result}
use mock_storage_operator.Controller.Session.Footprint.{
  OnWorld, session_rules, Preserves-modify_vgr, Preserves-the_vgr, Preserves-on_world,
  update_vgr_status-Preserves, set_vgr_condition-Preserves,
}
use mock_storage_operator.Controller.Configuration.{SecondaryConfig}
use mock_storage_operator.Controller.FinalSync.{FinalSyncOutcome}
use mock_storage_operator.Controller.FinalSync.Footprint.{
  should_run_final_sync-Preserves, are_all_complete-Preserves, update_final_sync_status-Preserves,
  process_final_sync-Preserves,
}
use mock_storage_operator.Controller.Secondary.Phases.{
  Destinations, list_selected, get_pvc_list, after_status_update, after_processing,
  handle_final_sync, restore_if_temporary, handle_lost_pvc, reconcile_pvc_replication_destination,
  destination_of, destination_step, reconcile_replication_destinations,
}
use mock_storage_operator.Controller.Secondary.{
  set_secondary_conditions, update_status, provide_destinations, restore_and_provide,
  after_final_sync, reconcile_listed, reconcile,
}

module _ (C : Client) {P : C.World → Type 0} (reads : Reads C P)
    (status : (vgr : Vgr) → Preserves P (C.update_vgr_status vgr)) where
  list_selected-Preserves :
      (vgr : Vgr) (o : Option LabelSelector) → Preserves (OnWorld P) (list_selected C vgr o)
  unfolding list_selected
  list_selected-Preserves vgr none = search session_rules
  list_selected-Preserves vgr (some selector) = search (session_rules, reads.list_pvcs) depth 8

  get_pvc_list-Preserves : Preserves (OnWorld P) (get_pvc_list C)
  unfolding get_pvc_list
  get_pvc_list-Preserves = search (session_rules, list_selected-Preserves)

  after_status_update-Preserves :
      (pvcs : List Pvc) (r : Reply (Unit {0}))
      → Preserves (OnWorld P) (after_status_update C pvcs r)
  unfolding after_status_update
  after_status_update-Preserves pvcs (value _) = search session_rules
  after_status_update-Preserves pvcs (error e) =
      Preserves-if _ _ _
        (Preserves-then _ _ (update_vgr_status-Preserves C status) (Preserves-pure _))
        (Preserves-fail e)

  after_processing-Preserves :
      (pvcs : List Pvc) (r : Reply FinalSyncOutcome)
      → Preserves (OnWorld P) (after_processing C pvcs r)
  unfolding after_processing
  after_processing-Preserves pvcs (error e) = search session_rules
  after_processing-Preserves pvcs (value (result, pvcs')) =
      search
        (session_rules, update_final_sync_status-Preserves C reads, after_status_update-Preserves)

  set_conditions-Preserves :
      (all_ready : Bool) → Preserves (OnWorld P) (set_secondary_conditions C all_ready)
  unfolding set_secondary_conditions
  set_conditions-Preserves all_ready =
      search (session_rules, set_vgr_condition-Preserves C reads) depth 10

  update_status-Preserves : (d : Destinations) → Preserves (OnWorld P) (update_status C d)
  unfolding update_status
  update_status-Preserves d = Preserves-bind _ _ Preserves-the_vgr λ vgr.
      Preserves-if _ _ _
        (Preserves-then _ _ (Preserves-modify_vgr _) (update_vgr_status-Preserves C status))
        (Preserves-then _ _ (Preserves-modify_vgr _)
          (Preserves-then _ _ (set_conditions-Preserves _) (update_vgr_status-Preserves C status)))

module _ (C : Client) {P : C.World → Type 0} (reads : Reads C P)
    (update_pvc : (p : Pvc) → Preserves P (C.update_pvc p))
    (delete_pvc : (k : Key) → Preserves P (C.delete_pvc k)) (v : VolumeWrites C P)
    (d : DestinationWrites C P) (pause : PauseWrites C P)
    (status : (vgr : Vgr) → Preserves P (C.update_vgr_status vgr)) where
  handle_final_sync-Preserves : (pvcs : List Pvc) → Preserves (OnWorld P) (handle_final_sync C pvcs)
  unfolding handle_final_sync
  handle_final_sync-Preserves pvcs =
      Preserves-bind _ _ (should_run_final_sync-Preserves C reads) λ should.
        Preserves-if _ _ _ (Preserves-pure _) (
          Preserves-bind _ _ (are_all_complete-Preserves C reads) λ complete.
            Preserves-if _ _ _ (Preserves-pure _) (
              Preserves-bind _ _
                (Preserves-attempt _ (process_final_sync-Preserves C reads update_pvc v pause pvcs))
                (after_processing-Preserves C reads status pvcs)))

  restore_if_temporary-Preserves : (pvc : Pvc) → Preserves P (restore_if_temporary C pvc)
  unfolding restore_if_temporary
  restore_if_temporary-Preserves pvc = search (
    preserves_rules,
    has_temporary_pvc-Preserves C reads,
    restore-Preserves C reads update_pvc v delete_pvc,
  )

  handle_lost_pvc-Preserves : (pvc : Pvc) → Preserves P (handle_lost_pvc C pvc)
  unfolding handle_lost_pvc
  handle_lost_pvc-Preserves pvc = search preserves_rules

  reconcile_pvc-Preserves :
      (vgr : Vgr) (config : SecondaryConfig) (pvc : Pvc)
      → Preserves P (reconcile_pvc_replication_destination C vgr config pvc)
  unfolding reconcile_pvc_replication_destination
  reconcile_pvc-Preserves vgr config pvc = reconcile_rd-Preserves C reads update_pvc v d _ _

  destination_of-Preserves :
      (vgr : Vgr) (config : SecondaryConfig) (pvc : Pvc) (acc : Destinations) (phase : PvcPhase)
      → Preserves P (destination_of C vgr config pvc acc phase)
  unfolding destination_of
  destination_of-Preserves vgr config pvc acc claim_lost =
      search (preserves_rules, handle_lost_pvc-Preserves)
  destination_of-Preserves vgr config pvc acc claim_bound =
      search (preserves_rules, reconcile_pvc-Preserves)
  destination_of-Preserves vgr config pvc acc claim_pending =
      search (preserves_rules, reconcile_pvc-Preserves)

  destinations-Preserves :
      (vgr : Vgr) (config : SecondaryConfig) (pvcs : List Pvc) (acc : Destinations)
      → Preserves P (reconcile_replication_destinations C vgr config pvcs acc)
  unfolding reconcile_replication_destinations destination_step
  destinations-Preserves vgr config [] acc = search preserves_rules
  destinations-Preserves vgr config (pvc ∷ pvcs) acc =
      search (preserves_rules, destination_of-Preserves, destinations-Preserves vgr config pvcs)

  provide_destinations-Preserves :
      (config : SecondaryConfig) (pvcs : List Pvc)
      → Preserves (OnWorld P) (provide_destinations C config pvcs)
  unfolding provide_destinations
  provide_destinations-Preserves config pvcs =
      search (session_rules, destinations-Preserves, update_status-Preserves C reads status) depth 8

  restore_and_provide-Preserves :
      (config : SecondaryConfig) (run : Bool) (pvcs : List Pvc)
      → Preserves (OnWorld P) (restore_and_provide C config run pvcs)
  unfolding restore_and_provide
  restore_and_provide-Preserves config run pvcs =
      Preserves-then _ _
        (Preserves-on_world _ (Preserves-for_each pvcs _ restore_if_temporary-Preserves))
        (Preserves-if _ _ _
          (Preserves-bind _ _ (are_all_complete-Preserves C reads) λ complete.
            Preserves-if _ _ _ (provide_destinations-Preserves config pvcs) (Preserves-pure _))
          (provide_destinations-Preserves config pvcs))

  after_final_sync-Preserves :
      (config : SecondaryConfig) (run : Bool) (pvcs : List Pvc) (o : Option Result)
      → Preserves (OnWorld P) (after_final_sync C config run pvcs o)
  unfolding after_final_sync
  after_final_sync-Preserves config run pvcs none = restore_and_provide-Preserves config run pvcs
  after_final_sync-Preserves config run pvcs (some result) = search session_rules

  reconcile_listed-Preserves :
      (cls : VgrClass) (pvcs : List Pvc) → Preserves (OnWorld P) (reconcile_listed C cls pvcs)
  unfolding reconcile_listed
  reconcile_listed-Preserves cls [] = search session_rules
  reconcile_listed-Preserves cls (pvc ∷ pvcs) =
      search (session_rules, handle_final_sync-Preserves, after_final_sync-Preserves)

  -- An invariant of the cluster that is kept by every read, by creations, updates and deletions of
  -- claims, by updates of volumes and sources, by deletions of sources, jobs and pods, by writes of
  -- destinations and service exports and by updates of the status of a VolumeGroupReplication is
  -- kept by the secondary reconciler, however it ends: it makes no other write, so it creates no
  -- source and deletes no destination.
  pub secondary_reconcile-Preserves :
      (vgr_class : VgrClass) → Preserves (OnWorld P) (reconcile C vgr_class)
  unfolding reconcile
  secondary_reconcile-Preserves cls =
      search (session_rules, get_pvc_list-Preserves C reads status, reconcile_listed-Preserves)
