-- ===== src/Controller/FinalSync/Footprint.antt =====
-- The calls of the API server that the final sync makes.
use mock_storage_operator.Prelude.{String, List, [], ◌∷◌, true}
use mock_storage_operator.Exec.{Reply, value, error}
use mock_storage_operator.Exec.Preserves.{
  Preserves, Preserves-if, Preserves-bind, Preserves-then, Preserves-wrapping, Preserves-pure,
  preserves_rules,
}
use mock_storage_operator.Objects.{
  Key, Pvc, Pod, Vgr, Vrg, PvcPhase, claim_lost, claim_bound, claim_pending,
}
use mock_storage_operator.Client.{Client}
use mock_storage_operator.Client.Footprint.{Reads, PauseWrites, VolumeWrites}
use mock_storage_operator.Volsync.Footprint.Claims.{is_pvc_terminating-Preserves}
use mock_storage_operator.Volsync.Footprint.Volumes.{
  create_temporary-Preserves, has_temporary_pvc-Preserves,
}
use mock_storage_operator.Controller.Session.Footprint.{
  OnWorld, session_rules, Preserves-the_vgr, set_vgr_condition-Preserves,
}
use mock_storage_operator.Controller.FinalSync.Trigger.{
  handle_phase, handle_lost_temporary_pvc, pause_replication_source, trigger_final_sync_for_pvc,
  find_user, is_pvc_in_use,
}
use mock_storage_operator.Controller.FinalSync.{
  FirstPhase, SecondPhase, FinalSyncResult, final_sync_due, should_run_final_sync,
  are_all_rs_final_syncs_complete, first_phase_step, first_phase, second_phase_step, second_phase,
  run_final_sync, process_final_sync, update_final_sync_status,
}
use mock_storage_operator.Controller.Primary.Footprint.{pause_rs-Preserves}

module _ (C : Client) {P : C.World → Type 0} (reads : Reads C P) where
  final_sync_due-Preserves :
      (vgr : Vgr) (r : Reply Vrg) → Preserves (OnWorld P) (final_sync_due C vgr r)
  unfolding final_sync_due
  final_sync_due-Preserves vgr (error e) = search session_rules
  final_sync_due-Preserves vgr (value vrg) = search session_rules

  pub should_run_final_sync-Preserves : Preserves (OnWorld P) (should_run_final_sync C)
  unfolding should_run_final_sync
  should_run_final_sync-Preserves =
      search (session_rules, reads.get_vrg, final_sync_due-Preserves) depth 8

  pub are_all_complete-Preserves : Preserves (OnWorld P) (are_all_rs_final_syncs_complete C)
  unfolding are_all_rs_final_syncs_complete
  are_all_complete-Preserves = search (session_rules, reads.list_rss)

  pub update_final_sync_status-Preserves :
      (r : FinalSyncResult) → Preserves (OnWorld P) (update_final_sync_status C r)
  unfolding update_final_sync_status
  update_final_sync_status-Preserves r = search (session_rules, set_vgr_condition-Preserves C reads)

module _ (C : Client) {P : C.World → Type 0} (reads : Reads C P)
    (update_pvc : (p : Pvc) → Preserves P (C.update_pvc p)) (v : VolumeWrites C P)
    (pause : PauseWrites C P) where
  handle_phase-Preserves : (pvc : Pvc) (phase : PvcPhase) → Preserves P (handle_phase C pvc phase)
  unfolding handle_phase
  handle_phase-Preserves pvc claim_bound = search preserves_rules
  handle_phase-Preserves pvc claim_pending = search preserves_rules
  handle_phase-Preserves pvc claim_lost = search preserves_rules

  handle_lost-Preserves : (pvc : Pvc) → Preserves P (handle_lost_temporary_pvc C pvc)
  unfolding handle_lost_temporary_pvc
  handle_lost-Preserves pvc = handle_phase-Preserves pvc _

  pause_source-Preserves : (k : Key) → Preserves P (pause_replication_source C k)
  unfolding pause_replication_source
  pause_source-Preserves k =
      search (preserves_rules, reads.get_rs, pause_rs-Preserves C reads pause)

  trigger-Preserves : (k : Key) → Preserves P (trigger_final_sync_for_pvc C k)
  unfolding trigger_final_sync_for_pvc
  trigger-Preserves k = search (preserves_rules, reads.get_rs, pause.update_rs)

  find_user-Preserves : (claim : String) (pods : List Pod) → Preserves P (find_user C claim pods)
  unfolding find_user
  find_user-Preserves claim [] = search preserves_rules
  find_user-Preserves claim (pod ∷ pods) =
      Preserves-if _ _ _
        (Preserves-if _ _ _
          (Preserves-then _ _ (Preserves-wrapping _ _ (pause.delete_pod _)) (Preserves-pure true))
          (Preserves-pure true))
        (find_user-Preserves claim pods)

  is_pvc_in_use-Preserves : (k : Key) → Preserves P (is_pvc_in_use C k)
  unfolding is_pvc_in_use
  is_pvc_in_use-Preserves k = search (preserves_rules, reads.list_pods, find_user-Preserves)

  first_phase_step-Preserves :
      (pvc : Pvc) (acc : FirstPhase) → Preserves P (first_phase_step C pvc acc)
  unfolding first_phase_step
  first_phase_step-Preserves pvc acc =
      search
        (
          preserves_rules,
          handle_lost-Preserves,
          is_pvc_terminating-Preserves C reads,
          create_temporary-Preserves C reads update_pvc v,
        )
        depth 10

  first_phase-Preserves :
      (pvcs : List Pvc) (acc : FirstPhase) → Preserves P (first_phase C pvcs acc)
  unfolding first_phase
  first_phase-Preserves [] acc = search preserves_rules
  first_phase-Preserves (pvc ∷ pvcs) acc =
      search (preserves_rules, first_phase_step-Preserves, first_phase-Preserves pvcs)

  second_phase_step-Preserves :
      (pvc : Pvc) (acc : SecondPhase) → Preserves P (second_phase_step C pvc acc)
  unfolding second_phase_step
  second_phase_step-Preserves pvc acc =
      search
        (
          preserves_rules,
          has_temporary_pvc-Preserves C reads,
          is_pvc_in_use-Preserves,
          pause_source-Preserves,
          trigger-Preserves,
        )
        depth 12

  second_phase-Preserves :
      (pvcs : List Pvc) (acc : SecondPhase) → Preserves P (second_phase C pvcs acc)
  unfolding second_phase
  second_phase-Preserves [] acc = search preserves_rules
  second_phase-Preserves (pvc ∷ pvcs) acc =
      search (preserves_rules, second_phase_step-Preserves, second_phase-Preserves pvcs)

  run_final_sync-Preserves : (pvcs : List Pvc) → Preserves (OnWorld P) (run_final_sync C pvcs)
  unfolding run_final_sync
  run_final_sync-Preserves pvcs =
      search
        (
          session_rules,
          set_vgr_condition-Preserves C reads,
          first_phase-Preserves,
          second_phase-Preserves,
        )
        depth 10

  pub process_final_sync-Preserves :
      (pvcs : List Pvc) → Preserves (OnWorld P) (process_final_sync C pvcs)
  unfolding process_final_sync
  process_final_sync-Preserves pvcs =
      Preserves-bind _ _ (should_run_final_sync-Preserves C reads) λ should.
        Preserves-bind _ _ Preserves-the_vgr
          λ vgr. Preserves-if _ _ _ (Preserves-pure _) (run_final_sync-Preserves pvcs)
