-- ===== src/Controller/Primary/Footprint.antt =====
-- The calls of the API server that the primary reconciler makes.
use mock_storage_operator.Controller.Conditions.{set_vgr_condition}
use mock_storage_operator.Prelude.{Bool, String, List, [], ◌∷◌, Option, none, some}
use mock_storage_operator.Exec.{Error, Reply, value, error, Outcome, ok, err, panic}
use mock_storage_operator.Exec.Preserves.{Preserves, Preserves-then, preserves_rules}
use mock_storage_operator.Objects.{
  Key, Pvc, Rs, Pod, Vrg, Vgr, VgrClass, LabelSelector, Requirement,
}
use mock_storage_operator.Client.{Client}
use mock_storage_operator.Client.Footprint.{Reads, SourceWrites, PauseWrites}
use mock_storage_operator.Volsync.{VsHandler}
use mock_storage_operator.Volsync.Footprint.Source.{reconcile_rs-Preserves}
use mock_storage_operator.Controller.Session.{Result}
use mock_storage_operator.Controller.Session.Footprint.{
  OnWorld, session_rules, Preserves-modify_vgr, update_vgr_status-Preserves,
  set_vgr_condition-Preserves,
}
use mock_storage_operator.Controller.Configuration.{PrimaryConfig}
use mock_storage_operator.Controller.FinalSync.Trigger.{ignore_not_found, pause_rs}
use mock_storage_operator.Controller.Primary.Pausing.{
  pause_listed_rs, delete_volsync_pod, pause_all_replication_sources, conflict_of,
  check_vrg_conflict, ConflictCheck,
}
use mock_storage_operator.Controller.Primary.{
  Protected, reconcile_replication_sources, update_status, protect_claims, requirement_or_crash,
  owner_requirement, reconcile_listed, reconcile_selected, return_result, after_conflict,
  reconcile_by, reconcile,
}

module _ (C : Client) {P : C.World → Type 0} (reads : Reads C P) (pause : PauseWrites C P) where
  ignore_not_found-Preserves : (r : Reply (Unit {0})) → Preserves P (ignore_not_found C r)
  unfolding ignore_not_found
  ignore_not_found-Preserves (error e) = search preserves_rules
  ignore_not_found-Preserves (value _) = search preserves_rules

  pub pause_rs-Preserves : (job : Key) (rs : Rs) → Preserves P (pause_rs C job rs)
  unfolding pause_rs
  pause_rs-Preserves job rs =
      search (preserves_rules, pause.update_rs, pause.delete_job, ignore_not_found-Preserves)

  pause_listed_rs-Preserves : (ns : String) (rs : Rs) → Preserves P (pause_listed_rs C ns rs)
  unfolding pause_listed_rs
  pause_listed_rs-Preserves ns rs = pause_rs-Preserves _ rs

  delete_volsync_pod-Preserves : (pod : Pod) → Preserves P (delete_volsync_pod C pod)
  unfolding delete_volsync_pod
  delete_volsync_pod-Preserves pod = search (preserves_rules, pause.delete_pod)

  pause_all-Preserves : (ns : String) → Preserves P (pause_all_replication_sources C ns)
  unfolding pause_all_replication_sources
  pause_all-Preserves ns =
      search
        (
          preserves_rules, reads.list_rss, reads.list_pods, pause_listed_rs-Preserves,
          delete_volsync_pod-Preserves,
        )
        depth 8

  conflict_of-Preserves : (vgr : Vgr) (r : Reply (List Vrg)) → Preserves P (conflict_of C vgr r)
  unfolding conflict_of
  conflict_of-Preserves vgr (error e) = search preserves_rules
  conflict_of-Preserves vgr (value vrgs) = search (preserves_rules, pause_all-Preserves)

  check_vrg_conflict-Preserves : (vgr : Vgr) → Preserves P (check_vrg_conflict C vgr)
  unfolding check_vrg_conflict
  check_vrg_conflict-Preserves vgr =
      search (preserves_rules, reads.list_vrgs, conflict_of-Preserves)

module _ (C : Client) {P : C.World → Type 0} (reads : Reads C P) (source : SourceWrites C P) where
  reconcile_sources-Preserves :
      (v : VsHandler) (config : PrimaryConfig) (pvcs : List Pvc) (acc : Protected)
      → Preserves P (reconcile_replication_sources C v config pvcs acc)
  unfolding reconcile_replication_sources
  reconcile_sources-Preserves v config [] acc = search preserves_rules
  reconcile_sources-Preserves v config (pvc ∷ pvcs) acc = search (
    preserves_rules,
    reconcile_rs-Preserves C reads source,
    reconcile_sources-Preserves v config pvcs,
  )

module _ (C : Client) {P : C.World → Type 0} (reads : Reads C P) (source : SourceWrites C P)
    (pause : PauseWrites C P) (status : (vgr : Vgr) → Preserves P (C.update_vgr_status vgr)) where
  update_status-Preserves : (p : Protected) → Preserves (OnWorld P) (update_status C p)
  unfolding update_status
  update_status-Preserves p = Preserves-then _ _ (Preserves-modify_vgr _) (
      Preserves-then _ _ (condition _ _ _ _) (
        Preserves-then _ _ (condition _ _ _ _) (
          Preserves-then _ _ (condition _ _ _ _) (
            Preserves-then _ _ (condition _ _ _ _)
              (Preserves-then _ _ (condition _ _ _ _) (update_vgr_status-Preserves C status))))))
    where
      condition :
          (cond_type : String) (value : Bool) (reason message : String)
          → Preserves (OnWorld P) (set_vgr_condition C cond_type value reason message)
      condition = set_vgr_condition-Preserves C reads

  protect_claims-Preserves :
      (cls : VgrClass) (pvcs : List Pvc) → Preserves (OnWorld P) (protect_claims C cls pvcs)
  unfolding protect_claims
  protect_claims-Preserves cls pvcs =
      search (session_rules, reconcile_sources-Preserves C reads source, update_status-Preserves)
        depth 8

  requirement_or_crash-Preserves :
      (r : Outcome Requirement) → Preserves (OnWorld P) (requirement_or_crash C r)
  unfolding requirement_or_crash
  requirement_or_crash-Preserves (ok r) = search session_rules
  requirement_or_crash-Preserves (err e) = search session_rules
  requirement_or_crash-Preserves panic = search session_rules

  owner_requirement-Preserves : (name : String) → Preserves (OnWorld P) (owner_requirement C name)
  unfolding owner_requirement
  owner_requirement-Preserves name = requirement_or_crash-Preserves _

  reconcile_listed-Preserves :
      (cls : VgrClass) (pvcs : List Pvc) → Preserves (OnWorld P) (reconcile_listed C cls pvcs)
  unfolding reconcile_listed
  reconcile_listed-Preserves cls [] = search session_rules
  reconcile_listed-Preserves cls (pvc ∷ pvcs) = protect_claims-Preserves cls (pvc ∷ pvcs)

  reconcile_selected-Preserves :
      (cls : VgrClass) (rs : List Requirement) → Preserves (OnWorld P) (reconcile_selected C cls rs)
  unfolding reconcile_selected
  reconcile_selected-Preserves cls rs =
      search
        (session_rules, owner_requirement-Preserves, reads.list_pvcs, reconcile_listed-Preserves)
        depth 8

  return_result-Preserves :
      (r : Option Result) (e : Option Error) → Preserves (OnWorld P) (return_result r e)
  unfolding return_result
  return_result-Preserves none e = search session_rules
  return_result-Preserves (some r) none = search session_rules
  return_result-Preserves (some r) (some e) = search session_rules

  after_conflict-Preserves :
      (cls : VgrClass) (rs : List Requirement) (check : ConflictCheck)
      → Preserves (OnWorld P) (after_conflict C cls rs check)
  unfolding after_conflict
  after_conflict-Preserves cls rs check =
      search (session_rules, return_result-Preserves, reconcile_selected-Preserves)

  reconcile_by-Preserves :
      (cls : VgrClass) (vgr : Vgr) (o : Option LabelSelector)
      → Preserves (OnWorld P) (reconcile_by C cls vgr o)
  unfolding reconcile_by
  reconcile_by-Preserves cls vgr none = search session_rules
  reconcile_by-Preserves cls vgr (some selector) =
      search (session_rules, check_vrg_conflict-Preserves C reads pause, after_conflict-Preserves)
        depth 8

  -- An invariant of the cluster that is kept by every read, by updates of claims, by deletions of
  -- destinations, jobs and pods, by writes of sources and by updates of the status of a
  -- VolumeGroupReplication is kept by the primary reconciler, however it ends: it makes no other
  -- write, so it creates or deletes no claim, changes no volume, deletes no source and creates no
  -- destination.
  pub primary_reconcile-Preserves :
      (vgr_class : VgrClass) → Preserves (OnWorld P) (reconcile C vgr_class)
  unfolding reconcile
  primary_reconcile-Preserves cls = search (session_rules, reconcile_by-Preserves)
