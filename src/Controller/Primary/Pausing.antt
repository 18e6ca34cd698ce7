-- ===== src/Controller/Primary/Pausing.antt =====
-- internal/controller/primary_reconciler.go: checkVRGConflict and pauseAllReplicationSources.
use mock_storage_operator.Prelude.{
  Bool, false, ◌||◌, String, ◌<>◌, Option, none, some, List, [], ◌∷◌, if◌then◌else◌,
}
use mock_storage_operator.Exec.{
  Exec, Error, Reply, value, error, pure, attempt, wrapping, for_each, ◌>>=◌, ◌>>◌,
}
use mock_storage_operator.Objects.{key_of, Rs, Pod, Vgr, Vrg}
use mock_storage_operator.Client.{Client}
use mock_storage_operator.Controller.Session.{Result, no_requeue}
use mock_storage_operator.Controller.FinalSync.{is_secondary}
use mock_storage_operator.Controller.FinalSync.Trigger.{
  in_namespace, source_job, is_volsync_pod, pause_rs,
}

-- does any VRG of the list ask for the secondary state
unfoldable pub any_secondary : List Vrg → Bool
any_secondary [] = false
any_secondary (vrg ∷ vrgs) = is_secondary vrg.replication_state || any_secondary vrgs

-- `(*ctrl.Result, error)`, either of which may be nil
pub record ConflictCheck : Type 0 where
  pub result : Option Result
  pub failure : Option Error

-- `return nil, nil`
abbrev pub no_conflict : ConflictCheck
no_conflict = record { result = none; failure = none }

-- the end of checkVRGConflict, from the reply of pauseAllReplicationSources
unfoldable pub after_pausing : Reply (Unit {0}) → ConflictCheck
after_pausing (value _) = record { result = some no_requeue; failure = none }
after_pausing (error e) = record { result = none; failure = some e }

module _ (C : Client) where
  -- one round of the first loop; the job lies in the VGR's namespace
  unfoldable pub pause_listed_rs : String → Rs → Exec C.World (Unit {0})
  pause_listed_rs namespace rs =
      pause_rs C (source_job (record { namespace = namespace; name = rs.name })) rs

  -- one round of the second loop
  unfoldable pub delete_volsync_pod : Pod → Exec C.World (Unit {0})
  delete_volsync_pod pod =
      if is_volsync_pod pod
      then wrapping ("deleting pod " <> (pod.namespace <> ("/" <> (pod.name <> ": "))))
          (C.delete_pod (key_of pod.meta))
      else pure tt

  -- pauseAllReplicationSources
  unfoldable pub pause_all_replication_sources : String → Exec C.World (Unit {0})
  pause_all_replication_sources namespace = do
    rss ← C.list_rss (in_namespace namespace)
    for_each rss (pause_listed_rs namespace)
    pods ← C.list_pods (in_namespace namespace)
    for_each pods delete_volsync_pod

  -- checkVRGConflict from the reply to the list; a failed list is only logged
  unfoldable pub conflict_of : Vgr → Reply (List Vrg) → Exec C.World ConflictCheck
  unfolding after_pausing
  conflict_of vgr (error e) = pure no_conflict
  conflict_of vgr (value vrgs) =
      if any_secondary vrgs
      then (do
        paused ← attempt (pause_all_replication_sources vgr.namespace)
        pure (after_pausing paused))
      else pure no_conflict

  -- checkVRGConflict
  unfoldable pub check_vrg_conflict : Vgr → Exec C.World ConflictCheck
  check_vrg_conflict vgr = do
    vrgs ← attempt (C.list_vrgs (in_namespace vgr.namespace))
    conflict_of vgr vrgs
