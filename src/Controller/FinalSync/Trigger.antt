-- ===== src/Controller/FinalSync/Trigger.antt =====
-- internal/controller/finalsync_handler.go: the steps of the final sync on one claim, its source
-- and the pods that use it.
use mock_storage_operator.Prelude.{
  Bool, true, false, String, ◌<>◌, ◌==◌, Option, none, some, List, [], ◌∷◌, if◌then◌else◌,
}
use mock_storage_operator.Prelude.Dict
use mock_storage_operator.Exec.{
  Exec, Reply, value, error, is_not_found, pure, fail, attempt, wrapping, ◌>>=◌, ◌>>◌,
}
use mock_storage_operator.Objects.{
  Key, key_of, Pvc, Rs, Pod, ListOptions, claim_lost, PvcPhase, claim_bound, claim_pending,
}
use mock_storage_operator.Client.{Client}
use mock_storage_operator.Controller.Conditions.{is_final_sync_complete}

-- `client.InNamespace(namespace)`
abbrev pub in_namespace : String → ListOptions
in_namespace namespace = record {
  in_namespace = some namespace;
  matching_labels = [];
  selector = [];
}

-- `pod.Labels["app.kubernetes.io/created-by"] == "volsync"`
abbrev pub is_volsync_pod : Pod → Bool
is_volsync_pod pod = Dict.index "app.kubernetes.io/created-by" pod.labels == "volsync"

-- the job that VolSync runs for a source
abbrev pub source_job : Key → Key
source_job k = record k { name = "volsync-rsync-tls-src-" <> k.name }

unfoldable pub mounts : String → List (Option String) → Bool
mounts claim [] = false
mounts claim (none ∷ volumes) = mounts claim volumes
mounts claim (some name ∷ volumes) = if name == claim then true else mounts claim volumes

abbrev pub without_bind_completed : Pvc → Pvc
without_bind_completed pvc = record pvc {
  meta = record (pvc.meta) {
    annotations = Dict.delete "pv.kubernetes.io/bind-completed" pvc.annotations;
  };
}

-- what the source is set to for the final sync
unfoldable pub final_sync_rs : Key → Rs → Rs
final_sync_rs k rs = record rs {
  spec = record (rs.spec) {
    paused = false;
    source_pvc = k.name <> "-tmp";
    trigger = some (record { schedule = none; manual = "vgr-final-sync" });
  };
}

abbrev pub paused_rs : Rs → Rs
paused_rs rs = record rs { spec = record (rs.spec) { paused = true } }

module _ (C : Client) where
  -- handleLostTemporaryPVC by the claim's phase
  unfoldable pub handle_phase : Pvc → PvcPhase → Exec C.World Pvc
  handle_phase pvc claim_bound = pure pvc
  handle_phase pvc claim_pending = pure pvc
  handle_phase pvc claim_lost =
      if Dict.contains "pv.kubernetes.io/bind-completed" pvc.annotations
      then (do
        wrapping "failed to update lost temporary PVC: " (C.update_pvc (without_bind_completed pvc))
        pure (without_bind_completed pvc))
      else pure pvc

  -- handleLostTemporaryPVC; the result is the claim of the list afterwards
  unfoldable pub handle_lost_temporary_pvc : Pvc → Exec C.World Pvc
  handle_lost_temporary_pvc pvc = handle_phase pvc pvc.phase

  -- `client.IgnoreNotFound(err) != nil` after the deletion of a job
  unfoldable pub ignore_not_found : Reply (Unit {0}) → Exec C.World (Unit {0})
  ignore_not_found (value _) = pure tt
  ignore_not_found (error e) = if is_not_found e then pure tt else fail e

  -- a source that is not paused is paused, and its job deleted
  unfoldable pub pause_rs : Key → Rs → Exec C.World (Unit {0})
  unfolding ignore_not_found
  pause_rs job rs = if rs.spec.paused then pure tt else (do
    C.update_rs (paused_rs rs)
    deleted ← attempt (C.delete_job job)
    ignore_not_found deleted)

  -- pauseReplicationSource
  unfoldable pub pause_replication_source : Key → Exec C.World (Unit {0})
  unfolding pause_rs
  pause_replication_source k = do rs ← C.get_rs k; pause_rs (source_job k) rs

  -- triggerFinalSyncForPVC
  unfoldable pub trigger_final_sync_for_pvc : Key → Exec C.World Bool
  unfolding final_sync_rs is_final_sync_complete
  trigger_final_sync_for_pvc k = do
    rs ← C.get_rs k
    stored ← C.update_rs (final_sync_rs k rs)
    pure (is_final_sync_complete stored)

  -- the loop of isPVCInUse
  unfoldable pub find_user : String → List Pod → Exec C.World Bool
  unfolding mounts
  find_user claim [] = pure false
  find_user claim (pod ∷ pods) =
      let later = find_user claim pods in
      if mounts claim pod.volumes
      then if is_volsync_pod pod
        then wrapping ("deleting pod " <> (pod.namespace <> ("/" <> (pod.name <> ": "))))
            (C.delete_pod (key_of pod.meta))
          >> pure true
        else pure true
      else later

  -- isPVCInUse
  unfoldable pub is_pvc_in_use : Key → Exec C.World Bool
  unfolding find_user
  is_pvc_in_use k = do
    pods ← wrapping "listing pods: " (C.list_pods (in_namespace k.namespace))
    find_user k.name pods
