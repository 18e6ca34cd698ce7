-- ===== src/Volsync/Restore.antt =====
-- internal/volsync/handler.go: RestorePVCFromTemporary, which makes the application's claim again
-- from the temporary one, points the volume at it, and deletes the temporary claim.
pub mod Effects
pub mod Safety
pub mod Done
pub mod RoundTrip
use mock_storage_operator.Prelude.{
  List, Option, ℕ, Bool, not, ◌||◌, String, ◌<>◌, ◌==◌, none, some, [], ◌∷◌, has_suffix,
  trim_suffix, if◌then◌else◌,
}
use mock_storage_operator.Prelude.Dict
use mock_storage_operator.Prelude.Dict.{Dict}
use mock_storage_operator.Exec.{
  Exec, Reply, value, error, errorf, wrap, is_not_found, is_already_exists, pure, fail, attempt,
  wrapping, ◌>>=◌, ◌>>◌,
}
use mock_storage_operator.Objects.{Key, Pvc, Pv, claim_pending, key_of}
use mock_storage_operator.Client.{Client}
use mock_storage_operator.Volsync.{
  vgr_owner_label, vgr_owner_namespace_label, temporary_pvc_annotation,
}
use mock_storage_operator.Volsync.Claims.{get_pv_from_pvc, remove_finalizer_from_pvc}
use mock_storage_operator.Volsync.Temporary.{temporary_key, spec_bound_to, claim_ref_to}

-- the names that RestorePVCFromTemporary works with: the temporary claim's and the claim's
unfoldable pub temporary_key_for : Key → Key
temporary_key_for k = if has_suffix k.name "-tmp" then k else temporary_key k

unfoldable pub main_key_for : Key → Key
main_key_for k =
    if has_suffix k.name "-tmp" then record k { name = trim_suffix k.name "-tmp" } else k

-- the annotations that RestorePVCFromTemporary leaves out
unfoldable pub restores_annotation : String → Bool
restores_annotation key =
    not (key == temporary_pvc_annotation || key == "pv.kubernetes.io/bind-completed")

-- the labels that it keeps
unfoldable pub restores_label : String → Bool
restores_label key =
    key == vgr_owner_label
    || (key == vgr_owner_namespace_label || key == "ramendr.openshift.io/consistency-group")

-- `if val, ok := from[key]; ok { to[key] = val }`
unfoldable pub copy_label : String → Dict → Dict → Dict
copy_label key from to = elim (Dict.lookup key from) [
  | none ↦ to
  | some val ↦ Dict.insert key val to
]

unfoldable pub restored_labels : Dict → Dict
unfolding copy_label
restored_labels labels =
    copy_label "ramendr.openshift.io/consistency-group" labels
      (copy_label vgr_owner_namespace_label labels (copy_label vgr_owner_label labels []))

unfoldable pub restored_pvc : Key → Pvc → Pv → Pvc
unfolding restores_annotation restored_labels
restored_pvc k tmp_pvc pv = record {
  meta = record {
    name = k.name;
    namespace = k.namespace;
    labels = restored_labels tmp_pvc.labels;
    annotations = Dict.filter_keys restores_annotation tmp_pvc.annotations;
    finalizers = [];
    deletion_timestamp = none;
  };
  spec = spec_bound_to tmp_pvc pv;
  phase = claim_pending;
}

module _ (C : Client) where
  -- its end: the claim's finalizers are dropped, if there are any
  unfoldable pub release_finalizers : Key → Pvc → List String → Exec C.World (Unit {0})
  release_finalizers k existing [] =
      fail
        (errorf ("no Finalizers. But PVC still exists. Waiting for the PVC to go away: " <> k.name))
  release_finalizers k existing (f ∷ fs) = do
    wrapping "failed to remove finalizers from terminating PVC: "
        (C.update_pvc (record existing { meta = record (existing.meta) { finalizers = [] } }))
    fail (errorf ("waiting for the PVC to go away: " <> k.name))

  -- the branch for a claim that is still being deleted
  unfoldable pub release_terminating : Key → Pvc → Pvc → Exec C.World (Unit {0})
  release_terminating k tmp_pvc existing = do
    wrapping "failed to update temporary PVC labels from App PVC before letting it go: " (
        C.update_pvc (record tmp_pvc { meta = record (tmp_pvc.meta) { labels = existing.labels } }))
    release_finalizers k existing existing.finalizers

  -- `err != nil && !kerrors.IsAlreadyExists(err)` after the creation
  unfoldable pub created_or_exists : Reply Pvc → Exec C.World (Unit {0})
  created_or_exists (value pvc) = pure tt
  created_or_exists (error e) =
      if is_already_exists e then pure tt else fail (wrap "failed to create restored PVC: " e)

  unfoldable pub deleted_or_missing : Reply (Unit {0}) → Exec C.World (Unit {0})
  deleted_or_missing (value _) = pure tt
  deleted_or_missing (error e) =
      if is_not_found e then pure tt else fail (wrap "failed to delete temporary PVC: " e)

  -- from the creation of the claim to the end
  unfoldable pub recreate : Key → Pvc → Pv → Exec C.World (Unit {0})
  recreate k tmp_pvc pv = do
    created ← attempt (C.create_pvc (restored_pvc k tmp_pvc pv))
    created_or_exists created
    wrapping "failed to update PV claimRef to restored PVC: "
        (C.update_pv (record pv { claim_ref = some (claim_ref_to k) }))
    deleted ← attempt (C.delete_pvc (key_of tmp_pvc.meta))
    deleted_or_missing deleted
    wrapping "failed to remove finalizer from terminating PVC: "
        (remove_finalizer_from_pvc C (key_of tmp_pvc.meta))

  -- the claim is there: is it being deleted
  unfoldable pub restore_existing : Key → Pvc → Pv → Pvc → Option ℕ → Exec C.World (Unit {0})
  restore_existing k tmp_pvc pv existing none = recreate k tmp_pvc pv
  restore_existing k tmp_pvc pv existing (some t) = release_terminating k tmp_pvc existing

  -- what follows the read of the claim itself
  unfoldable pub restore_over : Key → Pvc → Pv → Reply Pvc → Exec C.World (Unit {0})
  restore_over k tmp_pvc pv (value existing) =
      restore_existing k tmp_pvc pv existing existing.deletion_timestamp
  restore_over k tmp_pvc pv (error e) =
      if not (is_not_found e)
      then fail (wrap "failed to check existing PVC before restore: " e)
      else recreate k tmp_pvc pv

  -- what follows the read of the temporary claim
  unfoldable pub restore_from : Key → Reply Pvc → Exec C.World (Unit {0})
  restore_from k (error e) =
      if is_not_found e then pure tt else fail (wrap "failed to get temporary PVC: " e)
  restore_from k (value tmp_pvc) = do
    pv ← wrapping "failed to get PV for temporary PVC: " (get_pv_from_pvc C (temporary_key_for k))
    existing ← attempt (C.get_pvc (main_key_for k))
    restore_over (main_key_for k) tmp_pvc pv existing

  -- RestorePVCFromTemporary
  unfoldable pub restore_pvc_from_temporary : Key → Exec C.World (Unit {0})
  restore_pvc_from_temporary k = do
    got ← attempt (C.get_pvc (temporary_key_for k))
    restore_from k got
