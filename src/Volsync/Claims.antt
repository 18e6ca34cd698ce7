-- ===== src/Volsync/Claims.antt =====
-- internal/volsync/handler.go: the operations on one claim or secret, that is the protection
-- finalizer, the owner labels, the deletion mark, the bound volume, and the shared secret.
pub mod Effects
pub mod Kept
use mock_storage_operator.Prelude.{
  ℕ, Bool, true, false, not, String, ◌<>◌, ◌==◌, Option, none, some, eqb, if◌then◌else◌,
}
use mock_storage_operator.Prelude.Dict
use mock_storage_operator.Prelude.Dict.{Dict}
use mock_storage_operator.Exec.{
  Exec, Reply, value, error, errorf, wrap, enclose, is_not_found, pure, fail, attempt, wrapping,
  discard, ◌>>=◌,
}
use mock_storage_operator.Objects.{Key, Pvc, Pv}
use mock_storage_operator.Client.{Client}
use mock_storage_operator.Volsync.{
  VsHandler, vgr_owner_label, vgr_owner_namespace_label, pvc_finalizer_name,
}

-- `metav1.Time.IsZero` through a pointer
unfoldable pub is_zero_time : Option ℕ → Bool
is_zero_time none = true
is_zero_time (some t) = eqb t 0

-- one of the two assignments of ensurePVCLabels, on the labels and `needsUpdate`
unfoldable pub set_label : String → String → Dict × Bool → Dict × Bool
set_label key text (labels, needs_update) =
    if not (Dict.index key labels == text)
    then (Dict.insert key text labels, true)
    else (labels, needs_update)

unfoldable pub owner_labels : Key → Dict → Dict × Bool
unfolding set_label
owner_labels owner labels =
    set_label vgr_owner_namespace_label owner.namespace
      (set_label vgr_owner_label owner.name (labels, false))

module _ (C : Client) where
  -- the end of addFinalizerToPVC, from the reply to the first read
  unfoldable pub add_finalizer_to : Reply Pvc → Exec C.World (Unit {0})
  add_finalizer_to (error e) =
      if is_not_found e then pure tt else fail (wrap "failed to get PVC: " e)
  add_finalizer_to (value pvc) =
      if C.contains_finalizer pvc.finalizers pvc_finalizer_name
      then pure tt
      else discard (
          wrapping "failed to add finalizer to PVC: " (
            C.update_pvc (record pvc {
              meta = record (pvc.meta) {
                finalizers = C.add_finalizer pvc.finalizers pvc_finalizer_name;
              };
            })))

  -- addFinalizerToPVC
  unfoldable pub add_finalizer_to_pvc : Key → Exec C.World (Unit {0})
  add_finalizer_to_pvc k = do got ← attempt (C.get_pvc k); add_finalizer_to got

  -- the end of removeFinalizerFromPVC, from the reply to the first read
  unfoldable pub remove_finalizer_from : Reply Pvc → Exec C.World (Unit {0})
  remove_finalizer_from (error e) =
      if is_not_found e then pure tt else fail (wrap "failed to get PVC: " e)
  remove_finalizer_from (value pvc) =
      if not (C.contains_finalizer pvc.finalizers pvc_finalizer_name)
      then pure tt
      else discard (
          wrapping "failed to remove finalizer from PVC: " (
            C.update_pvc (record pvc {
              meta = record (pvc.meta) {
                finalizers = C.remove_finalizer pvc.finalizers pvc_finalizer_name;
              };
            })))

  -- removeFinalizerFromPVC
  unfoldable pub remove_finalizer_from_pvc : Key → Exec C.World (Unit {0})
  remove_finalizer_from_pvc k = do got ← attempt (C.get_pvc k); remove_finalizer_from got

  -- the end of IsPVCTerminating, from the reply to the read
  unfoldable pub terminating_of : Reply Pvc → Exec C.World Bool
  terminating_of (error e) =
      if is_not_found e then pure false else fail (wrap "failed to get PVC: " e)
  terminating_of (value pvc) = pure (not (is_zero_time pvc.deletion_timestamp))

  -- IsPVCTerminating
  unfoldable pub is_pvc_terminating : Key → Exec C.World Bool
  is_pvc_terminating k = do got ← attempt (C.get_pvc k); terminating_of got

  -- getPVFromPVC
  unfoldable pub get_pv_from_pvc : Key → Exec C.World Pv
  get_pv_from_pvc k = do
    pvc ← wrapping "failed to get PVC: " (C.get_pvc k)
    if pvc.spec.volume_name == ""
        then fail (errorf ("PVC " <> (k.namespace <> ("/" <> (k.name <> " is not bound to a PV")))))
        else wrapping ("failed to get PV " <> (pvc.spec.volume_name <> ": "))
            (C.get_pv pvc.spec.volume_name)

  -- the end of ensurePVCLabels, from the reply to the read
  unfoldable pub ensure_labels_of : Key → Reply Pvc → Exec C.World (Unit {0})
  ensure_labels_of owner (error e) =
      if is_not_found e then pure tt else fail (wrap "failed to get PVC: " e)
  ensure_labels_of owner (value pvc) =
      let (labels, needs_update) = owner_labels owner pvc.labels in
      if needs_update
      then discard (
          wrapping "failed to update PVC labels/annotations: "
            (C.update_pvc (record pvc { meta = record (pvc.meta) { labels = labels } })))
      else pure tt

  -- ensurePVCLabels
  unfoldable pub ensure_pvc_labels : VsHandler → Key → Exec C.World (Unit {0})
  ensure_pvc_labels v k = do got ← attempt (C.get_pvc k); ensure_labels_of v.owner got

  -- the end of validateSecretAndAddOwnerRef, from the reply to the read
  unfoldable pub secret_found : Key → Reply (Unit {0}) → Exec C.World Bool
  secret_found k (value _) = pure true
  secret_found k (error e) =
      if is_not_found e
      then fail (
          errorf (
            "secret "
            <> (k.name
                <> (" not found in namespace "
                    <> (k.namespace <> " - must be created before replication")))))
      else fail (enclose "error getting secret (" e ")")

  -- validateSecretAndAddOwnerRef
  unfoldable pub validate_secret_and_add_owner_ref : Key → Exec C.World Bool
  validate_secret_and_add_owner_ref k = do got ← attempt (C.get_secret k); secret_found k got
