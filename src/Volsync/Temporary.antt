-- ===== src/Volsync/Temporary.antt =====
-- internal/volsync/handler.go: the temporary claim that keeps a volume while the application's
-- claim is deleted and made again (CreateTemporaryPVCFromTerminating, HasTemporaryPVC).
pub mod Effects
pub mod Safety
pub mod Made
use mock_storage_operator.Prelude.{
  Bool, true, false, not, ◌&&◌, ◌||◌, String, ◌<>◌, ◌==◌, Option, none, some, [], has_suffix,
  starts_with, if◌then◌else◌,
}
use mock_storage_operator.Prelude.Dict
use mock_storage_operator.Prelude.Dict.{Dict}
use mock_storage_operator.Exec.{
  Exec, Reply, value, error, wrap, is_not_found, pure, fail, attempt, wrapping, discard, ◌>>=◌,
  ◌>>◌,
}
use mock_storage_operator.Objects.{Key, Pvc, Pv, PvcSpec, ObjectReference, claim_pending}
use mock_storage_operator.Client.{Client}
use mock_storage_operator.Volsync.{temporary_pvc_annotation}
use mock_storage_operator.Volsync.Claims.{get_pv_from_pvc, remove_finalizer_from_pvc}

-- `pvcName + "-tmp"`
abbrev pub temporary_name : String → String
temporary_name pvc_name = pvc_name <> "-tmp"

abbrev pub temporary_key : Key → Key
temporary_key k = record k { name = temporary_name k.name }

-- the annotations that CreateTemporaryPVCFromTerminating copies
unfoldable pub keeps_annotation : String → Bool
keeps_annotation key =
    key == "volumereplicationgroups.ramendr.openshift.io/ramen-restore"
    || starts_with key "apps.open-cluster-management.io"

unfoldable pub temporary_annotations : Dict → Dict
unfolding keeps_annotation
temporary_annotations annotations =
    Dict.insert temporary_pvc_annotation
      "not reconcilable; used only to hold the main PVC info for restore"
      (Dict.filter_keys keeps_annotation annotations)

-- the fields that are copied from a claim's spec, and the volume; the others are left out
abbrev pub spec_bound_to : Pvc → Pv → PvcSpec
spec_bound_to pvc pv = record {
  access_modes = pvc.spec.access_modes;
  requests = pvc.spec.requests;
  limits = pvc.spec.limits;
  storage_class_name = pvc.spec.storage_class_name;
  volume_mode = pvc.spec.volume_mode;
  volume_name = pv.name;
  selector = none;
  data_source = none;
  data_source_ref = none;
  volume_attributes_class_name = none;
}

unfoldable pub temporary_pvc : Key → Pvc → Pv → Pvc
unfolding temporary_annotations
temporary_pvc k pvc pv = record {
  meta = record {
    name = temporary_name k.name;
    namespace = k.namespace;
    labels = pvc.labels;
    annotations = temporary_annotations pvc.annotations;
    finalizers = [];
    deletion_timestamp = none;
  };
  spec = spec_bound_to pvc pv;
  phase = claim_pending;
}

-- a claim reference with no UID and no resource version
abbrev pub claim_ref_to : Key → ObjectReference
claim_ref_to k = record {
  kind = "PersistentVolumeClaim";
  namespace = k.namespace;
  name = k.name;
  api_version = "v1";
  uid = "";
  resource_version = "";
}

-- the negation of the test before the volume is updated
unfoldable pub refers_to : Option ObjectReference → Key → Bool
refers_to none k = false
refers_to (some ref) k = ref.name == k.name && ref.namespace == k.namespace

module _ (C : Client) where
  unfoldable pub create_if_missing : Pvc → Reply Pvc → Exec C.World (Unit {0})
  create_if_missing tmp_pvc (value existing) = pure tt
  create_if_missing tmp_pvc (error e) =
      if is_not_found e
      then discard (wrapping "failed to create temporary PVC: " (C.create_pvc tmp_pvc))
      else fail (wrap "failed to check for existing temporary PVC: " e)

  unfoldable pub point_volume_at : Key → Pv → Exec C.World (Unit {0})
  point_volume_at k pv =
      if refers_to pv.claim_ref k
      then pure tt
      else discard (
          wrapping "failed to update PV claimRef: "
            (C.update_pv (record pv { claim_ref = some (claim_ref_to k) })))

  -- CreateTemporaryPVCFromTerminating
  unfoldable pub create_temporary_pvc_from_terminating : Key → Bool → Exec C.World (Unit {0})
  create_temporary_pvc_from_terminating k rm_finalizer = do
    pvc ← wrapping "failed to get terminating PVC: " (C.get_pvc k)
    pv ← wrapping "failed to get PV for terminating PVC: " (get_pv_from_pvc C k)
    existing ← attempt (C.get_pvc (temporary_key k))
    create_if_missing (temporary_pvc k pvc pv) existing
    point_volume_at (temporary_key k) pv
    if not rm_finalizer
        then pure tt
        else wrapping "failed to remove finalizer from terminating PVC: "
            (remove_finalizer_from_pvc C k)

  unfoldable pub found : Reply Pvc → Exec C.World Bool
  found (value pvc) = pure true
  found (error e) =
      if is_not_found e then pure false else fail (wrap "failed to check for temporary PVC: " e)

  -- HasTemporaryPVC
  unfoldable pub has_temporary_pvc : Key → Exec C.World Bool
  has_temporary_pvc k =
      if has_suffix k.name "-tmp"
      then pure true
      else do got ← attempt (C.get_pvc (temporary_key k)); found got
