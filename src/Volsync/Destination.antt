-- ===== src/Volsync/Destination.antt =====
-- internal/volsync/handler.go: the ReplicationDestination of one claim on the secondary cluster
-- (ReconcileRD, createOrUpdateRD, reconcileServiceExportForRD, rdStatusReady).
pub mod Effects
use mock_storage_operator.Prelude.{
  Bool, true, false, String, Option, none, some, List, [], ◌∷◌, has_suffix, if◌then◌else◌,
}
use mock_storage_operator.Prelude.Dict
use mock_storage_operator.Exec.{Exec, Outcome, ok, pure, wrapping, enclosing, discard, ◌>>=◌, ◌>>◌}
use mock_storage_operator.Objects.{Key, ObjectMeta, Quantity, Rd, RdRsyncTls}
use mock_storage_operator.Client.{Client}
use mock_storage_operator.Volsync.{
  VsHandler, temporary_pvc_annotation, add_vgr_owner_label, get_replication_destination_name,
  get_local_service_name_for_rd,
}
use mock_storage_operator.Volsync.Claims.{
  is_pvc_terminating, validate_secret_and_add_owner_ref, add_finalizer_to_pvc,
}
use mock_storage_operator.Volsync.Temporary.{create_temporary_pvc_from_terminating}
use mock_storage_operator.Volsync.Cleanup.{delete_rs}

-- the arguments of ReconcileRD; the consistency group is not used by it
pub record RdArguments : Type 0 where
  pub claim : Key
  pub capacity : Option Quantity
  pub storage_class_name : Option String
  pub access_modes : List String
  pub psk_secret_name : String
  pub service_type : Option String
  pub consistency_group : String

abbrev pub fresh_meta : String → String → ObjectMeta
fresh_meta namespace name = record {
  name = name;
  namespace = namespace;
  labels = [];
  annotations = [];
  finalizers = [];
  deletion_timestamp = none;
}

-- rdStatusReady
unfoldable pub rd_status_ready : Rd → Bool
rd_status_ready rd = elim (rd.status) [
  | none ↦ false
  | some status ↦ elim (status.rsync_tls) [
    | none ↦ false
    | some tls ↦ elim (tls.address) [ none ↦ false | some address ↦ true ]
  ]
]

-- the default of createOrUpdateRD
unfoldable pub modes_or_default : List String → List String
modes_or_default [] = "ReadWriteOnce" ∷ []
modes_or_default (mode ∷ modes) = mode ∷ modes

-- the spec that createOrUpdateRD sets
abbrev pub rd_spec : RdArguments → RdRsyncTls
rd_spec a = record {
  service_type = a.service_type;
  key_secret = some a.psk_secret_name;
  copy_method = "Direct";
  capacity = a.capacity;
  storage_class_name = a.storage_class_name;
  access_modes = modes_or_default a.access_modes;
  destination_pvc = some a.claim.name;
}

-- its mutate function
unfoldable pub mutate_rd : VsHandler → RdArguments → Rd → Outcome Rd
mutate_rd v a rd =
    ok (record rd { meta = add_vgr_owner_label v.owner rd.meta; rsync_tls = some (rd_spec a) })

module _ (C : Client) where
  -- createOrUpdateRD
  unfoldable pub create_or_update_rd : VsHandler → RdArguments → Exec C.World Rd
  create_or_update_rd v a = wrapping "" (
      C.create_or_update_rd
        (record {
          meta = fresh_meta a.claim.namespace (get_replication_destination_name a.claim.name);
          rsync_tls = none;
          status = none;
        })
        (mutate_rd v a))

  -- reconcileServiceExportForRD
  unfoldable pub reconcile_service_export_for_rd : Rd → Exec C.World (Unit {0})
  reconcile_service_export_for_rd rd = discard (
      enclosing "error creating or updating ServiceExport ("
        (C.create_or_update_export
          (record {
            meta = fresh_meta rd.namespace (get_local_service_name_for_rd rd.name);
            owners = [];
          })
          (C.set_owner_reference rd))
        ")")

  -- from the deletion of the source to the end
  unfoldable pub provide_rd : VsHandler → RdArguments → Exec C.World (Option Rd)
  provide_rd v a = do
    delete_rs C a.claim
    rd ← create_or_update_rd v a
    add_finalizer_to_pvc C a.claim
    reconcile_service_export_for_rd rd
    pure (if rd_status_ready rd then some rd else none)

  -- ReconcileRD for a claim that is neither temporary by its name nor terminating
  unfoldable pub reconcile_live_rd : VsHandler → RdArguments → Exec C.World (Option Rd)
  reconcile_live_rd v a = do
    pvc ← wrapping "failed to get PVC for ReplicationDestination reconcile: " (C.get_pvc a.claim)
    if Dict.contains temporary_pvc_annotation pvc.annotations then pure none else do
      secret_exists ←
          validate_secret_and_add_owner_ref C
            (record { namespace = a.claim.namespace; name = a.psk_secret_name })
      if secret_exists then provide_rd v a else pure none

  -- ReconcileRD
  unfoldable pub reconcile_rd : VsHandler → RdArguments → Exec C.World (Option Rd)
  reconcile_rd v a =
      if has_suffix a.claim.name "-tmp" then (delete_rs C a.claim >> pure none) else do
        is_terminating ← is_pvc_terminating C a.claim
        if is_terminating
            then (create_temporary_pvc_from_terminating C a.claim true >> pure none)
            else reconcile_live_rd v a
