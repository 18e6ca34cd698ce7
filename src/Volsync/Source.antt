-- ===== src/Volsync/Source.antt =====
-- internal/volsync/handler.go: the ReplicationSource of one claim on the primary cluster
-- (ReconcileRS, createOrUpdateRS).
pub mod Effects
use mock_storage_operator.Prelude.{
  Bool, false, String, Option, none, some, List, has_suffix, if◌then◌else◌,
}
use mock_storage_operator.Exec.{Exec, Outcome, ok, err, panic, pure, wrapping, ◌>>=◌, ◌>>◌}
use mock_storage_operator.Objects.{Key, Rs, RsSpec, RsRsyncTls}
use mock_storage_operator.Client.{Client}
use mock_storage_operator.Volsync.{VsHandler, add_vgr_owner_label, get_replication_source_name}
use mock_storage_operator.Volsync.Schedule.{get_schedule_cron_spec}
use mock_storage_operator.Volsync.Claims.{
  is_pvc_terminating, validate_secret_and_add_owner_ref, ensure_pvc_labels, add_finalizer_to_pvc,
}
use mock_storage_operator.Volsync.Destination.{fresh_meta}
use mock_storage_operator.Volsync.Cleanup.{delete_rd}

-- the arguments of ReconcileRS; the volume snapshot class is not used by it
pub record RsArguments : Type 0 where
  pub claim : Key
  pub remote_address : String
  pub psk_secret_name : String
  pub storage_class_name : Option String
  pub access_modes : List String
  pub volume_snapshot_class_name : Option String

-- the mover's part of the spec that createOrUpdateRS sets
abbrev pub rs_rsync_tls : RsArguments → RsRsyncTls
rs_rsync_tls a = record {
  key_secret = some a.psk_secret_name;
  address = some a.remote_address;
  copy_method = "Direct";
  storage_class_name = a.storage_class_name;
  access_modes = a.access_modes;
}

-- the whole spec that it sets; whether the source is paused stays as it is
abbrev pub rs_spec : RsArguments → String → Bool → RsSpec
rs_spec a cron_spec paused = record {
  source_pvc = a.claim.name;
  paused = paused;
  trigger = some (record { schedule = some cron_spec; manual = "" });
  rsync_tls = some (rs_rsync_tls a);
}

-- its mutate function
unfoldable pub mutate_rs : VsHandler → RsArguments → Rs → Outcome Rs
mutate_rs v a rs = elim (get_schedule_cron_spec v) [
  | ok cron_spec ↦ ok (record rs {
    meta = add_vgr_owner_label v.owner rs.meta;
    spec = rs_spec a cron_spec rs.spec.paused;
  })
  | err e ↦ err e
  | panic ↦ panic
]

module _ (C : Client) where
  -- createOrUpdateRS
  unfoldable pub create_or_update_rs : VsHandler → RsArguments → Exec C.World Rs
  create_or_update_rs v a = wrapping "" (
      C.create_or_update_rs
        (record {
          meta = fresh_meta a.claim.namespace (get_replication_source_name a.claim.name);
          spec = record { source_pvc = ""; paused = false; trigger = none; rsync_tls = none };
          status = none;
        })
        (mutate_rs v a))

  -- from the deletion of the destination to the end
  unfoldable pub provide_rs : VsHandler → RsArguments → Exec C.World (Option Rs)
  provide_rs v a = do
    delete_rd C a.claim
    ensure_pvc_labels C v a.claim
    rs ← create_or_update_rs v a
    add_finalizer_to_pvc C a.claim
    pure (some rs)

  -- ReconcileRS
  unfoldable pub reconcile_rs : VsHandler → RsArguments → Exec C.World (Option Rs)
  reconcile_rs v a = if has_suffix a.claim.name "-tmp" then pure none else do
    is_terminating ← is_pvc_terminating C a.claim
    if is_terminating then pure none else do
      secret_exists ←
          validate_secret_and_add_owner_ref C
            (record { namespace = a.claim.namespace; name = a.psk_secret_name })
      if secret_exists then provide_rs v a else pure none
