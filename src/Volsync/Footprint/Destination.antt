-- ===== src/Volsync/Footprint/Destination.antt =====
-- The calls that ReconcileRD makes.
use mock_storage_operator.Exec.{Reply, value, error}
use mock_storage_operator.Exec.Preserves.{Preserves, preserves_rules}
use mock_storage_operator.Objects.{Key, Pvc, Rd, Rs}
use mock_storage_operator.Client.{Client}
use mock_storage_operator.Client.Footprint.{Reads, DestinationWrites, VolumeWrites}
use mock_storage_operator.Volsync.{VsHandler}
use mock_storage_operator.Volsync.Destination.{
  RdArguments, create_or_update_rd, reconcile_service_export_for_rd, provide_rd, reconcile_live_rd,
  reconcile_rd,
}
use mock_storage_operator.Volsync.Cleanup.{delete_found_rs, delete_rs}
use mock_storage_operator.Volsync.Footprint.Claims.{
  is_pvc_terminating-Preserves, validate_secret-Preserves, add_finalizer_to_pvc-Preserves,
}
use mock_storage_operator.Volsync.Footprint.Volumes.{create_temporary-Preserves}

module _ (C : Client) {P : C.World → Type 0} (reads : Reads C P)
    (update_pvc : (p : Pvc) → Preserves P (C.update_pvc p)) (v : VolumeWrites C P)
    (w : DestinationWrites C P) where
  delete_found_rs-Preserves : (k : Key) (r : Reply Rs) → Preserves P (delete_found_rs C k r)
  unfolding delete_found_rs
  delete_found_rs-Preserves k (error e) = search preserves_rules
  delete_found_rs-Preserves k (value rs) = search w.delete_rs

  delete_rs-Preserves : (k : Key) → Preserves P (delete_rs C k)
  unfolding delete_rs
  delete_rs-Preserves k = search (preserves_rules, reads.get_rs, delete_found_rs-Preserves)

  create_or_update_rd-Preserves :
      (h : VsHandler) (a : RdArguments) → Preserves P (create_or_update_rd C h a)
  unfolding create_or_update_rd
  create_or_update_rd-Preserves h a = search (preserves_rules, w.create_or_update_rd)

  reconcile_export-Preserves : (rd : Rd) → Preserves P (reconcile_service_export_for_rd C rd)
  unfolding reconcile_service_export_for_rd
  reconcile_export-Preserves rd = search (preserves_rules, w.create_or_update_export)

  provide_rd-Preserves : (h : VsHandler) (a : RdArguments) → Preserves P (provide_rd C h a)
  unfolding provide_rd
  provide_rd-Preserves h a =
      search
        (
          preserves_rules,
          delete_rs-Preserves,
          create_or_update_rd-Preserves,
          add_finalizer_to_pvc-Preserves C reads update_pvc,
          reconcile_export-Preserves,
        )
        depth 8

  reconcile_live_rd-Preserves :
      (h : VsHandler) (a : RdArguments) → Preserves P (reconcile_live_rd C h a)
  unfolding reconcile_live_rd
  reconcile_live_rd-Preserves h a =
      search
        (preserves_rules, reads.get_pvc, validate_secret-Preserves C reads, provide_rd-Preserves)
        depth 8

  pub reconcile_rd-Preserves : (h : VsHandler) (a : RdArguments) → Preserves P (reconcile_rd C h a)
  unfolding reconcile_rd
  reconcile_rd-Preserves h a =
      search
        (
          preserves_rules,
          delete_rs-Preserves,
          is_pvc_terminating-Preserves C reads,
          create_temporary-Preserves C reads update_pvc v,
          reconcile_live_rd-Preserves,
        )
        depth 8
