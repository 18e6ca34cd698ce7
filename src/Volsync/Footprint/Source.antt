-- ===== src/Volsync/Footprint/Source.antt =====
-- The calls that ReconcileRS makes.
use mock_storage_operator.Exec.{Reply, value, error}
use mock_storage_operator.Exec.Preserves.{Preserves, preserves_rules}
use mock_storage_operator.Objects.{Key, Rd}
use mock_storage_operator.Client.{Client}
use mock_storage_operator.Client.Footprint.{Reads, SourceWrites}
use mock_storage_operator.Volsync.{VsHandler}
use mock_storage_operator.Volsync.Source.{
  RsArguments, create_or_update_rs, provide_rs, reconcile_rs,
}
use mock_storage_operator.Volsync.Cleanup.{delete_found_rd, delete_rd}
use mock_storage_operator.Volsync.Footprint.Claims.{
  is_pvc_terminating-Preserves, validate_secret-Preserves, ensure_pvc_labels-Preserves,
  add_finalizer_to_pvc-Preserves,
}

module _ (C : Client) {P : C.World → Type 0} (reads : Reads C P) (w : SourceWrites C P) where
  delete_found_rd-Preserves : (k : Key) (r : Reply Rd) → Preserves P (delete_found_rd C k r)
  unfolding delete_found_rd
  delete_found_rd-Preserves k (error e) = search preserves_rules
  delete_found_rd-Preserves k (value rd) = search w.delete_rd

  delete_rd-Preserves : (k : Key) → Preserves P (delete_rd C k)
  unfolding delete_rd
  delete_rd-Preserves k = search (preserves_rules, reads.get_rd, delete_found_rd-Preserves)

  create_or_update_rs-Preserves :
      (v : VsHandler) (a : RsArguments) → Preserves P (create_or_update_rs C v a)
  unfolding create_or_update_rs
  create_or_update_rs-Preserves v a = search (preserves_rules, w.create_or_update_rs)

  provide_rs-Preserves : (v : VsHandler) (a : RsArguments) → Preserves P (provide_rs C v a)
  unfolding provide_rs
  provide_rs-Preserves v a =
      search
        (
          preserves_rules,
          delete_rd-Preserves,
          ensure_pvc_labels-Preserves C reads w.update_pvc,
          create_or_update_rs-Preserves,
          add_finalizer_to_pvc-Preserves C reads w.update_pvc,
        )
        depth 8

  pub reconcile_rs-Preserves : (v : VsHandler) (a : RsArguments) → Preserves P (reconcile_rs C v a)
  unfolding reconcile_rs
  reconcile_rs-Preserves v a =
      search
        (
          preserves_rules,
          is_pvc_terminating-Preserves C reads,
          validate_secret-Preserves C reads,
          provide_rs-Preserves,
        )
        depth 8
