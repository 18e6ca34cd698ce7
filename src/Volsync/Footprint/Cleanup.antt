-- ===== src/Volsync/Footprint/Cleanup.antt =====
-- The calls that the deletions by label make.
use mock_storage_operator.Prelude.{String}
use mock_storage_operator.Exec.{Reply, value, error}
use mock_storage_operator.Exec.Preserves.{Preserves, preserves_rules}
use mock_storage_operator.Objects.{Pvc, Rd, Rs}
use mock_storage_operator.Client.{Client}
use mock_storage_operator.Client.Footprint.{Reads, CleanupWrites}
use mock_storage_operator.Volsync.{VsHandler}
use mock_storage_operator.Volsync.Cleanup.{
  gone_or_fail, delete_listed_rs, delete_rs_by_label, delete_listed_rd, delete_rd_by_label,
  unprotect_listed_pvc, remove_finalizers_from_pvcs_by_label,
}
use mock_storage_operator.Volsync.Footprint.Claims.{remove_finalizer_from_pvc-Preserves}

module _ (C : Client) {P : C.World → Type 0} (reads : Reads C P) where
  gone_or_fail-Preserves :
      (text : String) (r : Reply (Unit {0})) → Preserves P (gone_or_fail C text r)
  unfolding gone_or_fail
  gone_or_fail-Preserves text (error e) = search preserves_rules
  gone_or_fail-Preserves text (value _) = search preserves_rules

  module _ (w : CleanupWrites C P) where
    delete_listed_rs-Preserves : (rs : Rs) → Preserves P (delete_listed_rs C rs)
    unfolding delete_listed_rs
    delete_listed_rs-Preserves rs = search (preserves_rules, w.delete_rs, gone_or_fail-Preserves)

    pub delete_rs_by_label-Preserves : (v : VsHandler) → Preserves P (delete_rs_by_label C v)
    unfolding delete_rs_by_label
    delete_rs_by_label-Preserves v =
        search (preserves_rules, reads.list_rss, delete_listed_rs-Preserves)

    delete_listed_rd-Preserves : (rd : Rd) → Preserves P (delete_listed_rd C rd)
    unfolding delete_listed_rd
    delete_listed_rd-Preserves rd = search (preserves_rules, w.delete_rd, gone_or_fail-Preserves)

    pub delete_rd_by_label-Preserves : (v : VsHandler) → Preserves P (delete_rd_by_label C v)
    unfolding delete_rd_by_label
    delete_rd_by_label-Preserves v =
        search (preserves_rules, reads.list_rds, delete_listed_rd-Preserves)

  module _ (update_pvc : (p : Pvc) → Preserves P (C.update_pvc p)) where
    unprotect_listed_pvc-Preserves : (p : Pvc) → Preserves P (unprotect_listed_pvc C p)
    unfolding unprotect_listed_pvc
    unprotect_listed_pvc-Preserves p =
        search (preserves_rules, remove_finalizer_from_pvc-Preserves C reads update_pvc)

    pub remove_finalizers-Preserves :
        (v : VsHandler) → Preserves P (remove_finalizers_from_pvcs_by_label C v)
    unfolding remove_finalizers_from_pvcs_by_label
    remove_finalizers-Preserves v =
        search (preserves_rules, reads.list_pvcs, unprotect_listed_pvc-Preserves)
