-- ===== src/Controller/Delete/Footprint.antt =====
-- The calls of the API server that the deletion of a VolumeGroupReplication makes when it is not
-- in the secondary state.
use mock_storage_operator.Prelude.{◌≡◌, false}
use mock_storage_operator.Exec.Preserves.{Preserves, preserves_rules}
use mock_storage_operator.Objects.{Pvc, Vgr}
use mock_storage_operator.Client.{Client}
use mock_storage_operator.Client.Footprint.{Reads, CleanupWrites}
use mock_storage_operator.Volsync.{VsHandler}
use mock_storage_operator.Volsync.Footprint.Cleanup.{
  delete_rs_by_label-Preserves, delete_rd_by_label-Preserves, remove_finalizers-Preserves,
}
use mock_storage_operator.Controller.FinalSync.{is_secondary}
use mock_storage_operator.Controller.Delete.{handle_pvc_deletion, clean_up}

module _ (C : Client) {P : C.World → Type 0} (reads : Reads C P) (cleanup : CleanupWrites C P)
    (update_pvc : (p : Pvc) → Preserves P (C.update_pvc p)) where
  handle_pvc_deletion-Preserves :
      (vgr : Vgr) (v : VsHandler)
      → is_secondary vgr.replication_state ≡ false
      → Preserves P (handle_pvc_deletion C vgr v)
  unfolding handle_pvc_deletion
  handle_pvc_deletion-Preserves vgr v other =
      rw other (remove_finalizers-Preserves C reads update_pvc v)

  -- The clean-up of a VolumeGroupReplication that is not in the secondary state makes no other
  -- writes than deletions of sources and destinations and updates of claims, however it ends: an
  -- invariant of the cluster that the reads and those writes keep is kept. So no claim is deleted
  -- and no volume's reclaim policy is changed.
  pub clean_up-Preserves :
      (vgr : Vgr) → is_secondary vgr.replication_state ≡ false → Preserves P (clean_up C vgr)
  unfolding clean_up
  clean_up-Preserves vgr other =
      search
        (
          preserves_rules,
          delete_rs_by_label-Preserves C reads cleanup,
          delete_rd_by_label-Preserves C reads cleanup,
          handle_pvc_deletion-Preserves,
        )
        depth 8
