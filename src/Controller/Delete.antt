-- ===== src/Controller/Delete.antt =====
-- internal/controller/delete_reconciler.go: a VolumeGroupReplication that is being deleted.
pub mod Footprint
pub mod Guard
pub mod Complete
pub mod Secondary
use mock_storage_operator.Prelude.{String, if◌then◌else◌}
use mock_storage_operator.Exec.{
  Exec, Reply, value, error, is_not_found, pure, fail, attempt, ◌>>=◌, ◌>>◌,
}
use mock_storage_operator.Objects.{Vgr}
use mock_storage_operator.Client.{Client}
use mock_storage_operator.Volsync.{VsHandler}
use mock_storage_operator.Volsync.Cleanup.{
  delete_rs_by_label, delete_rd_by_label, delete_pvcs_by_label,
  remove_finalizers_from_pvcs_by_label,
}
use mock_storage_operator.Controller.Session.{
  Session, Result, no_requeue, handler_for, on_world, modify_vgr, the_vgr,
}
use mock_storage_operator.Controller.FinalSync.{is_secondary}

-- vgrFinalizer
abbrev pub vgr_finalizer : String
vgr_finalizer = "mock.storage.io/volumegroupreplication"

module _ (C : Client) where
  -- the VGR without its finalizer
  abbrev pub released : Vgr → Vgr
  released vgr = record vgr {
    meta = record (vgr.meta) { finalizers = C.remove_finalizer vgr.finalizers vgr_finalizer };
  }

  -- deleteReplicationSources
  abbrev pub delete_replication_sources : VsHandler → Exec C.World (Unit {0})
  delete_replication_sources v = delete_rs_by_label C v

  -- deleteReplicationDestinations
  abbrev pub delete_replication_destinations : VsHandler → Exec C.World (Unit {0})
  delete_replication_destinations v = delete_rd_by_label C v

  -- deletePVCs
  abbrev pub delete_pvcs : VsHandler → Exec C.World (Unit {0})
  delete_pvcs v = delete_pvcs_by_label C v

  -- removePVCFinalizers
  abbrev pub remove_pvc_finalizers : VsHandler → Exec C.World (Unit {0})
  remove_pvc_finalizers v = remove_finalizers_from_pvcs_by_label C v

  -- handlePVCDeletion
  unfoldable pub handle_pvc_deletion : Vgr → VsHandler → Exec C.World (Unit {0})
  handle_pvc_deletion vgr v =
      if is_secondary vgr.replication_state then delete_pvcs v else remove_pvc_finalizers v

  -- the calls of Reconcile before the finalizer is removed
  unfoldable pub clean_up : Vgr → Exec C.World (Unit {0})
  clean_up vgr = do
    delete_replication_sources (handler_for vgr "")
    delete_replication_destinations (handler_for vgr "")
    handle_pvc_deletion vgr (handler_for vgr "")

  -- the end of removeFinalizer, from the reply to the update
  unfoldable pub finalizer_removed : Reply Vgr → Exec (Session C.World) (Unit {0})
  finalizer_removed (value stored) = modify_vgr (λ _. stored)
  finalizer_removed (error e) = if is_not_found e then pure tt else fail e

  -- removeFinalizer
  unfoldable pub remove_vgr_finalizer : Exec (Session C.World) (Unit {0})
  remove_vgr_finalizer = do
    modify_vgr released
    vgr ← the_vgr
    updated ← attempt (on_world (C.update_vgr vgr))
    finalizer_removed updated

  -- Reconcile
  unfoldable pub reconcile : Exec (Session C.World) Result
  reconcile = do vgr ← the_vgr; on_world (clean_up vgr); remove_vgr_finalizer; pure no_requeue
