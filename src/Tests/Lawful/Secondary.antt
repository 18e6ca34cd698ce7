-- ===== src/Tests/Lawful/Secondary.antt =====
-- The theorem on the clean-up of a secondary group, applied to a group with a protected claim.
use mock_storage_operator.Prelude.{◌≡◌, refl}
use mock_storage_operator.Prelude.Dict
use mock_storage_operator.Exec.{◌>>=◌, for_each}
use mock_storage_operator.Objects.{Vgr, secondary, secondary_state}
use mock_storage_operator.Volsync.Claims.{remove_finalizer_from, remove_finalizer_from_pvc}
use mock_storage_operator.Volsync.Cleanup.{
  gone_or_fail, delete_listed_rs, delete_rs_by_label, delete_listed_rd, delete_rd_by_label,
  release_retained, release_volume, release_bound_volume, delete_listed_pvc, delete_pvcs_by_label,
}
use mock_storage_operator.Controller.Delete.{
  clean_up, handle_pvc_deletion, remove_vgr_finalizer, finalizer_removed, reconcile,
}
use mock_storage_operator.Controller.Delete.Guard.{Finished, reconcile-Finished}
use mock_storage_operator.Controller.Session.{no_requeue, on_world, modify_vgr}
use mock_storage_operator.Controller.Delete.Secondary.{WipedOut, clean_up-WipedOut}
use mock_storage_operator.Tests.Memory.{memory}
use mock_storage_operator.Tests.Lawful.{memory_laws}
use mock_storage_operator.Tests.Lawful.Settling.{memory-IsSettling}
use mock_storage_operator.Tests.Lawful.Listing.{memory-IsListing, group, replicating}

abbrev demoted : Vgr
demoted = record group {
  replication_state = secondary;
  status = record (group.status) { state = secondary_state };
}

clean_up-WipedOut_example :
    WipedOut demoted
      (memory_laws.view replicating)
      (memory_laws.view (clean_up memory demoted replicating).1)
unfolding clean_up handle_pvc_deletion delete_rs_by_label delete_listed_rs gone_or_fail
    delete_rd_by_label delete_listed_rd delete_pvcs_by_label delete_listed_pvc release_bound_volume
    release_volume release_retained remove_finalizer_from_pvc remove_finalizer_from for_each
    Dict.lookup ◌>>=◌
clean_up-WipedOut_example =
    clean_up-WipedOut memory memory_laws memory-IsSettling memory-IsListing demoted replicating
      (clean_up memory demoted replicating).1 refl refl

reconcile-Finished_example :
    (no_requeue ≡ no_requeue)
    × Finished memory memory_laws memory-IsSettling memory-IsListing demoted replicating
        (reconcile memory (record { world = replicating; vgr = demoted })).1.world
unfolding reconcile remove_vgr_finalizer finalizer_removed on_world modify_vgr clean_up
    handle_pvc_deletion delete_rs_by_label delete_listed_rs gone_or_fail delete_rd_by_label
    delete_listed_rd delete_pvcs_by_label delete_listed_pvc release_bound_volume release_volume
    release_retained remove_finalizer_from_pvc remove_finalizer_from for_each Dict.lookup ◌>>=◌
reconcile-Finished_example =
    reconcile-Finished memory memory_laws memory-IsSettling memory-IsListing
      (record { world = replicating; vgr = demoted })
      (reconcile memory (record { world = replicating; vgr = demoted })).1 no_requeue refl
