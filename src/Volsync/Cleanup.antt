-- ===== src/Volsync/Cleanup.antt =====
-- internal/volsync/handler.go: the operations on every object of an owner, or on the source or
-- destination of one claim, when they go away.
pub mod Effects
pub mod Listed
pub mod Deleted
pub mod Unprotected
use mock_storage_operator.Prelude.{List, String, ◌<>◌, ◌==◌, if◌then◌else◌}
use mock_storage_operator.Exec.{
  Exec, Reply, value, error, wrap, is_not_found, pure, fail, attempt, wrapping, enclosing, discard,
  for_each, ◌>>=◌, ◌>>◌,
}
use mock_storage_operator.Objects.{
  Key, key_of, Pvc, Pv, Rs, Rd, reclaim_retain, ReclaimPolicy, reclaim_delete, reclaim_recycle,
}
use mock_storage_operator.Client.{Client}
use mock_storage_operator.Volsync.{
  VsHandler, owned_in_namespace, owned_anywhere, get_replication_source_name,
  get_replication_destination_name,
}
use mock_storage_operator.Volsync.Claims.{remove_finalizer_from_pvc}

abbrev pub source_key : Key → Key
source_key k = record k { name = get_replication_source_name k.name }

abbrev pub destination_key : Key → Key
destination_key k = record k { name = get_replication_destination_name k.name }

module _ (C : Client) where
  unfoldable pub delete_found_rs : Key → Reply Rs → Exec C.World (Unit {0})
  delete_found_rs k (value rs) = C.delete_rs (key_of rs.meta)
  delete_found_rs k (error e) =
      if is_not_found e then pure tt else fail (wrap "failed to get ReplicationSource: " e)

  -- DeleteRS
  unfoldable pub delete_rs : Key → Exec C.World (Unit {0})
  delete_rs k = do got ← attempt (C.get_rs (source_key k)); delete_found_rs k got

  unfoldable pub delete_found_rd : Key → Reply Rd → Exec C.World (Unit {0})
  delete_found_rd k (value rd) = C.delete_rd (key_of rd.meta)
  delete_found_rd k (error e) =
      if is_not_found e then pure tt else fail (wrap "failed to get ReplicationDestination: " e)

  -- DeleteRD
  unfoldable pub delete_rd : Key → Exec C.World (Unit {0})
  delete_rd k = do got ← attempt (C.get_rd (destination_key k)); delete_found_rd k got

  -- `err != nil && !kerrors.IsNotFound(err)` after a deletion
  unfoldable pub gone_or_fail : String → Reply (Unit {0}) → Exec C.World (Unit {0})
  gone_or_fail text (value _) = pure tt
  gone_or_fail text (error e) = if is_not_found e then pure tt else fail (wrap text e)

  abbrev slash_name : Key → String
  slash_name k = k.namespace <> ("/" <> (k.name <> ": "))

  unfoldable pub delete_listed_rs : Rs → Exec C.World (Unit {0})
  unfolding gone_or_fail
  delete_listed_rs rs = do
    deleted ← attempt (C.delete_rs (key_of rs.meta))
    gone_or_fail ("failed to delete ReplicationSource " <> slash_name (key_of rs.meta)) deleted

  -- listRSByOwner, with listByOwner
  abbrev pub list_rs_by_owner : VsHandler → Exec C.World (List Rs)
  list_rs_by_owner v = enclosing "error listing by label (" (C.list_rss (owned_in_namespace v)) ")"

  -- listRDByOwner, with listByOwner
  abbrev pub list_rd_by_owner : VsHandler → Exec C.World (List Rd)
  list_rd_by_owner v = enclosing "error listing by label (" (C.list_rds (owned_in_namespace v)) ")"

  -- DeleteRSByLabel
  unfoldable pub delete_rs_by_label : VsHandler → Exec C.World (Unit {0})
  unfolding delete_listed_rs
  delete_rs_by_label v = do items ← list_rs_by_owner v; for_each items delete_listed_rs

  unfoldable pub delete_listed_rd : Rd → Exec C.World (Unit {0})
  unfolding gone_or_fail
  delete_listed_rd rd = do
    deleted ← attempt (C.delete_rd (key_of rd.meta))
    gone_or_fail ("failed to delete ReplicationDestination " <> slash_name (key_of rd.meta)) deleted

  -- DeleteRDByLabel
  unfoldable pub delete_rd_by_label : VsHandler → Exec C.World (Unit {0})
  unfolding delete_listed_rd
  delete_rd_by_label v = do items ← list_rd_by_owner v; for_each items delete_listed_rd

  -- a volume that would be retained is to go with its claim
  unfoldable pub release_retained : Pvc → Pv → ReclaimPolicy → Exec C.World (Unit {0})
  release_retained pvc pv reclaim_retain = discard (
      wrapping
        ("failed to update PV "
          <> (pv.name <> (" reclaim policy for PVC " <> slash_name (key_of pvc.meta))))
        (C.update_pv (record pv { reclaim_policy = reclaim_delete })))
  release_retained pvc pv reclaim_delete = pure tt
  release_retained pvc pv reclaim_recycle = pure tt

  unfoldable pub release_volume : Pvc → Reply Pv → Exec C.World (Unit {0})
  release_volume pvc (error e) =
      if is_not_found e
      then pure tt
      else fail (
          wrap
            ("failed to get PV "
              <> (pvc.spec.volume_name <> (" for PVC " <> slash_name (key_of pvc.meta))))
            e)
  release_volume pvc (value pv) = release_retained pvc pv pv.reclaim_policy

  unfoldable pub release_bound_volume : Pvc → Exec C.World (Unit {0})
  release_bound_volume pvc =
      if pvc.spec.volume_name == ""
      then pure tt
      else do got ← attempt (C.get_pv pvc.spec.volume_name); release_volume pvc got

  -- the body of the loop of DeletePVCsByLabel: an error of the finalizer's removal is only logged
  unfoldable pub delete_listed_pvc : Pvc → Exec C.World (Unit {0})
  delete_listed_pvc pvc = do
    release_bound_volume pvc
    attempt (remove_finalizer_from_pvc C (key_of pvc.meta))
    deleted ← attempt (C.delete_pvc (key_of pvc.meta))
    gone_or_fail ("failed to delete PVC " <> slash_name (key_of pvc.meta)) deleted

  -- DeletePVCsByLabel
  unfoldable pub delete_pvcs_by_label : VsHandler → Exec C.World (Unit {0})
  delete_pvcs_by_label v = do
    items ← wrapping "failed to list PVCs by label: " (C.list_pvcs (owned_anywhere v))
    for_each items delete_listed_pvc

  unfoldable pub unprotect_listed_pvc : Pvc → Exec C.World (Unit {0})
  unprotect_listed_pvc pvc =
      wrapping ("failed to remove finalizer from PVC " <> slash_name (key_of pvc.meta))
        (remove_finalizer_from_pvc C (key_of pvc.meta))

  -- RemoveFinalizersFromPVCsByLabel
  unfoldable pub remove_finalizers_from_pvcs_by_label : VsHandler → Exec C.World (Unit {0})
  remove_finalizers_from_pvcs_by_label v = do
    items ← wrapping "failed to list PVCs by label: " (C.list_pvcs (owned_anywhere v))
    for_each items unprotect_listed_pvc
