-- ===== src/Volsync/Footprint/Volumes.antt =====
-- The calls that CreateTemporaryPVCFromTerminating, HasTemporaryPVC and RestorePVCFromTemporary
-- make.
use mock_storage_operator.Prelude.{Bool, String, List, [], ◌∷◌, Option, none, some, ℕ}
use mock_storage_operator.Exec.{Reply, value, error}
use mock_storage_operator.Exec.Preserves.{Preserves, preserves_rules}
use mock_storage_operator.Objects.{Key, Pvc, Pv}
use mock_storage_operator.Client.{Client}
use mock_storage_operator.Client.Footprint.{Reads, VolumeWrites}
use mock_storage_operator.Volsync.Temporary.{
  create_if_missing, point_volume_at, create_temporary_pvc_from_terminating, found,
  has_temporary_pvc,
}
use mock_storage_operator.Volsync.Restore.{
  release_finalizers, release_terminating, created_or_exists, deleted_or_missing, recreate,
  restore_existing, restore_over, restore_from, restore_pvc_from_temporary,
}
use mock_storage_operator.Volsync.Footprint.Claims.{
  get_pv_from_pvc-Preserves, remove_finalizer_from_pvc-Preserves,
}

module _ (C : Client) {P : C.World → Type 0} (reads : Reads C P) where
  found-Preserves : (r : Reply Pvc) → Preserves P (found C r)
  unfolding found
  found-Preserves (error e) = search preserves_rules
  found-Preserves (value pvc) = search preserves_rules

  pub has_temporary_pvc-Preserves : (k : Key) → Preserves P (has_temporary_pvc C k)
  unfolding has_temporary_pvc
  has_temporary_pvc-Preserves k = search (preserves_rules, reads.get_pvc, found-Preserves)

module _ (C : Client) {P : C.World → Type 0} (reads : Reads C P)
    (update_pvc : (p : Pvc) → Preserves P (C.update_pvc p)) (w : VolumeWrites C P) where
  create_if_missing-Preserves :
      (tmp_pvc : Pvc) (r : Reply Pvc) → Preserves P (create_if_missing C tmp_pvc r)
  unfolding create_if_missing
  create_if_missing-Preserves tmp_pvc (error e) = search (preserves_rules, w.create_pvc)
  create_if_missing-Preserves tmp_pvc (value pvc) = search preserves_rules

  point_volume_at-Preserves : (k : Key) (pv : Pv) → Preserves P (point_volume_at C k pv)
  unfolding point_volume_at
  point_volume_at-Preserves k pv = search (preserves_rules, w.update_pv)

  pub create_temporary-Preserves :
      (k : Key) (rm_finalizer : Bool)
      → Preserves P (create_temporary_pvc_from_terminating C k rm_finalizer)
  unfolding create_temporary_pvc_from_terminating
  create_temporary-Preserves k rm_finalizer =
      search
        (
          preserves_rules,
          reads.get_pvc,
          get_pv_from_pvc-Preserves C reads,
          create_if_missing-Preserves,
          point_volume_at-Preserves,
          remove_finalizer_from_pvc-Preserves C reads update_pvc,
        )
        depth 10

  release_finalizers-Preserves :
      (k : Key) (p : Pvc) (fs : List String) → Preserves P (release_finalizers C k p fs)
  unfolding release_finalizers
  release_finalizers-Preserves k p [] = search preserves_rules
  release_finalizers-Preserves k p (f ∷ fs) = search preserves_rules

  release_terminating-Preserves : (k : Key) (t p : Pvc) → Preserves P (release_terminating C k t p)
  unfolding release_terminating
  release_terminating-Preserves k t p = search (preserves_rules, release_finalizers-Preserves)

  created_or_exists-Preserves : (r : Reply Pvc) → Preserves P (created_or_exists C r)
  unfolding created_or_exists
  created_or_exists-Preserves (error e) = search preserves_rules
  created_or_exists-Preserves (value pvc) = search preserves_rules

  deleted_or_missing-Preserves : (r : Reply (Unit {0})) → Preserves P (deleted_or_missing C r)
  unfolding deleted_or_missing
  deleted_or_missing-Preserves (error e) = search preserves_rules
  deleted_or_missing-Preserves (value _) = search preserves_rules

  module _ (delete_pvc : (k : Key) → Preserves P (C.delete_pvc k)) where
    recreate-Preserves : (k : Key) (t : Pvc) (pv : Pv) → Preserves P (recreate C k t pv)
    unfolding recreate
    recreate-Preserves k t pv =
        search
          (
            preserves_rules,
            w.create_pvc,
            w.update_pv,
            created_or_exists-Preserves,
            deleted_or_missing-Preserves,
            remove_finalizer_from_pvc-Preserves C reads update_pvc,
          )
          depth 10

    restore_existing-Preserves :
        (k : Key) (t : Pvc) (pv : Pv) (p : Pvc) (ts : Option ℕ)
        → Preserves P (restore_existing C k t pv p ts)
    unfolding restore_existing
    restore_existing-Preserves k t pv p none = recreate-Preserves k t pv
    restore_existing-Preserves k t pv p (some ts) = release_terminating-Preserves k t p

    restore_over-Preserves :
        (k : Key) (t : Pvc) (pv : Pv) (r : Reply Pvc) → Preserves P (restore_over C k t pv r)
    unfolding restore_over
    restore_over-Preserves k t pv (error e) = search (preserves_rules, recreate-Preserves)
    restore_over-Preserves k t pv (value p) = restore_existing-Preserves k t pv p _

    restore_from-Preserves : (k : Key) (r : Reply Pvc) → Preserves P (restore_from C k r)
    unfolding restore_from
    restore_from-Preserves k (error e) = search preserves_rules
    restore_from-Preserves k (value t) =
        search
          (
            preserves_rules,
            reads.get_pvc,
            get_pv_from_pvc-Preserves C reads,
            restore_over-Preserves,
          )
          depth 8

    pub restore-Preserves : (k : Key) → Preserves P (restore_pvc_from_temporary C k)
    unfolding restore_pvc_from_temporary
    restore-Preserves k = search (preserves_rules, reads.get_pvc, restore_from-Preserves)
