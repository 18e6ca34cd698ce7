-- ===== src/Volsync/Footprint/Claims.antt =====
-- The calls that the operations of Volsync/Claims make.
use mock_storage_operator.Exec.{Reply, value, error}
use mock_storage_operator.Exec.Preserves.{Preserves, preserves_rules}
use mock_storage_operator.Objects.{Key, Pvc}
use mock_storage_operator.Client.{Client}
use mock_storage_operator.Client.Footprint.{Reads}
use mock_storage_operator.Volsync.{VsHandler}
use mock_storage_operator.Volsync.Claims.{
  add_finalizer_to, add_finalizer_to_pvc, remove_finalizer_from, remove_finalizer_from_pvc,
  terminating_of, is_pvc_terminating, get_pv_from_pvc, ensure_labels_of, ensure_pvc_labels,
  validate_secret_and_add_owner_ref, secret_found,
}

module _ (C : Client) {P : C.World → Type 0} (reads : Reads C P) where
  terminating_of-Preserves : (r : Reply Pvc) → Preserves P (terminating_of C r)
  unfolding terminating_of
  terminating_of-Preserves (error e) = search preserves_rules
  terminating_of-Preserves (value pvc) = search preserves_rules

  pub is_pvc_terminating-Preserves : (k : Key) → Preserves P (is_pvc_terminating C k)
  unfolding is_pvc_terminating
  is_pvc_terminating-Preserves k = search (preserves_rules, reads.get_pvc, terminating_of-Preserves)

  pub get_pv_from_pvc-Preserves : (k : Key) → Preserves P (get_pv_from_pvc C k)
  unfolding get_pv_from_pvc
  get_pv_from_pvc-Preserves k = search (preserves_rules, reads.get_pvc, reads.get_pv)

  secret_found-Preserves : (k : Key) (r : Reply (Unit {0})) → Preserves P (secret_found C k r)
  unfolding secret_found
  secret_found-Preserves k (error e) = search preserves_rules
  secret_found-Preserves k (value _) = search preserves_rules

  pub validate_secret-Preserves : (k : Key) → Preserves P (validate_secret_and_add_owner_ref C k)
  unfolding validate_secret_and_add_owner_ref
  validate_secret-Preserves k = search (preserves_rules, reads.get_secret, secret_found-Preserves)

module _ (C : Client) {P : C.World → Type 0} (reads : Reads C P)
    (update_pvc : (p : Pvc) → Preserves P (C.update_pvc p)) where
  add_finalizer_to-Preserves : (r : Reply Pvc) → Preserves P (add_finalizer_to C r)
  unfolding add_finalizer_to
  add_finalizer_to-Preserves (error e) = search preserves_rules
  add_finalizer_to-Preserves (value pvc) = search preserves_rules

  pub add_finalizer_to_pvc-Preserves : (k : Key) → Preserves P (add_finalizer_to_pvc C k)
  unfolding add_finalizer_to_pvc
  add_finalizer_to_pvc-Preserves k =
      search (preserves_rules, reads.get_pvc, add_finalizer_to-Preserves)

  remove_finalizer_from-Preserves : (r : Reply Pvc) → Preserves P (remove_finalizer_from C r)
  unfolding remove_finalizer_from
  remove_finalizer_from-Preserves (error e) = search preserves_rules
  remove_finalizer_from-Preserves (value pvc) = search preserves_rules

  pub remove_finalizer_from_pvc-Preserves : (k : Key) → Preserves P (remove_finalizer_from_pvc C k)
  unfolding remove_finalizer_from_pvc
  remove_finalizer_from_pvc-Preserves k =
      search (preserves_rules, reads.get_pvc, remove_finalizer_from-Preserves)

  ensure_labels_of-Preserves :
      (owner : Key) (r : Reply Pvc) → Preserves P (ensure_labels_of C owner r)
  unfolding ensure_labels_of
  ensure_labels_of-Preserves owner (error e) = search preserves_rules
  ensure_labels_of-Preserves owner (value pvc) = search preserves_rules

  pub ensure_pvc_labels-Preserves :
      (v : VsHandler) (k : Key) → Preserves P (ensure_pvc_labels C v k)
  unfolding ensure_pvc_labels
  ensure_pvc_labels-Preserves v k =
      search (preserves_rules, reads.get_pvc, ensure_labels_of-Preserves)
