-- ===== src/Tests/Lawful/Settling.antt =====
-- The cluster in memory does a call or does not, and the theorems on how operations end, applied.
use mock_storage_operator.Prelude.{
  some_inj, ℕ, ◌≡◌, refl, sym, ap, ◌⊎◌, inl, inr, true, Option, none, some, [], ◌∷◌,
}
use mock_storage_operator.Prelude.Text.{has_suffix}
use mock_storage_operator.Objects.{Key, key_of, Pvc, Pv}
use mock_storage_operator.Client.Laws.{put, put_name, after_update, deleted_pvc}
use mock_storage_operator.Client.Settling.{IsSettling}
use mock_storage_operator.Volsync.Temporary.{create_temporary_pvc_from_terminating}
use mock_storage_operator.Volsync.Temporary.Safety.{
  IsHeld, create_temporary_pvc_from_terminating-IsHeld,
}
use mock_storage_operator.Volsync.Restore.{
  main_key_for, temporary_key_for, restore_pvc_from_temporary,
}
use mock_storage_operator.Volsync.Restore.Safety.{restore_pvc_from_temporary-IsHeld}
use mock_storage_operator.Tests.Memory.{
  Memory, memory, put_pvc, create_pvc_at, update_pvc_at, delete_pvc_at, update_pv_at,
}
use mock_storage_operator.Tests.Lawful.{memory_laws}
use mock_storage_operator.Tests.Claims.{one_claim, data_key, data_claim}

create_settles :
    (p : Pvc) (w : Memory) (o : Option Pvc)
    → ((create_pvc_at p w o).1.cluster ≡ w.cluster)
      ⊎ ((create_pvc_at p w o).1.cluster
          ≡ record (w.cluster) { pvc = put (key_of p.meta) (some p) w.cluster.pvc })
create_settles p w (some q) = inl refl
create_settles p w none = inr refl

update_settles :
    (p : Pvc) (w : Memory) (o : Option Pvc)
    → ((update_pvc_at p w o).1.cluster ≡ w.cluster)
      ⊎ ((update_pvc_at p w o).1.cluster
          ≡ record (w.cluster) { pvc = put (key_of p.meta) (after_update p) w.cluster.pvc })
update_settles p w none = inl refl
update_settles p w (some q) = inr refl

delete_settles :
    (k : Key) (w : Memory) (o : Option Pvc)
    → ((delete_pvc_at k w o).1.cluster ≡ w.cluster)
      ⊎ ((t : ℕ) × ((delete_pvc_at k w o).1.cluster
            ≡ record (w.cluster) { pvc = put k (deleted_pvc t (w.cluster.pvc k)) w.cluster.pvc }))
delete_settles k w none = inl refl
delete_settles k w (some q) = inr (1, refl)

update_pv_settles :
    (v : Pv) (w : Memory) (o : Option Pv)
    → ((update_pv_at v w o).1.cluster ≡ w.cluster)
      ⊎ ((update_pv_at v w o).1.cluster
          ≡ record (w.cluster) { pv = put_name v.name (some v) w.cluster.pv })
update_pv_settles v w none = inl refl
update_pv_settles v w (some q) = inr refl

pub memory-IsSettling : IsSettling memory memory_laws
unfolding memory_laws
memory-IsSettling = record {
  get_pvc = λ k w. refl;
  get_pv = λ n w. refl;
  create_pvc = λ p w. create_settles p w _;
  update_pvc = λ p w. update_settles p w _;
  delete_pvc = λ k w. delete_settles k w _;
  update_pv = λ v w. update_pv_settles v w _;
}

create_temporary_pvc_from_terminating-IsHeld_example :
    IsHeld memory memory_laws memory-IsSettling data_key
      (create_temporary_pvc_from_terminating memory data_key true one_claim).1
unfolding memory_laws
create_temporary_pvc_from_terminating-IsHeld_example =
    create_temporary_pvc_from_terminating-IsHeld memory memory_laws memory-IsSettling data_key true
      one_claim tt

-- the claim is still being deleted: the restore lets it go and returns an error
abbrev data_tmp : Key
data_tmp = record data_key { name = "data-tmp" }

abbrev tmp_claim : Pvc
tmp_claim = record data_claim { meta = record (data_claim.meta) { name = "data-tmp" } }

abbrev leaving : Pvc
leaving = record data_claim {
  meta = record (data_claim.meta) { deletion_timestamp = some 5; finalizers = "f" ∷ [] };
}

abbrev both_claims : Memory
both_claims =
    put_pvc
      (put_pvc one_claim data_key (some leaving)
        (λ a e. ap (λ (x : Pvc). key_of x.meta) (sym (some_inj e))))
      data_tmp (some tmp_claim) (λ a e. ap (λ (x : Pvc). key_of x.meta) (sym (some_inj e)))

restore_pvc_from_temporary-IsHeld_example :
    IsHeld memory memory_laws memory-IsSettling
      (main_key_for data_tmp)
      (restore_pvc_from_temporary memory data_tmp both_claims).1
unfolding memory_laws temporary_key_for has_suffix
restore_pvc_from_temporary-IsHeld_example =
    restore_pvc_from_temporary-IsHeld memory memory_laws memory-IsSettling data_tmp tmp_claim
      both_claims refl refl
