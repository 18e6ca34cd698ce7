-- ===== src/Tests/Lawful/Listing.antt =====
-- The cluster in memory lists all that matches, and the theorem on the clean-up, applied.
use mathlib.Core.Bool.{or-true}
use mock_storage_operator.Prelude.{
  some_inj, ◌≡◌, refl, sym, ap, ◌∙◌, Bool, true, false, Option, none, some, List, [], ◌∷◌,
  Bool-cases, inl, inr, arith,
}
use mock_storage_operator.Prelude.Dict
use mock_storage_operator.Exec.{◌>>=◌, for_each}
use mock_storage_operator.Objects.{
  Key, key_of, ObjectMeta, Pvc, Rs, Rd, Vgr, ListOptions, primary, primary_state,
}
use mock_storage_operator.Client.Laws.{key_eq, key_eq_sound}
use mock_storage_operator.Client.Listing.{IsListing, Complete, matches, lists}
use mock_storage_operator.Volsync.Claims.Effects.{key_eq_refl}
use mock_storage_operator.Volsync.Claims.{remove_finalizer_from, remove_finalizer_from_pvc}
use mock_storage_operator.Volsync.Cleanup.{
  gone_or_fail, delete_listed_rs, delete_rs_by_label, delete_listed_rd, delete_rd_by_label,
  unprotect_listed_pvc, remove_finalizers_from_pvcs_by_label,
}
use mock_storage_operator.Volsync.Destination.{fresh_meta}
use mock_storage_operator.Controller.Delete.{clean_up, handle_pvc_deletion}
use mock_storage_operator.Controller.Delete.Complete.{CleanedUp, clean_up-CleanedUp}
use mock_storage_operator.Tests.Memory.{
  Memory, memory, Names, lists_key, stored_at, collect, put_pvc, put_rs,
}
use mock_storage_operator.Tests.Lawful.{memory_laws}
use mock_storage_operator.Tests.Claims.{one_claim, data_key, data_claim}

-- what was listed goes on to be
lists-stored_at :
    {A : Type 0} (meta : A → ObjectMeta) (k : Key) (o : Option A) (wanted : A → Bool)
    (rest : List A)
    → lists meta k rest ≡ true
    → lists meta k (stored_at o wanted rest) ≡ true
lists-stored_at meta k none wanted rest h = h
lists-stored_at meta k (some a) wanted rest h = elim (Bool-cases (wanted a)) [
  | inl is_wanted ↦ rw is_wanted (rw h (or-true _))
  | inr other ↦ rw other h
]

-- the object itself
lists-here :
    {A : Type 0} (meta : A → ObjectMeta) (k : Key) (o : Option A) (a : A) (wanted : A → Bool)
    (rest : List A)
    → o ≡ some a
    → wanted a ≡ true
    → key_of (meta a) ≡ k
    → lists meta k (stored_at o wanted rest) ≡ true
lists-here meta k o a wanted rest e is_wanted named =
    rw e (rw is_wanted (rw (ap (λ j. key_eq j k) named ∙ key_eq_refl k) refl))

collect-lists :
    {A : Type 0} (meta : A → ObjectMeta) (f : Key → Option A) (wanted : A → Bool) (keys : List Key)
    (k : Key) (a : A)
    → lists_key k keys ≡ true
    → f k ≡ some a
    → wanted a ≡ true
    → key_of (meta a) ≡ k
    → lists meta k (collect f wanted keys) ≡ true
collect-lists meta f wanted [] k a listed e is_wanted named = ground (arith, listed)
collect-lists meta f wanted (j ∷ keys) k a listed e is_wanted named =
    elim (Bool-cases (key_eq j k)) [
      | inl same ↦
          lists-here meta k (f j) a wanted (collect f wanted keys)
            (ap f (key_eq_sound j k same) ∙ e) is_wanted named
      | inr other ↦
          lists-stored_at meta k (f j) wanted (collect f wanted keys)
            (collect-lists meta f wanted keys k a (rw other at listed) e is_wanted named)
    ]

complete :
    {A : Type 0} (meta : A → ObjectMeta) (f : Key → Option A) (names : Names f)
    → ((k : Key) (a : A) → f k ≡ some a → key_of (meta a) ≡ k)
    → (o : ListOptions) → Complete meta f o (collect f (λ a. matches o (meta a)) names.keys)
complete meta f names named o = record {
  listed = λ k a e matching.
      collect-lists meta f (λ x. matches o (meta x)) names.keys k a (names.all k a e) e matching
        (named k a e);
}

pub memory-IsListing : IsListing memory memory_laws
unfolding memory_laws
memory-IsListing = record {
  list_pvcs = λ o w _. record {
    holds = (refl, complete (λ (x : Pvc). x.meta) w.cluster.pvc w.pvc_names w.pvc_key o);
  };
  list_rss = λ o w _. record {
    holds = (refl, complete (λ (x : Rs). x.meta) w.cluster.rs w.rs_names w.rs_key o);
  };
  list_rds = λ o w _. record {
    holds = (refl, complete (λ (x : Rd). x.meta) w.cluster.rd w.rd_names w.rd_key o);
  };
}

-- a group in the primary state with a protected claim and its source
abbrev pub group : Vgr
group = record {
  meta = fresh_meta "app" "group";
  generation = 1;
  class_name = "class";
  replication_state = primary;
  selector = none;
  status = record {
    state = primary_state;
    conditions = [];
    pvc_refs = [];
    last_sync_time = none;
    observed_generation = 1;
  };
}

abbrev protected_claim : Pvc
protected_claim = record data_claim {
  meta = record (data_claim.meta) {
    labels = ("volumegroupreplication-owner", "group") ∷ [];
    finalizers = "mock.storage.io/pvc-protection" ∷ "kubernetes.io/pvc-protection" ∷ [];
  };
}

abbrev source : Rs
source = record {
  meta = record (fresh_meta "app" "data") {
    labels = ("volumegroupreplication-owner", "group") ∷ [];
  };
  spec = record { source_pvc = "data"; paused = false; trigger = none; rsync_tls = none };
  status = none;
}

abbrev pub replicating : Memory
replicating =
    put_rs
      (put_pvc one_claim data_key (some protected_claim)
        (λ a e. ap (λ (x : Pvc). key_of x.meta) (sym (some_inj e))))
      data_key (some source) (λ a e. ap (λ (x : Rs). key_of x.meta) (sym (some_inj e)))

clean_up-CleanedUp_example :
    CleanedUp memory memory_laws memory-IsListing group
      (memory_laws.view replicating)
      (memory_laws.view (clean_up memory group replicating).1)
unfolding clean_up handle_pvc_deletion delete_rs_by_label delete_listed_rs gone_or_fail
    delete_rd_by_label delete_listed_rd remove_finalizers_from_pvcs_by_label unprotect_listed_pvc
    remove_finalizer_from_pvc remove_finalizer_from for_each Dict.lookup ◌>>=◌
clean_up-CleanedUp_example =
    clean_up-CleanedUp memory memory_laws memory-IsListing group replicating
      (clean_up memory group replicating).1 refl refl
