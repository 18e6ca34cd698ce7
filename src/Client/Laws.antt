-- ===== src/Client/Laws.antt =====
-- What the operator relies on when the API server answers it, on a cluster that no one else writes
-- to during the call: reads return what is stored, writes that succeed are seen by later reads, and
-- an object with finalizers stays, marked, when it is deleted. A call may still fail at any time;
-- what a failed write has done is left open unless the operator looks at the error.
use mock_storage_operator.Prelude.{
  ℕ, ◌≡◌, ◌⊎◌, Bool, true, false, ◌&&◌, String, ◌==◌, eq_iff, ap, ◌∙◌, arith, Option, none, some,
  List, [], ◌∷◌, if◌then◌else◌,
}
use mock_storage_operator.Exec.{
  Outcome, ok, Reply, value, error, attempt, is_not_found, is_already_exists,
}
use mock_storage_operator.Exec.Ensures.{Ensures}
use mock_storage_operator.Objects.{Key, key_of, ObjectMeta, Pvc, Pv, Rs, Rd, ServiceExport}
use mock_storage_operator.Client.{Client}

-- the part of the cluster that the laws speak of
pub record Cluster : Type 0 where
  pub pvc : Key → Option Pvc
  pub pv : String → Option Pv
  pub rs : Key → Option Rs
  pub rd : Key → Option Rd

abbrev pub key_eq : Key → Key → Bool
key_eq a b = a.namespace == b.namespace && a.name == b.name

same_names :
    (a b c d : String)
    → key_eq (record { namespace = a; name = b }) (record { namespace = c; name = d }) ≡ true
    → (a ≡ c) × (b ≡ d)
same_names a b c d e =
    (ground (arith, eq_iff a c, eq_iff b d, e), ground (arith, eq_iff a c, eq_iff b d, e))

pub key_eq_sound : (a b : Key) → key_eq a b ≡ true → a ≡ b
key_eq_sound a b e =
    let same = same_names a.namespace a.name b.namespace b.name e in
    ap (λ n. record a { namespace = n }) same.0 ∙ ap (λ n. record b { name = n }) same.1

abbrev pub put : {A : Type 0} → Key → A → (Key → A) → Key → A
put k a f j = if key_eq k j then a else f j

abbrev pub put_name : {A : Type 0} → String → A → (String → A) → String → A
put_name k a f j = if k == j then a else f j

abbrev no_finalizer : List String → Bool
no_finalizer [] = true
no_finalizer (f ∷ fs) = false

abbrev pub unless_released : {A : Type 0} → Option ℕ → List String → A → Option A
unless_released none finalizers a = some a
unless_released (some t) [] a = none
unless_released (some t) (f ∷ fs) a = some a

-- an update that takes the last finalizer of an object that is being deleted removes it
abbrev pub after_update : Pvc → Option Pvc
after_update p = unless_released p.deletion_timestamp p.finalizers p

abbrev pub marked : ℕ → ObjectMeta → ObjectMeta
marked t m = record m { deletion_timestamp = some t }

-- a deletion removes an object with no finalizers and marks another
abbrev pub deleted_pvc : ℕ → Option Pvc → Option Pvc
deleted_pvc t none = none
deleted_pvc t (some p) =
    if no_finalizer p.finalizers then none else some (record p { meta = marked t p.meta })

abbrev pub deleted_rs : ℕ → Option Rs → Option Rs
deleted_rs t none = none
deleted_rs t (some r) =
    if no_finalizer r.finalizers then none else some (record r { meta = marked t r.meta })

abbrev pub deleted_rd : ℕ → Option Rd → Option Rd
deleted_rd t none = none
deleted_rd t (some r) =
    if no_finalizer r.finalizers then none else some (record r { meta = marked t r.meta })

-- the reply to a read of an object, beside what was stored
abbrev pub Read : {A : Type 0} → Option A → Cluster → Reply A → Cluster → Type 0
Read stored before (value a) after = (after ≡ before) × (stored ≡ some a)
Read stored before (error e) after = is_not_found e ≡ true → (after ≡ before) × (stored ≡ none)

-- the reply to a write whose errors the operator passes on
abbrev pub Written : {A : Type 0} → Cluster → Reply A → Cluster → Type 0
Written expected (value a) after = after ≡ expected
Written expected (error e) after = Unit {0}

-- the reply to a creation of what was (not) stored before
abbrev pub Created : {A : Type 0} → Option A → Cluster → Cluster → Reply A → Cluster → Type 0
Created stored before expected (value a) after = (after ≡ expected) × (stored ≡ none)
Created {A} stored before expected (error e) after =
    is_already_exists e ≡ true → (after ≡ before) × ((a : A) × (stored ≡ some a))

-- the reply to a deletion, at an unknown time
abbrev pub Deleted :
    {A : Type 0} → Option A → Cluster → (ℕ → Cluster) → Reply (Unit {0}) → Cluster → Type 0
Deleted stored before expected (value _) after = (t : ℕ) × (after ≡ expected t)
Deleted stored before expected (error e) after =
    is_not_found e ≡ true → (after ≡ before) × (stored ≡ none)

-- `CreateOrUpdate`: the mutate function was run on the stored object, or on the given one where
-- none was stored, and what it made is stored
pub record Upserted {A Spec : Type 0} (meta : A → ObjectMeta) (spec : A → Spec) (stored : Option A)
    (given : A) (mutate : A → Outcome A) (result : A) : Type 0 where
  pub base : A
  pub made : A
  pub from_stored : (stored ≡ some base) ⊎ ((stored ≡ none) × (base ≡ given))
  pub mutated : mutate base ≡ ok made
  pub same_meta : meta result ≡ meta made
  pub same_spec : spec result ≡ spec made

abbrev pub UpsertedRs : Cluster → Rs → (Rs → Outcome Rs) → Reply Rs → Cluster → Type 0
UpsertedRs before rs f (value r) after =
    Upserted (λ (x : Rs). x.meta) (λ (x : Rs). x.spec) (before.rs (key_of rs.meta)) rs f r
    × (after ≡ record before { rs = put (key_of rs.meta) (some r) before.rs })
UpsertedRs before rs f (error e) after = Unit {0}

abbrev pub UpsertedRd : Cluster → Rd → (Rd → Outcome Rd) → Reply Rd → Cluster → Type 0
UpsertedRd before rd f (value r) after =
    Upserted (λ (x : Rd). x.meta) (λ (x : Rd). x.rsync_tls) (before.rd (key_of rd.meta)) rd f r
    × (after ≡ record before { rd = put (key_of rd.meta) (some r) before.rd })
UpsertedRd before rd f (error e) after = Unit {0}

-- the claim that the server stores for a new one: admission may add finalizers
pub record Admits (p q : Pvc) : Type 0 where
  pub same_name : q.name ≡ p.name
  pub same_namespace : q.namespace ≡ p.namespace
  pub same_labels : q.labels ≡ p.labels
  pub same_annotations : q.annotations ≡ p.annotations
  pub same_mark : q.deletion_timestamp ≡ p.deletion_timestamp
  pub same_spec : q.spec ≡ p.spec

pub record IsLawful (C : Client) : Type 0 where
  pub view : C.World → Cluster
  pub admitted : Pvc → Pvc
  pub admitted_lem : (p : Pvc) → Admits p (admitted p)
  pub get_pvc :
      (k : Key) (w : C.World)
      → Ensures (attempt (C.get_pvc k)) w (λ r w'. Read ((view w).pvc k) (view w) r (view w'))
  pub get_pv :
      (n : String) (w : C.World)
      → Ensures (attempt (C.get_pv n)) w (λ r w'. Read ((view w).pv n) (view w) r (view w'))
  pub get_rs :
      (k : Key) (w : C.World)
      → Ensures (attempt (C.get_rs k)) w (λ r w'. Read ((view w).rs k) (view w) r (view w'))
  pub get_rd :
      (k : Key) (w : C.World)
      → Ensures (attempt (C.get_rd k)) w (λ r w'. Read ((view w).rd k) (view w) r (view w'))
  pub get_secret :
      (k : Key) (w : C.World)
      → Ensures (attempt (C.get_secret k)) w (λ r w'. Written (view w) r (view w'))
  -- an object is stored under its own name
  pub pvc_key : (w : C.World) (k : Key) (p : Pvc) → (view w).pvc k ≡ some p → key_of p.meta ≡ k
  pub pv_name : (w : C.World) (n : String) (v : Pv) → (view w).pv n ≡ some v → v.name ≡ n
  pub rs_key : (w : C.World) (k : Key) (r : Rs) → (view w).rs k ≡ some r → key_of r.meta ≡ k
  pub rd_key : (w : C.World) (k : Key) (r : Rd) → (view w).rd k ≡ some r → key_of r.meta ≡ k
  pub create_pvc :
      (p : Pvc) (w : C.World)
      → Ensures (attempt (C.create_pvc p)) w (λ r w'.
        Created
          ((view w).pvc (key_of p.meta))
          (view w)
          (record (view w) { pvc = put (key_of p.meta) (some (admitted p)) (view w).pvc })
          r
          (view w'))
  pub update_pvc :
      (p : Pvc) (w : C.World)
      → Ensures (attempt (C.update_pvc p)) w (λ r w'.
        Written
          (record (view w) { pvc = put (key_of p.meta) (after_update p) (view w).pvc })
          r
          (view w'))
  pub delete_pvc :
      (k : Key) (w : C.World)
      → Ensures (attempt (C.delete_pvc k)) w (λ r w'.
        Deleted
          ((view w).pvc k)
          (view w)
          (λ t. record (view w) { pvc = put k (deleted_pvc t ((view w).pvc k)) (view w).pvc })
          r
          (view w'))
  pub update_pv :
      (v : Pv) (w : C.World)
      → Ensures (attempt (C.update_pv v)) w (λ r w'.
        Written (record (view w) { pv = put_name v.name (some v) (view w).pv }) r (view w'))
  pub delete_rs :
      (k : Key) (w : C.World)
      → Ensures (attempt (C.delete_rs k)) w (λ r w'.
        Deleted
          ((view w).rs k)
          (view w)
          (λ t. record (view w) { rs = put k (deleted_rs t ((view w).rs k)) (view w).rs })
          r
          (view w'))
  pub delete_rd :
      (k : Key) (w : C.World)
      → Ensures (attempt (C.delete_rd k)) w (λ r w'.
        Deleted
          ((view w).rd k)
          (view w)
          (λ t. record (view w) { rd = put k (deleted_rd t ((view w).rd k)) (view w).rd })
          r
          (view w'))
  pub create_or_update_rs :
      (rs : Rs) (f : Rs → Outcome Rs) (w : C.World)
      → Ensures
          (attempt (C.create_or_update_rs rs f))
          w
          (λ r w'. UpsertedRs (view w) rs f r (view w'))
  pub create_or_update_rd :
      (rd : Rd) (f : Rd → Outcome Rd) (w : C.World)
      → Ensures
          (attempt (C.create_or_update_rd rd f))
          w
          (λ r w'. UpsertedRd (view w) rd f r (view w'))
  pub create_or_update_export :
      (x : ServiceExport) (f : ServiceExport → Outcome ServiceExport) (w : C.World)
      → Ensures (attempt (C.create_or_update_export x f)) w (λ r w'. Written (view w) r (view w'))
  pub contains-add :
      (fs : List String) (f : String) → C.contains_finalizer (C.add_finalizer fs f) f ≡ true
  pub contains-remove :
      (fs : List String) (f : String) → C.contains_finalizer (C.remove_finalizer fs f) f ≡ false
