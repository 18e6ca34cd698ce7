-- ===== src/Tests/Memory.antt =====
-- A client on a cluster in memory, on which the library's theorems are applied: what it stores is
-- seen by later reads, and the lists, VolumeReplicationGroups and classes that it answers with are
-- given. It also counts the deletions of claims.
use mock_storage_operator.Prelude.{
  some_inj, not_some, ℕ, suc, refl, ◌≡◌, sym, ap, ◌∙◌, Bool, true, false, ◌||◌, String, ◌==◌,
  eq_iff, Option, none, some, List, [], ◌∷◌, ◌++◌, Bool-cases, inl, inr, if◌then◌else◌,
}
use mock_storage_operator.Prelude.Dict.{Dict}
use mock_storage_operator.Exec.{
  Outcome, ok, err, panic, Error, api, not_found, already_exists, errorf,
}
use mock_storage_operator.Objects.{
  Key, key_of, Pvc, Pv, Rs, Rd, Pod, Requirement, Vrg, Vgr, VgrClass, equals,
}
use mock_storage_operator.Client.{Client}
use mock_storage_operator.Client.Listing.{matches}
use mock_storage_operator.Client.Laws.{
  Cluster, key_eq, key_eq_sound, put, put_name, after_update, unless_released, deleted_pvc,
  deleted_rs, deleted_rd,
}

abbrev pub lists_key : Key → List Key → Bool
lists_key k [] = false
lists_key k (j ∷ keys) = key_eq j k || lists_key k keys

-- what the client answers apart from the cluster
pub record Environment : Type 0 where
  pub vgr : Option Vgr
  pub vgr_class : Option VgrClass
  pub vrgs : List Vrg
  pub pods : List Pod

-- the keys of all objects of a kind that were ever stored
pub record Names {A : Type 0} (stored : Key → Option A) : Type 0 where
  pub keys : List Key
  pub all : (k : Key) (a : A) → stored k ≡ some a → lists_key k keys ≡ true

-- every object is stored under its own name, and can be listed
pub record Memory : Type 0 where
  pub cluster : Cluster
  pub pvc_key : (k : Key) (p : Pvc) → cluster.pvc k ≡ some p → key_of p.meta ≡ k
  pub pv_name : (n : String) (v : Pv) → cluster.pv n ≡ some v → v.name ≡ n
  pub rs_key : (k : Key) (r : Rs) → cluster.rs k ≡ some r → key_of r.meta ≡ k
  pub rd_key : (k : Key) (r : Rd) → cluster.rd k ≡ some r → key_of r.meta ≡ k
  pub pvc_names : Names cluster.pvc
  pub rs_names : Names cluster.rs
  pub rd_names : Names cluster.rd
  pub environment : Environment
  pub deletions : ℕ

-- a write under the object's own name
pub put-key :
    {A : Type 0} (name_of : A → Key) (k : Key) (o : Option A) (f : Key → Option A)
    → ((a : A) → o ≡ some a → name_of a ≡ k)
    → ((j : Key) (a : A) → f j ≡ some a → name_of a ≡ j)
    → (j : Key) (a : A) → put k o f j ≡ some a
    → name_of a ≡ j
put-key name_of k o f own others j a e = elim (Bool-cases (key_eq k j)) [
  | inl same ↦ own a (rw same at e) ∙ key_eq_sound k j same
  | inr differ ↦ others j a (rw differ at e)
]

pub put_name-key :
    (k : String) (v : Pv) (f : String → Option Pv)
    → v.name ≡ k
    → ((n : String) (u : Pv) → f n ≡ some u → u.name ≡ n)
    → (n : String) (u : Pv) → put_name k (some v) f n ≡ some u
    → u.name ≡ n
put_name-key k v f own others n u e = elim (Bool-cases (k == n)) [
  | inl same ↦ ap (λ (x : Pv). x.name) (sym (some_inj (rw same at e))) ∙ own ∙ (eq_iff k n).0 same
  | inr differ ↦ others n u (rw differ at e)
]

pub unless_key :
    (mark : Option ℕ) (fs : List String) (p q : Pvc)
    → unless_released mark fs p ≡ some q
    → key_of q.meta ≡ key_of p.meta
unless_key none fs p q e = ap (λ (x : Pvc). key_of x.meta) (sym (some_inj e))
unless_key (some t) [] p q e = absurd (not_some e)
unless_key (some t) (f ∷ fs) p q e = ap (λ (x : Pvc). key_of x.meta) (sym (some_inj e))

-- a deleted object that is left has its name
pub kept_key :
    {A : Type 0} (name_of : A → Key) (b : Bool) (marked a : A)
    → (if b then none else some marked) ≡ some a
    → name_of a ≡ name_of marked
kept_key name_of true m a e = absurd (not_some e)
kept_key name_of false m a e = ap name_of (sym (some_inj e))

pub deleted_pvc_key :
    (t : ℕ) (k : Key) (o : Option Pvc)
    → ((a : Pvc) → o ≡ some a → key_of a.meta ≡ k)
    → (a : Pvc) → deleted_pvc t o ≡ some a
    → key_of a.meta ≡ k
deleted_pvc_key t k none own a e = absurd (not_some e)
deleted_pvc_key t k (some p) own a e = kept_key (λ (x : Pvc). key_of x.meta) _ _ a e ∙ own p refl

pub deleted_rs_key :
    (t : ℕ) (k : Key) (o : Option Rs)
    → ((a : Rs) → o ≡ some a → key_of a.meta ≡ k)
    → (a : Rs) → deleted_rs t o ≡ some a
    → key_of a.meta ≡ k
deleted_rs_key t k none own a e = absurd (not_some e)
deleted_rs_key t k (some p) own a e = kept_key (λ (x : Rs). key_of x.meta) _ _ a e ∙ own p refl

pub deleted_rd_key :
    (t : ℕ) (k : Key) (o : Option Rd)
    → ((a : Rd) → o ≡ some a → key_of a.meta ≡ k)
    → (a : Rd) → deleted_rd t o ≡ some a
    → key_of a.meta ≡ k
deleted_rd_key t k none own a e = absurd (not_some e)
deleted_rd_key t k (some p) own a e = kept_key (λ (x : Rd). key_of x.meta) _ _ a e ∙ own p refl

pub name_put-all :
    {A : Type 0} (k : Key) (o : Option A) (f : Key → Option A) (names : Names f) (j : Key) (a : A)
    → put k o f j ≡ some a
    → lists_key j (k ∷ names.keys) ≡ true
name_put-all k o f names j a e = elim (Bool-cases (key_eq k j)) [
  | inl same ↦ rw same refl
  | inr other ↦ rw other (names.all j a (rw other at e))
]

abbrev pub name_put :
    {A : Type 0} (k : Key) (o : Option A) (f : Key → Option A) → Names f → Names (put k o f)
name_put k o f names = record { keys = k ∷ names.keys; all = name_put-all k o f names }

-- the objects that are stored under some keys and match
abbrev pub stored_at : {A : Type 0} → Option A → (A → Bool) → List A → List A
stored_at none wanted rest = rest
stored_at (some a) wanted rest = if wanted a then a ∷ rest else rest

abbrev pub collect : {A : Type 0} → (Key → Option A) → (A → Bool) → List Key → List A
collect f wanted [] = []
collect f wanted (k ∷ keys) = stored_at (f k) wanted (collect f wanted keys)

abbrev pub put_pvc :
    (w : Memory) (k : Key) (o : Option Pvc) → ((a : Pvc) → o ≡ some a → key_of a.meta ≡ k) → Memory
put_pvc w k o own = record w {
  cluster = record (w.cluster) { pvc = put k o w.cluster.pvc };
  pvc_key = put-key (λ (x : Pvc). key_of x.meta) k o w.cluster.pvc own w.pvc_key;
  pvc_names = name_put k o w.cluster.pvc w.pvc_names;
}

abbrev pub put_pv : Memory → Pv → Memory
put_pv w v = record w {
  cluster = record (w.cluster) { pv = put_name v.name (some v) w.cluster.pv };
  pv_name = put_name-key v.name v w.cluster.pv refl w.pv_name;
}

abbrev pub put_rs :
    (w : Memory) (k : Key) (o : Option Rs) → ((a : Rs) → o ≡ some a → key_of a.meta ≡ k) → Memory
put_rs w k o own = record w {
  cluster = record (w.cluster) { rs = put k o w.cluster.rs };
  rs_key = put-key (λ (x : Rs). key_of x.meta) k o w.cluster.rs own w.rs_key;
  rs_names = name_put k o w.cluster.rs w.rs_names;
}

abbrev pub put_rd :
    (w : Memory) (k : Key) (o : Option Rd) → ((a : Rd) → o ≡ some a → key_of a.meta ≡ k) → Memory
put_rd w k o own = record w {
  cluster = record (w.cluster) { rd = put k o w.cluster.rd };
  rd_key = put-key (λ (x : Rd). key_of x.meta) k o w.cluster.rd own w.rd_key;
  rd_names = name_put k o w.cluster.rd w.rd_names;
}

abbrev pub missing : Error
missing = api not_found "not found"

-- a read
abbrev pub found : {A : Type 0} → Option A → Outcome A
found none = err missing
found (some a) = ok a

abbrev pub create_pvc_at : (p : Pvc) (w : Memory) → Option Pvc → Outcome Pvc × Memory
create_pvc_at p w (some q) = (err (api already_exists "already exists"), w)
create_pvc_at p w none = (
  ok p,
  put_pvc w (key_of p.meta) (some p) (λ a e. ap (λ (x : Pvc). key_of x.meta) (sym (some_inj e))),
)

abbrev pub update_pvc_at : (p : Pvc) (w : Memory) → Option Pvc → Outcome Pvc × Memory
update_pvc_at p w none = (err missing, w)
update_pvc_at p w (some q) = (
  ok p,
  put_pvc w (key_of p.meta) (after_update p) (unless_key p.deletion_timestamp p.finalizers p),
)

abbrev pub delete_pvc_at : (k : Key) (w : Memory) → Option Pvc → Outcome (Unit {0}) × Memory
delete_pvc_at k w none = (err missing, w)
delete_pvc_at k w (some q) = (
  ok tt,
  record (put_pvc w k (deleted_pvc 1 (w.cluster.pvc k))
      (deleted_pvc_key 1 k (w.cluster.pvc k) (w.pvc_key k))) { deletions = suc w.deletions },
)

abbrev pub update_pv_at : (v : Pv) (w : Memory) → Option Pv → Outcome Pv × Memory
update_pv_at v w none = (err missing, w)
update_pv_at v w (some u) = (ok v, put_pv w v)

abbrev pub delete_rs_at : (k : Key) (w : Memory) → Option Rs → Outcome (Unit {0}) × Memory
delete_rs_at k w none = (err missing, w)
delete_rs_at k w (some q) = (
  ok tt,
  put_rs w k (deleted_rs 1 (w.cluster.rs k)) (deleted_rs_key 1 k (w.cluster.rs k) (w.rs_key k)),
)

abbrev pub delete_rd_at : (k : Key) (w : Memory) → Option Rd → Outcome (Unit {0}) × Memory
delete_rd_at k w none = (err missing, w)
delete_rd_at k w (some q) = (
  ok tt,
  put_rd w k (deleted_rd 1 (w.cluster.rd k)) (deleted_rd_key 1 k (w.cluster.rd k) (w.rd_key k)),
)

-- `CreateOrUpdate` refuses a mutate function that changes the object's name
abbrev pub renamed : Error
renamed = errorf "MutateFn cannot mutate object name and/or object namespace"

abbrev pub or_given : {A : Type 0} → A → Option A → A
or_given given none = given
or_given given (some a) = a

abbrev pub store_rs_at :
    (k : Key) (w : Memory) (r : Rs) (b : Bool) → key_eq (key_of r.meta) k ≡ b → Outcome Rs × Memory
store_rs_at k w r false e = (err renamed, w)
store_rs_at k w r true e = (
  ok r,
  put_rs w k (some r) (λ a same.
      ap (λ (x : Rs). key_of x.meta) (sym (some_inj same)) ∙ key_eq_sound (key_of r.meta) k e),
)

abbrev pub upsert_rs_at : (k : Key) (w : Memory) → Outcome Rs → Outcome Rs × Memory
upsert_rs_at k w (ok r) = store_rs_at k w r (key_eq (key_of r.meta) k) refl
upsert_rs_at k w (err e) = (err e, w)
upsert_rs_at k w panic = (panic, w)

abbrev pub store_rd_at :
    (k : Key) (w : Memory) (r : Rd) (b : Bool) → key_eq (key_of r.meta) k ≡ b → Outcome Rd × Memory
store_rd_at k w r false e = (err renamed, w)
store_rd_at k w r true e = (
  ok r,
  put_rd w k (some r) (λ a same.
      ap (λ (x : Rd). key_of x.meta) (sym (some_inj same)) ∙ key_eq_sound (key_of r.meta) k e),
)

abbrev pub upsert_rd_at : (k : Key) (w : Memory) → Outcome Rd → Outcome Rd × Memory
upsert_rd_at k w (ok r) = store_rd_at k w r (key_eq (key_of r.meta) k) refl
upsert_rd_at k w (err e) = (err e, w)
upsert_rd_at k w panic = (panic, w)

abbrev pub has_finalizer : List String → String → Bool
has_finalizer [] f = false
has_finalizer (g ∷ fs) f = if g == f then true else has_finalizer fs f

abbrev pub with_finalizer : List String → String → List String
with_finalizer [] f = f ∷ []
with_finalizer (g ∷ fs) f = if g == f then g ∷ fs else g ∷ with_finalizer fs f

abbrev pub without_finalizer : List String → String → List String
without_finalizer [] f = []
without_finalizer (g ∷ fs) f =
    let rest = without_finalizer fs f in if g == f then rest else g ∷ rest

abbrev pub equal_to : Dict → List Requirement
equal_to [] = []
equal_to ((k, v) ∷ m) = record { label = k; operator = equals; values = v ∷ [] } ∷ equal_to m

abbrev pub memory : Client
memory = record {
  World = Memory;
  get_pvc = λ k w. (found (w.cluster.pvc k), w);
  list_pvcs = λ o w. (ok (collect w.cluster.pvc (λ p. matches o p.meta) w.pvc_names.keys), w);
  get_pv = λ n w. (found (w.cluster.pv n), w);
  get_rs = λ k w. (found (w.cluster.rs k), w);
  list_rss = λ o w. (ok (collect w.cluster.rs (λ r. matches o r.meta) w.rs_names.keys), w);
  get_rd = λ k w. (found (w.cluster.rd k), w);
  list_rds = λ o w. (ok (collect w.cluster.rd (λ r. matches o r.meta) w.rd_names.keys), w);
  get_secret = λ k w. (ok tt, w);
  list_pods = λ _ w. (ok w.environment.pods, w);
  get_vgr = λ _ w. (found w.environment.vgr, w);
  list_vgrs = λ _ w. (ok [], w);
  get_vgr_class = λ _ w. (found w.environment.vgr_class, w);
  get_vrg = λ _ w. (err missing, w);
  list_vrgs = λ _ w. (ok w.environment.vrgs, w);
  now = λ w. (ok 1, w);
  create_pvc = λ p w. create_pvc_at p w (w.cluster.pvc (key_of p.meta));
  update_pvc = λ p w. update_pvc_at p w (w.cluster.pvc (key_of p.meta));
  delete_pvc = λ k w. delete_pvc_at k w (w.cluster.pvc k);
  update_pv = λ v w. update_pv_at v w (w.cluster.pv v.name);
  update_rs = λ r w. (err missing, w);
  delete_rs = λ k w. delete_rs_at k w (w.cluster.rs k);
  delete_rd = λ k w. delete_rd_at k w (w.cluster.rd k);
  delete_job = λ _ w. (err missing, w);
  delete_pod = λ _ w. (ok tt, w);
  update_vgr = λ v w. (ok v, w);
  update_vgr_status = λ v w. (ok v, w);
  create_or_update_rs =
      λ r f w. upsert_rs_at (key_of r.meta) w (f (or_given r (w.cluster.rs (key_of r.meta))));
  create_or_update_rd =
      λ r f w. upsert_rd_at (key_of r.meta) w (f (or_given r (w.cluster.rd (key_of r.meta))));
  create_or_update_export = λ x f w. (f x, w);
  contains_finalizer = has_finalizer;
  add_finalizer = with_finalizer;
  remove_finalizer = without_finalizer;
  set_owner_reference = λ rd x. ok (record x { owners = key_of rd.meta ∷ x.owners });
  label_selector_as_selector = λ s. ok (equal_to s.match_labels ++ s.match_expressions);
  new_requirement = λ l v. ok (record { label = l; operator = equals; values = v ∷ [] });
}
