-- ===== src/Tests/Lawful.antt =====
-- The cluster in memory meets the laws that the operator relies on.
mod Settling
mod Listing
mod Secondary
use mock_storage_operator.Prelude.{
  ◌⊎◌, ◌≡◌, refl, Bool, true, false, String, ◌==◌, eq_refl, Option, none, some, List, [], ◌∷◌, inl,
  inr, Bool-cases,
}
use mock_storage_operator.Exec.{Outcome, ok, err, panic, Reply, attempt, ◌>>=◌, reply_of}
use mock_storage_operator.Exec.Ensures.{Post, Ensures}
use mock_storage_operator.Objects.{Key, key_of, Pvc, Pv, Rs, Rd}
use mock_storage_operator.Client.Laws.{
  IsLawful, Read, Written, Created, Deleted, UpsertedRs, UpsertedRd, key_eq, put, put_name,
  after_update, deleted_pvc, deleted_rs, deleted_rd,
}
use mock_storage_operator.Tests.Memory.{
  Memory, memory, found, create_pvc_at, update_pvc_at, delete_pvc_at, update_pv_at, delete_rs_at,
  delete_rd_at, or_given, store_rs_at, upsert_rs_at, store_rd_at, upsert_rd_at,
}

-- what a call in memory leaves and answers
abbrev Answers : {A : Type 0} → (Reply A → Memory → Type 0) → Outcome A × Memory → Type 0
Answers Q (r, w) = Post Q (reply_of r, w)

Read-lawful :
    {A : Type 0} (stored : Option A) (w : Memory)
    → Answers (λ r w'. Read stored w.cluster r w'.cluster) (found stored, w)
Read-lawful none w = λ _. (refl, refl)
Read-lawful (some a) w = (refl, refl)

answered :
    {A : Type 0} (m : Memory → Outcome A × Memory) (w : Memory) {Q : Reply A → Memory → Type 0}
    → Answers Q (m w)
    → Ensures (attempt m) w Q
unfolding ◌>>=◌
answered m w h = record { holds = h }

create_lawful :
    (p : Pvc) (w : Memory) (o : Option Pvc)
    → w.cluster.pvc (key_of p.meta) ≡ o
    → Answers
        (λ r w'.
          Created
            (w.cluster.pvc (key_of p.meta))
            w.cluster
            (record (w.cluster) { pvc = put (key_of p.meta) (some p) w.cluster.pvc })
            r
            w'.cluster)
        (create_pvc_at p w o)
create_lawful p w none e = (refl, e)
create_lawful p w (some q) e = λ _. (refl, (q, e))

update_lawful :
    (p : Pvc) (w : Memory) (o : Option Pvc)
    → Answers
        (λ r w'.
          Written
            (record (w.cluster) { pvc = put (key_of p.meta) (after_update p) w.cluster.pvc })
            r
            w'.cluster)
        (update_pvc_at p w o)
update_lawful p w none = tt
update_lawful p w (some q) = refl

delete_lawful :
    (k : Key) (w : Memory) (o : Option Pvc)
    → w.cluster.pvc k ≡ o
    → Answers
        (λ r w'.
          Deleted
            (w.cluster.pvc k)
            w.cluster
            (λ t. record (w.cluster) {
              pvc = put k (deleted_pvc t (w.cluster.pvc k)) w.cluster.pvc;
            })
            r
            w'.cluster)
        (delete_pvc_at k w o)
delete_lawful k w none e = λ _. (refl, e)
delete_lawful k w (some q) e = (1, refl)

update_pv_lawful :
    (v : Pv) (w : Memory) (o : Option Pv)
    → Answers
        (λ r w'.
          Written (record (w.cluster) { pv = put_name v.name (some v) w.cluster.pv }) r w'.cluster)
        (update_pv_at v w o)
update_pv_lawful v w none = tt
update_pv_lawful v w (some q) = refl

delete_rs_lawful :
    (k : Key) (w : Memory) (o : Option Rs)
    → w.cluster.rs k ≡ o
    → Answers
        (λ r w'.
          Deleted
            (w.cluster.rs k)
            w.cluster
            (λ t. record (w.cluster) { rs = put k (deleted_rs t (w.cluster.rs k)) w.cluster.rs })
            r
            w'.cluster)
        (delete_rs_at k w o)
delete_rs_lawful k w none e = λ _. (refl, e)
delete_rs_lawful k w (some q) e = (1, refl)

delete_rd_lawful :
    (k : Key) (w : Memory) (o : Option Rd)
    → w.cluster.rd k ≡ o
    → Answers
        (λ r w'.
          Deleted
            (w.cluster.rd k)
            w.cluster
            (λ t. record (w.cluster) { rd = put k (deleted_rd t (w.cluster.rd k)) w.cluster.rd })
            r
            w'.cluster)
        (delete_rd_at k w o)
delete_rd_lawful k w none e = λ _. (refl, e)
delete_rd_lawful k w (some q) e = (1, refl)

based :
    {A : Type 0} (o : Option A) (given : A)
    → (o ≡ some (or_given given o)) ⊎ ((o ≡ none) × (or_given given o ≡ given))
based none given = inr (refl, refl)
based (some a) given = inl refl

store_rs_lawful :
    (rs : Rs) (f : Rs → Outcome Rs) (w : Memory) (made : Rs) (b : Bool)
    (e : key_eq (key_of made.meta) (key_of rs.meta) ≡ b)
    → f (or_given rs (w.cluster.rs (key_of rs.meta))) ≡ ok made
    → Answers
        (λ r w'. UpsertedRs w.cluster rs f r w'.cluster)
        (store_rs_at (key_of rs.meta) w made b e)
store_rs_lawful rs f w made false e h = tt
store_rs_lawful rs f w made true e h = (
  record {
    base = or_given rs (w.cluster.rs (key_of rs.meta));
    made = made;
    from_stored = based (w.cluster.rs (key_of rs.meta)) rs;
    mutated = h;
    same_meta = refl;
    same_spec = refl;
  },
  refl,
)

upsert_rs_lawful :
    (rs : Rs) (f : Rs → Outcome Rs) (w : Memory) (r : Outcome Rs)
    → f (or_given rs (w.cluster.rs (key_of rs.meta))) ≡ r
    → Answers (λ r w'. UpsertedRs w.cluster rs f r w'.cluster) (upsert_rs_at (key_of rs.meta) w r)
upsert_rs_lawful rs f w (ok made) h = store_rs_lawful rs f w made _ refl h
upsert_rs_lawful rs f w (err e) h = tt
upsert_rs_lawful rs f w panic h = tt

store_rd_lawful :
    (rd : Rd) (f : Rd → Outcome Rd) (w : Memory) (made : Rd) (b : Bool)
    (e : key_eq (key_of made.meta) (key_of rd.meta) ≡ b)
    → f (or_given rd (w.cluster.rd (key_of rd.meta))) ≡ ok made
    → Answers
        (λ r w'. UpsertedRd w.cluster rd f r w'.cluster)
        (store_rd_at (key_of rd.meta) w made b e)
store_rd_lawful rd f w made false e h = tt
store_rd_lawful rd f w made true e h = (
  record {
    base = or_given rd (w.cluster.rd (key_of rd.meta));
    made = made;
    from_stored = based (w.cluster.rd (key_of rd.meta)) rd;
    mutated = h;
    same_meta = refl;
    same_spec = refl;
  },
  refl,
)

upsert_rd_lawful :
    (rd : Rd) (f : Rd → Outcome Rd) (w : Memory) (r : Outcome Rd)
    → f (or_given rd (w.cluster.rd (key_of rd.meta))) ≡ r
    → Answers (λ r w'. UpsertedRd w.cluster rd f r w'.cluster) (upsert_rd_at (key_of rd.meta) w r)
upsert_rd_lawful rd f w (ok made) h = store_rd_lawful rd f w made _ refl h
upsert_rd_lawful rd f w (err e) h = tt
upsert_rd_lawful rd f w panic h = tt

export_lawful :
    {A : Type 0} (r : Outcome A) (w : Memory)
    → Answers (λ r w'. Written w.cluster r w'.cluster) (r, w)
export_lawful (ok a) w = refl
export_lawful (err e) w = tt
export_lawful panic w = tt

contains-add :
    (fs : List String) (f : String) → memory.contains_finalizer (memory.add_finalizer fs f) f ≡ true
contains-add [] f = rw (eq_refl f) refl
contains-add (g ∷ fs) f = elim (Bool-cases (g == f)) [
  | inl same ↦ rw same (rw same refl)
  | inr other ↦ rw other (rw other (contains-add fs f))
]

contains-remove :
    (fs : List String) (f : String)
    → memory.contains_finalizer (memory.remove_finalizer fs f) f ≡ false
contains-remove [] f = refl
contains-remove (g ∷ fs) f = elim (Bool-cases (g == f)) [
  | inl same ↦ rw same (contains-remove fs f)
  | inr other ↦ rw other (rw other (contains-remove fs f))
]

pub memory_laws : IsLawful memory
memory_laws = record {
  view = λ w. w.cluster;
  admitted = λ p. p;
  admitted_lem = λ p. record {
    same_name = refl;
    same_namespace = refl;
    same_labels = refl;
    same_annotations = refl;
    same_mark = refl;
    same_spec = refl;
  };
  get_pvc = λ k w. answered (memory.get_pvc k) w (Read-lawful (w.cluster.pvc k) w);
  get_pv = λ n w. answered (memory.get_pv n) w (Read-lawful (w.cluster.pv n) w);
  get_rs = λ k w. answered (memory.get_rs k) w (Read-lawful (w.cluster.rs k) w);
  get_rd = λ k w. answered (memory.get_rd k) w (Read-lawful (w.cluster.rd k) w);
  get_secret = λ k w. answered (memory.get_secret k) w refl;
  pvc_key = λ w. w.pvc_key;
  pv_name = λ w. w.pv_name;
  rs_key = λ w. w.rs_key;
  rd_key = λ w. w.rd_key;
  create_pvc = λ p w. answered (memory.create_pvc p) w (create_lawful p w _ refl);
  update_pvc = λ p w. answered (memory.update_pvc p) w (update_lawful p w _);
  delete_pvc = λ k w. answered (memory.delete_pvc k) w (delete_lawful k w _ refl);
  update_pv = λ v w. answered (memory.update_pv v) w (update_pv_lawful v w _);
  delete_rs = λ k w. answered (memory.delete_rs k) w (delete_rs_lawful k w _ refl);
  delete_rd = λ k w. answered (memory.delete_rd k) w (delete_rd_lawful k w _ refl);
  create_or_update_rs =
      λ rs f w. answered (memory.create_or_update_rs rs f) w (upsert_rs_lawful rs f w _ refl);
  create_or_update_rd =
      λ rd f w. answered (memory.create_or_update_rd rd f) w (upsert_rd_lawful rd f w _ refl);
  create_or_update_export =
      λ x f w. answered (memory.create_or_update_export x f) w (export_lawful (f x) w);
  contains-add = contains-add;
  contains-remove = contains-remove;
}
