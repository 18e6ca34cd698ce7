-- ===== src/Volsync/Cleanup/Effects.antt =====
-- What DeleteRS and DeleteRD do to a lawful cluster when they return normally.
use mock_storage_operator.Prelude.{ℕ, ◌≡◌, ◌≢◌, sym, ap, ◌∙◌, Option, none, some, arith}
use mock_storage_operator.Exec.{Reply, value, error, is_not_found}
use mock_storage_operator.Exec.Ensures.{
  Ensures, Ensures-pure, Ensures-fail, Ensures-if, Ensures-value, Ensures-bind,
}
use mock_storage_operator.Objects.{Key, key_of, Rs, Rd}
use mock_storage_operator.Client.{Client}
use mock_storage_operator.Client.Laws.{Cluster, IsLawful, put, deleted_rs, deleted_rd, Read}
use mock_storage_operator.Volsync.{get_replication_source_name, get_replication_destination_name}
use mock_storage_operator.Volsync.Claims.Effects.{key_eq_refl}
use mock_storage_operator.Volsync.Cleanup.{delete_found_rs, delete_rs, delete_found_rd, delete_rd}

-- an object that is not there, or is being deleted
abbrev pub RsGoing : Option Rs → Type 0
RsGoing none = Unit {0}
RsGoing (some r) = r.deletion_timestamp ≢ none

abbrev pub RdGoing : Option Rd → Type 0
RdGoing none = Unit {0}
RdGoing (some r) = r.deletion_timestamp ≢ none

pub deleted_rs-Going : (t : ℕ) (o : Option Rs) → RsGoing (deleted_rs t o)
deleted_rs-Going t none = tt
deleted_rs-Going t (some r) = ground arith

pub deleted_rd-Going : (t : ℕ) (o : Option Rd) → RdGoing (deleted_rd t o)
deleted_rd-Going t none = tt
deleted_rd-Going t (some r) = ground arith

pub record SourceGoing (k : Key) (before after : Cluster) : Type 0 where
  pub claims : after.pvc ≡ before.pvc
  pub volumes : after.pv ≡ before.pv
  pub destinations : after.rd ≡ before.rd
  pub going : RsGoing (after.rs k)

pub record DestinationGoing (k : Key) (before after : Cluster) : Type 0 where
  pub claims : after.pvc ≡ before.pvc
  pub volumes : after.pv ≡ before.pv
  pub sources : after.rs ≡ before.rs
  pub going : RdGoing (after.rd k)

RsGoing-after :
    (t : ℕ) (k j : Key) (before after : Cluster)
    → j ≡ k
    → after ≡ record before { rs = put j (deleted_rs t (before.rs j)) before.rs }
    → RsGoing (after.rs k)
RsGoing-after t k j before after same e =
    rw (ap (λ (c : Cluster). c.rs k) e)
      (rw (sym same) (rw (key_eq_refl j) (deleted_rs-Going t (before.rs j))))

RdGoing-after :
    (t : ℕ) (k j : Key) (before after : Cluster)
    → j ≡ k
    → after ≡ record before { rd = put j (deleted_rd t (before.rd j)) before.rd }
    → RdGoing (after.rd k)
RdGoing-after t k j before after same e =
    rw (ap (λ (c : Cluster). c.rd k) e)
      (rw (sym same) (rw (key_eq_refl j) (deleted_rd-Going t (before.rd j))))

module _ (C : Client) (L : IsLawful C) where
  delete_found_rs-Ensures :
      (k : Key) (before : Cluster) (r : Reply Rs) (w : C.World)
      → Read (before.rs k) before r (L.view w)
      → Ensures (delete_found_rs C k r) w (λ _ w'. SourceGoing k before (L.view w'))
  unfolding delete_found_rs
  delete_found_rs-Ensures k before (error e) w read =
      Ensures-if (is_not_found e) _ _
        (λ missing. Ensures-pure tt (record {
          claims = ap (λ (c : Cluster). c.pvc) (read missing).0;
          volumes = ap (λ (c : Cluster). c.pv) (read missing).0;
          destinations = ap (λ (c : Cluster). c.rd) (read missing).0;
          going = rw (ap (λ (c : Cluster). c.rs k) (read missing).0 ∙ (read missing).1) tt;
        }))
        (λ _. Ensures-fail _)
  delete_found_rs-Ensures k before (value rs) w read =
      Ensures-value (L.delete_rs (key_of rs.meta) w) λ _ w' (t, e). record {
        claims = ap (λ (c : Cluster). c.pvc) e ∙ ap (λ (c : Cluster). c.pvc) read.0;
        volumes = ap (λ (c : Cluster). c.pv) e ∙ ap (λ (c : Cluster). c.pv) read.0;
        destinations = ap (λ (c : Cluster). c.rd) e ∙ ap (λ (c : Cluster). c.rd) read.0;
        going =
            RsGoing-after t k (key_of rs.meta) (L.view w) (L.view w')
              (L.rs_key w k rs (ap (λ (c : Cluster). c.rs k) read.0 ∙ read.1)) e;
      }

  -- After DeleteRS has returned normally, the claim's source is gone or is being deleted, and
  -- nothing else of the cluster has changed.
  pub delete_rs-Ensures :
      (k : Key) (w : C.World)
      → Ensures (delete_rs C k) w (λ _ w'. SourceGoing k (L.view w) (L.view w'))
  unfolding delete_rs get_replication_source_name
  delete_rs-Ensures k w =
      Ensures-bind (L.get_rs k w) (λ r w'. delete_found_rs-Ensures k (L.view w) r w')

  delete_found_rd-Ensures :
      (k : Key) (before : Cluster) (r : Reply Rd) (w : C.World)
      → Read (before.rd k) before r (L.view w)
      → Ensures (delete_found_rd C k r) w (λ _ w'. DestinationGoing k before (L.view w'))
  unfolding delete_found_rd
  delete_found_rd-Ensures k before (error e) w read =
      Ensures-if (is_not_found e) _ _
        (λ missing. Ensures-pure tt (record {
          claims = ap (λ (c : Cluster). c.pvc) (read missing).0;
          volumes = ap (λ (c : Cluster). c.pv) (read missing).0;
          sources = ap (λ (c : Cluster). c.rs) (read missing).0;
          going = rw (ap (λ (c : Cluster). c.rd k) (read missing).0 ∙ (read missing).1) tt;
        }))
        (λ _. Ensures-fail _)
  delete_found_rd-Ensures k before (value rd) w read =
      Ensures-value (L.delete_rd (key_of rd.meta) w) λ _ w' (t, e). record {
        claims = ap (λ (c : Cluster). c.pvc) e ∙ ap (λ (c : Cluster). c.pvc) read.0;
        volumes = ap (λ (c : Cluster). c.pv) e ∙ ap (λ (c : Cluster). c.pv) read.0;
        sources = ap (λ (c : Cluster). c.rs) e ∙ ap (λ (c : Cluster). c.rs) read.0;
        going =
            RdGoing-after t k (key_of rd.meta) (L.view w) (L.view w')
              (L.rd_key w k rd (ap (λ (c : Cluster). c.rd k) read.0 ∙ read.1)) e;
      }

  -- After DeleteRD has returned normally, the claim's destination is gone or is being deleted, and
  -- nothing else of the cluster has changed.
  pub delete_rd-Ensures :
      (k : Key) (w : C.World)
      → Ensures (delete_rd C k) w (λ _ w'. DestinationGoing k (L.view w) (L.view w'))
  unfolding delete_rd get_replication_destination_name
  delete_rd-Ensures k w =
      Ensures-bind (L.get_rd k w) (λ r w'. delete_found_rd-Ensures k (L.view w) r w')
