-- ===== src/Volsync/Source/Effects.antt =====
-- What ReconcileRS does to a lawful cluster when it returns a source.
use mock_storage_operator.Prelude.{
  Bool, false, ◌⊎◌, inl, inr, ◌≡◌, refl, sym, ap, ◌∙◌, true, false, String, Option, none, some,
  has_suffix,
}
use mock_storage_operator.Prelude.Dict
use mock_storage_operator.Prelude.Dict.{index-insert}
use mock_storage_operator.Exec.{Error, Outcome, ok, err, panic}
use mock_storage_operator.Exec.Ensures.{
  Ensures, Ensures-pure, Ensures-if, Ensures-wrapping, Ensures-value, Ensures-bind, Ensures-at,
}
use mock_storage_operator.Objects.{Key, ObjectMeta, Pvc, Rs, Rd}
use mock_storage_operator.Client.{Client}
use mock_storage_operator.Client.Laws.{Cluster, IsLawful, key_eq, put, Upserted}
use mock_storage_operator.Volsync.{
  VsHandler, pvc_finalizer_name, vgr_owner_label, vgr_owner_namespace_label, add_vgr_owner_label,
  get_replication_source_name,
}
use mock_storage_operator.Volsync.Schedule.{get_schedule_cron_spec}
use mock_storage_operator.Volsync.Source.{
  RsArguments, rs_spec, mutate_rs, create_or_update_rs, provide_rs, reconcile_rs,
}
use mock_storage_operator.Volsync.Claims.Effects.{
  OnlyClaim, Guarded, key_eq_refl, ensure_pvc_labels-Ensures, add_finalizer_to_pvc-Ensures,
  is_pvc_terminating-Ensures, validate_secret-Ensures,
}
use mock_storage_operator.Volsync.Cleanup.Effects.{RdGoing, DestinationGoing, delete_rd-Ensures}

-- the labels name the owner
pub record OwnedBy (owner : Key) (m : ObjectMeta) : Type 0 where
  pub name_label : Dict.index vgr_owner_label m.labels ≡ owner.name
  pub namespace_label : Dict.index vgr_owner_namespace_label m.labels ≡ owner.namespace

pub add_vgr_owner_label-OwnedBy :
    (owner : Key) (m : ObjectMeta) → OwnedBy owner (add_vgr_owner_label owner m)
unfolding add_vgr_owner_label
add_vgr_owner_label-OwnedBy owner m = record {
  name_label = rw index-insert (rw index-insert refl);
  namespace_label = rw index-insert refl;
}

-- what the mutate function makes of a source
pub record MutatedRs (v : VsHandler) (a : RsArguments) (paused : Bool) (rs : Rs) : Type 0 where
  pub cron : String
  pub scheduled : get_schedule_cron_spec v ≡ ok cron
  pub spec : rs.spec ≡ record {
    source_pvc = a.claim.name;
    paused = paused;
    trigger = some (record { schedule = some cron; manual = "" });
    rsync_tls = some (record {
      key_secret = some a.psk_secret_name;
      address = some a.remote_address;
      copy_method = "Direct";
      storage_class_name = a.storage_class_name;
      access_modes = a.access_modes;
    });
  }
  pub owned : OwnedBy v.owner rs.meta

pub ok_not_err : {A : Type 0} {a : A} {e : Error} → ok a ≡ err e → ⊥
ok_not_err e = cc

pub ok_not_panic : {A : Type 0} {a : A} → ok a ≡ panic → ⊥
ok_not_panic e = cc

pub ok_inj : {A : Type 0} {a b : A} → ok a ≡ ok b → a ≡ b
ok_inj e = cc

mutated_to :
    (v : VsHandler) (a : RsArguments) (base made : Rs) (cron : String)
    → get_schedule_cron_spec v ≡ ok cron
    → ok (record base {
      meta = add_vgr_owner_label v.owner base.meta;
      spec = rs_spec a cron base.spec.paused;
    })
      ≡ ok made
    → MutatedRs v a base.spec.paused made
mutated_to v a base made cron e h = record {
  cron = cron;
  scheduled = e;
  spec = rw (sym (ok_inj h)) refl;
  owned = rw (sym (ok_inj h)) (add_vgr_owner_label-OwnedBy v.owner base.meta);
}

mutated_by :
    (v : VsHandler) (a : RsArguments) (base made : Rs) (o : Outcome String)
    → get_schedule_cron_spec v ≡ o
    → mutate_rs v a base ≡ ok made
    → MutatedRs v a base.spec.paused made
unfolding mutate_rs
mutated_by v a base made (ok cron) e h = mutated_to v a base made cron e (rw (mutate_rs, e) at h)
mutated_by v a base made (err x) e h = absurd (ok_not_err (sym (rw (mutate_rs, e) at h)))
mutated_by v a base made panic e h = absurd (ok_not_panic (sym (rw (mutate_rs, e) at h)))

-- whether a source that is there is paused
abbrev pub was_paused : Option Rs → Bool
was_paused none = false
was_paused (some rs) = rs.spec.paused

-- what CreateOrUpdate of a source does
pub record SourceStored (v : VsHandler) (a : RsArguments) (rs : Rs) (before after : Cluster)
    : Type 0 where
  pub mutated : MutatedRs v a (was_paused (before.rs a.claim)) rs
  pub cluster : after ≡ record before { rs = put a.claim (some rs) before.rs }

paused_of :
    (o : Option Rs) (given base : Rs)
    → given.spec.paused ≡ false
    → (o ≡ some base) ⊎ ((o ≡ none) × (base ≡ given))
    → base.spec.paused ≡ was_paused o
paused_of o given base fresh (inl there) = rw there refl
paused_of o given base fresh (inr (missing, same)) =
    rw missing (ap (λ (r : Rs). r.spec.paused) same ∙ fresh)

stored_by :
    (v : VsHandler) (a : RsArguments) (given rs : Rs) (before after : Cluster)
    → Upserted
        (λ (x : Rs). x.meta)
        (λ (x : Rs). x.spec)
        (before.rs a.claim)
        given
        (mutate_rs v a)
        rs
    → after ≡ record before { rs = put a.claim (some rs) before.rs }
    → given.spec.paused ≡ false
    → SourceStored v a rs before after
stored_by v a given rs before after up e fresh =
    let made = mutated_by v a up.base up.made (get_schedule_cron_spec v) refl up.mutated in
    record {
      mutated = record {
        cron = made.cron;
        scheduled = made.scheduled;
        spec =
            rw (sym (paused_of (before.rs a.claim) given up.base fresh up.from_stored))
              (rw up.same_spec made.spec);
        owned = rw up.same_meta made.owned;
      };
      cluster = e;
    }

module _ (C : Client) (L : IsLawful C) where
  -- a claim that is there has the protection finalizer
  abbrev pub ClaimProtected : Option Pvc → Type 0
  ClaimProtected none = Unit {0}
  ClaimProtected (some p) = C.contains_finalizer p.finalizers pvc_finalizer_name ≡ true

  pub protected_of :
      (o : Option Pvc)
      → ((p : Pvc) → o ≡ some p → C.contains_finalizer p.finalizers pvc_finalizer_name ≡ true)
      → ClaimProtected o
  protected_of none h = tt
  protected_of (some p) h = h p refl

  -- the claim's source replicates it, and nothing works against it
  pub record SourceProvided (v : VsHandler) (a : RsArguments) (before after : Cluster) (rs : Rs)
      : Type 0 where
    pub stored : after.rs a.claim ≡ some rs
    pub mutated : MutatedRs v a (was_paused (before.rs a.claim)) rs
    pub other_sources : (j : Key) → key_eq a.claim j ≡ false → after.rs j ≡ before.rs j
    pub no_destination : RdGoing (after.rd a.claim)
    pub protected : ClaimProtected (after.pvc a.claim)
    pub other_claims : (j : Key) → key_eq a.claim j ≡ false → after.pvc j ≡ before.pvc j
    pub volumes : after.pv ≡ before.pv

  create_or_update_rs-Ensures :
      (v : VsHandler) (a : RsArguments) (w : C.World)
      → Ensures (create_or_update_rs C v a) w (λ rs w'. SourceStored v a rs (L.view w) (L.view w'))
  unfolding create_or_update_rs get_replication_source_name
  create_or_update_rs-Ensures v a w = Ensures-wrapping _ (
      Ensures-value (L.create_or_update_rs _ _ w)
        λ rs w' (up, e). stored_by v a _ rs (L.view w) (L.view w') up e refl)

  -- the four steps together
  provided_by :
      (v : VsHandler) (a : RsArguments) (c0 c1 c2 c3 c4 : Cluster) (rs : Rs)
      → DestinationGoing a.claim c0 c1
      → OnlyClaim a.claim c1 c2
      → SourceStored v a rs c2 c3
      → Guarded C L a.claim c3 c4
      → SourceProvided v a c0 c4 rs
  provided_by v a c0 c1 c2 c3 c4 rs going labels stored guarded = record {
    stored =
        ap (λ (f : Key → Option Rs). f a.claim) guarded.only.sources
        ∙ ap (λ (c : Cluster). c.rs a.claim) stored.cluster
        ∙ rw (key_eq_refl a.claim);
    mutated =
        rw (ap (λ (f : Key → Option Rs). was_paused (f a.claim)) (labels.sources ∙ going.sources))
          at stored.mutated;
    other_sources = λ j other.
        ap (λ (f : Key → Option Rs). f j) guarded.only.sources
        ∙ ap (λ (c : Cluster). c.rs j) stored.cluster
        ∙ rw other (ap (λ (f : Key → Option Rs). f j) (labels.sources ∙ going.sources));
    no_destination =
        rw
          (ap (λ (f : Key → Option Rd). f a.claim)
            (guarded.only.destinations
              ∙ ap (λ (c : Cluster). c.rd) stored.cluster
              ∙ labels.destinations))
          going.going;
    protected = protected_of _ guarded.guarded;
    other_claims = λ j other.
        guarded.only.others j other
        ∙ ap (λ (c : Cluster). c.pvc j) stored.cluster
        ∙ labels.others j other
        ∙ ap (λ (f : Key → Option Pvc). f j) going.claims;
    volumes =
        guarded.only.volumes
        ∙ ap (λ (c : Cluster). c.pv) stored.cluster
        ∙ labels.volumes
        ∙ going.volumes;
  }

  -- a result that is a source comes with what is provided for it
  abbrev pub Provided : VsHandler → RsArguments → Cluster → Option Rs → Cluster → Type 0
  Provided v a before none after = Unit {0}
  Provided v a before (some rs) after = SourceProvided v a before after rs

  provide_rs-Ensures :
      (v : VsHandler) (a : RsArguments) (before : Cluster) (w : C.World)
      → L.view w ≡ before
      → Ensures (provide_rs C v a) w (λ o w'. Provided v a before o (L.view w'))
  unfolding provide_rs
  provide_rs-Ensures v a before w same =
      Ensures-bind (delete_rd-Ensures C L a.claim w) λ _ w1 going.
        Ensures-bind (ensure_pvc_labels-Ensures C L v a.claim w1) λ _ w2 labels.
          Ensures-bind (create_or_update_rs-Ensures v a w2) λ rs w3 stored.
            Ensures-bind (add_finalizer_to_pvc-Ensures C L a.claim w3) λ _ w4 guarded.
              Ensures-pure (some rs) (
                provided_by v a before (L.view w1) (L.view w2) (L.view w3) (L.view w4) rs
                  (rw same at going) labels stored guarded)

  reconcile_rs-Ensures :
      (v : VsHandler) (a : RsArguments) (w : C.World)
      → Ensures (reconcile_rs C v a) w (λ o w'. Provided v a (L.view w) o (L.view w'))
  unfolding reconcile_rs
  reconcile_rs-Ensures v a w =
      Ensures-if (has_suffix a.claim.name "-tmp") _ _ (λ _. Ensures-pure none tt)
        λ _. Ensures-bind (is_pvc_terminating-Ensures C L a.claim w) λ terminating w1 same1.
          Ensures-if terminating _ _ (λ _. Ensures-pure none tt)
            λ _. Ensures-bind (validate_secret-Ensures C L _ w1) λ exists w2 same2.
              Ensures-if exists _ _ (λ _. provide_rs-Ensures v a (L.view w) w2 (same2 ∙ same1))
                (λ _. Ensures-pure none tt)

  -- On a lawful cluster, where ReconcileRS returns a source: it is what is stored under the claim's
  -- name, with the whole specification that the arguments and the interval ask for, paused if the
  -- source was so before, and the owner's labels; the claim's destination is gone or is being
  -- deleted; the claim, if it is there, has the protection finalizer; no other claim or source and no
  -- volume has changed.
  pub reconcile_rs-provided :
      (v : VsHandler) (a : RsArguments) (w w' : C.World) (rs : Rs)
      → reconcile_rs C v a w ≡ (ok (some rs), w')
      → SourceProvided v a (L.view w) (L.view w') rs
  reconcile_rs-provided v a w w' rs returned = Ensures-at (reconcile_rs-Ensures v a w) returned
