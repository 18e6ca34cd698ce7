-- ===== src/Volsync/Destination/Effects.antt =====
-- What ReconcileRD does to a lawful cluster when it returns a destination.
use mock_storage_operator.Prelude.{
  ◌≡◌, refl, sym, ap, ◌∙◌, Bool, true, false, Option, none, some, has_suffix, if◌then◌else◌,
}
use mock_storage_operator.Prelude.Dict
use mock_storage_operator.Exec.{Exec, ok, pure, ◌>>=◌}
use mock_storage_operator.Exec.Ensures.{
  Ensures, Ensures-pure, Ensures-if, Ensures-wrapping, Ensures-enclosing, Ensures-value,
  Ensures-bind, Ensures-at, Ensures-true,
}
use mock_storage_operator.Objects.{Key, Pvc, Rs, Rd}
use mock_storage_operator.Client.{Client}
use mock_storage_operator.Client.Laws.{Cluster, IsLawful, key_eq, put, Upserted}
use mock_storage_operator.Volsync.{
  VsHandler, temporary_pvc_annotation, get_replication_destination_name,
}
use mock_storage_operator.Volsync.Destination.{
  RdArguments, modes_or_default, rd_status_ready, mutate_rd, create_or_update_rd,
  reconcile_service_export_for_rd, provide_rd, reconcile_live_rd, reconcile_rd,
}
use mock_storage_operator.Volsync.Claims.Effects.{
  Guarded, key_eq_refl, add_finalizer_to_pvc-Ensures, is_pvc_terminating-Ensures,
  validate_secret-Ensures,
}
use mock_storage_operator.Volsync.Cleanup.Effects.{RsGoing, SourceGoing, delete_rs-Ensures}
use mock_storage_operator.Volsync.Source.Effects.{
  OwnedBy, add_vgr_owner_label-OwnedBy, ok_inj, ClaimProtected, protected_of,
}

-- what the mutate function makes of a destination
pub record MutatedRd (v : VsHandler) (a : RdArguments) (rd : Rd) : Type 0 where
  pub spec :
      rd.rsync_tls
      ≡ some (record {
        service_type = a.service_type;
        key_secret = some a.psk_secret_name;
        copy_method = "Direct";
        capacity = a.capacity;
        storage_class_name = a.storage_class_name;
        access_modes = modes_or_default a.access_modes;
        destination_pvc = some a.claim.name;
      })
  pub owned : OwnedBy v.owner rd.meta

-- what CreateOrUpdate of a destination does
pub record DestinationStored (v : VsHandler) (a : RdArguments) (rd : Rd) (before after : Cluster)
    : Type 0 where
  pub mutated : MutatedRd v a rd
  pub cluster : after ≡ record before { rd = put a.claim (some rd) before.rd }

mutated_by :
    (v : VsHandler) (a : RdArguments) (base made : Rd)
    → mutate_rd v a base ≡ ok made
    → MutatedRd v a made
unfolding mutate_rd
mutated_by v a base made h = record {
  spec = rw (sym (ok_inj h)) refl;
  owned = rw (sym (ok_inj h)) (add_vgr_owner_label-OwnedBy v.owner base.meta);
}

stored_by :
    (v : VsHandler) (a : RdArguments) (given rd : Rd) (before after : Cluster)
    → Upserted
        (λ (x : Rd). x.meta)
        (λ (x : Rd). x.rsync_tls)
        (before.rd a.claim)
        given
        (mutate_rd v a)
        rd
    → after ≡ record before { rd = put a.claim (some rd) before.rd }
    → DestinationStored v a rd before after
stored_by v a given rd before after up e =
    let made = mutated_by v a up.base up.made up.mutated in
    record {
      mutated = record { spec = rw up.same_spec made.spec; owned = rw up.same_meta made.owned };
      cluster = e;
    }

module _ (C : Client) (L : IsLawful C) where
  -- the claim's destination receives it, and nothing works against it
  pub record DestinationProvided (v : VsHandler) (a : RdArguments) (before after : Cluster)
      (rd : Rd) : Type 0 where
    pub stored : after.rd a.claim ≡ some rd
    pub ready : rd_status_ready rd ≡ true
    pub mutated : MutatedRd v a rd
    pub other_destinations : (j : Key) → key_eq a.claim j ≡ false → after.rd j ≡ before.rd j
    pub no_source : RsGoing (after.rs a.claim)
    pub protected : ClaimProtected C L (after.pvc a.claim)
    pub other_claims : (j : Key) → key_eq a.claim j ≡ false → after.pvc j ≡ before.pvc j
    pub volumes : after.pv ≡ before.pv

  -- a result that is a destination comes with what is provided for it
  abbrev pub Provided : VsHandler → RdArguments → Cluster → Option Rd → Cluster → Type 0
  Provided v a before none after = Unit {0}
  Provided v a before (some rd) after = DestinationProvided v a before after rd

  create_or_update_rd-Ensures :
      (v : VsHandler) (a : RdArguments) (w : C.World)
      → Ensures
          (create_or_update_rd C v a)
          w
          (λ rd w'. DestinationStored v a rd (L.view w) (L.view w'))
  unfolding create_or_update_rd get_replication_destination_name
  create_or_update_rd-Ensures v a w = Ensures-wrapping _ (
      Ensures-value (L.create_or_update_rd _ _ w)
        λ rd w' (up, e). stored_by v a _ rd (L.view w) (L.view w') up e)

  export-Ensures :
      (rd : Rd) (w : C.World)
      → Ensures (reconcile_service_export_for_rd C rd) w (λ _ w'. L.view w' ≡ L.view w)
  unfolding reconcile_service_export_for_rd
  export-Ensures rd w =
      Ensures-bind
        (Ensures-enclosing _ _ (Ensures-value (L.create_or_update_export _ _ w) (λ _ w' e. e)))
        (λ _ w' e. Ensures-pure tt e)

  -- the steps together
  provided_by :
      (v : VsHandler) (a : RdArguments) (c0 c1 c2 c3 c4 : Cluster) (rd : Rd)
      → SourceGoing a.claim c0 c1
      → DestinationStored v a rd c1 c2
      → Guarded C L a.claim c2 c3
      → c4 ≡ c3
      → rd_status_ready rd ≡ true
      → DestinationProvided v a c0 c4 rd
  provided_by v a c0 c1 c2 c3 c4 rd going stored guarded same ready = rw same (record {
    stored =
        ap (λ (f : Key → Option Rd). f a.claim) guarded.only.destinations
        ∙ ap (λ (c : Cluster). c.rd a.claim) stored.cluster
        ∙ rw (key_eq_refl a.claim);
    ready = ready;
    mutated = stored.mutated;
    other_destinations = λ j other.
        ap (λ (f : Key → Option Rd). f j) guarded.only.destinations
        ∙ ap (λ (c : Cluster). c.rd j) stored.cluster
        ∙ rw other (ap (λ (f : Key → Option Rd). f j) going.destinations);
    no_source =
        rw
          (ap (λ (f : Key → Option Rs). f a.claim)
            (guarded.only.sources ∙ ap (λ (c : Cluster). c.rs) stored.cluster))
          going.going;
    protected = protected_of C L _ guarded.guarded;
    other_claims = λ j other.
        guarded.only.others j other
        ∙ ap (λ (c : Cluster). c.pvc j) stored.cluster
        ∙ ap (λ (f : Key → Option Pvc). f j) going.claims;
    volumes = guarded.only.volumes ∙ ap (λ (c : Cluster). c.pv) stored.cluster ∙ going.volumes;
  })

  -- the last step returns the destination if it is ready
  if_ready :
      (v : VsHandler) (a : RdArguments) (before after : Cluster) (rd : Rd) (b : Bool)
      → (b ≡ true → DestinationProvided v a before after rd)
      → Provided v a before (if b then some rd else none) after
  if_ready v a before after rd true h = h refl
  if_ready v a before after rd false h = tt

  provide_rd-Ensures :
      (v : VsHandler) (a : RdArguments) (before : Cluster) (w : C.World)
      → L.view w ≡ before
      → Ensures (provide_rd C v a) w (λ o w'. Provided v a before o (L.view w'))
  unfolding provide_rd
  provide_rd-Ensures v a before w same =
      Ensures-bind (delete_rs-Ensures C L a.claim w) λ _ w1 going.
        Ensures-bind (create_or_update_rd-Ensures v a w1) λ rd w2 stored.
          Ensures-bind (add_finalizer_to_pvc-Ensures C L a.claim w2) λ _ w3 guarded.
            Ensures-bind (export-Ensures rd w3) λ _ w4 exported. Ensures-pure _ (
              if_ready v a before (L.view w4) rd (rd_status_ready rd) (
                provided_by v a before (L.view w1) (L.view w2) (L.view w3) (L.view w4) rd
                  (rw same at going) stored guarded exported))

  reconcile_live_rd-Ensures :
      (v : VsHandler) (a : RdArguments) (before : Cluster) (w : C.World)
      → L.view w ≡ before
      → Ensures (reconcile_live_rd C v a) w (λ o w'. Provided v a before o (L.view w'))
  unfolding reconcile_live_rd
  reconcile_live_rd-Ensures v a before w same =
      Ensures-bind (Ensures-wrapping _ (Ensures-value (L.get_pvc a.claim w) (λ pvc w' read. read)))
        λ pvc w1 read.
          Ensures-if (Dict.contains temporary_pvc_annotation pvc.annotations) _ _
            (λ _. Ensures-pure none tt)
            λ _. Ensures-bind (validate_secret-Ensures C L _ w1) λ exists w2 same2.
              Ensures-if exists _ _ (λ _. provide_rd-Ensures v a before w2 (same2 ∙ read.0 ∙ same))
                (λ _. Ensures-pure none tt)

  -- no destination is returned
  nothing-Provided :
      (v : VsHandler) (a : RdArguments) (before : Cluster) (m : Exec C.World (Unit {0}))
      (w : C.World)
      → Ensures (m >>= λ _. pure none) w (λ o w'. Provided v a before o (L.view w'))
  nothing-Provided v a before m w = Ensures-bind (Ensures-true m w) (λ _ w' _. Ensures-pure none tt)

  reconcile_rd-Ensures :
      (v : VsHandler) (a : RdArguments) (w : C.World)
      → Ensures (reconcile_rd C v a) w (λ o w'. Provided v a (L.view w) o (L.view w'))
  unfolding reconcile_rd
  reconcile_rd-Ensures v a w =
      Ensures-if (has_suffix a.claim.name "-tmp") _ _ (λ _. nothing-Provided v a _ _ w)
        λ _. Ensures-bind (is_pvc_terminating-Ensures C L a.claim w) λ terminating w1 same.
          Ensures-if terminating _ _ (λ _. nothing-Provided v a _ _ w1)
            (λ _. reconcile_live_rd-Ensures v a (L.view w) w1 same)

  -- On a lawful cluster, where ReconcileRD returns a destination: it is what is stored under the
  -- claim's name, it has an address, its specification is the one that the arguments ask for, and
  -- it has the owner's labels; the claim's source is gone or is being deleted; the claim, if it is
  -- there, has the protection finalizer; no other claim or destination and no volume has changed.
  pub reconcile_rd-provided :
      (v : VsHandler) (a : RdArguments) (w w' : C.World) (rd : Rd)
      → reconcile_rd C v a w ≡ (ok (some rd), w')
      → DestinationProvided v a (L.view w) (L.view w') rd
  reconcile_rd-provided v a w w' rd returned = Ensures-at (reconcile_rd-Ensures v a w) returned
