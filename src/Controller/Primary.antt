-- ===== src/Controller/Primary.antt =====
-- internal/controller/primary_reconciler.go: a VolumeGroupReplication in the primary state.
pub mod Pausing
pub mod Footprint
pub mod Conflict
use mock_storage_operator.Prelude.{
  ℕ, Bool, true, false, ◌||◌, String, ◌==◌, Option, none, some, List, [], ◌∷◌, ◌++◌, if◌then◌else◌,
}
use mock_storage_operator.Exec.{
  Exec, Error, Outcome, ok, err, panic, Reply, value, error, wrap, pure, fail, crash, lift, attempt,
  wrapping, ◌>>=◌, ◌>>◌,
}
use mock_storage_operator.Objects.{
  LabelSelector, Key, key_of, Pvc, Rs, Vgr, VgrClass, VgrStatus, Requirement, ListOptions,
  primary_state,
}
use mock_storage_operator.Client.{Client}
use mock_storage_operator.Volsync.{
  VsHandler, vgr_owner_label, get_remote_service_name_for_rd_from_pvc_name,
}
use mock_storage_operator.Volsync.Source.{RsArguments, reconcile_rs}
use mock_storage_operator.Controller.Session.{
  Session, Result, no_requeue, requeue_interval, handler_for, on_world, modify_vgr, the_vgr,
  update_vgr_status,
}
use mock_storage_operator.Controller.Conditions.{set_vgr_condition, is_volsync_owned}
use mock_storage_operator.Controller.Configuration.{PrimaryConfig, primary_configuration}
use Pausing.{ConflictCheck, check_vrg_conflict}

-- the arguments of reconcilePVCReplicationSource's call of ReconcileRS
unfoldable pub rs_arguments : Pvc → PrimaryConfig → RsArguments
rs_arguments pvc config = record {
  claim = key_of pvc.meta;
  remote_address = get_remote_service_name_for_rd_from_pvc_name pvc.name pvc.namespace;
  psk_secret_name = config.psk_secret_name;
  storage_class_name = pvc.spec.storage_class_name;
  access_modes = pvc.spec.access_modes;
  volume_snapshot_class_name = config.volume_snapshot_class_name;
}

-- `protectedPVCs` and `latestSync`
pub record Protected : Type 0 where
  pub pvcs : List String
  pub latest_sync : Option ℕ

abbrev sync_time : Option ℕ → Option ℕ → Option ℕ
sync_time latest none = latest
sync_time latest (some t) = some t

-- a source that was reconciled joins the protected claims, and its sync time counts if it has one
unfoldable pub protect : String → Option Rs → Protected → Protected
protect name none acc = acc
protect name (some rs) acc = record {
  pvcs = acc.pvcs ++ name ∷ [];
  latest_sync = elim (rs.status) [
    | none ↦ acc.latest_sync
    | some status ↦ sync_time acc.latest_sync status.last_sync_time
  ];
}

-- the options of the list of claims: the selector and the owner label, over every namespace
abbrev pub protected_claims : List Requirement → Requirement → ListOptions
protected_claims requirements owner = record {
  in_namespace = none;
  matching_labels = [];
  selector = requirements ++ owner ∷ [];
}

-- `p != nil`
abbrev pub not_nil : {A : Type 0} → Option A → Bool
not_nil none = false
not_nil (some a) = true

-- `return *result, err`: a nil result cannot be dereferenced, and the caller of a reconciler does
-- not read the result that stands beside an error
unfoldable pub return_result : {W : Type 0} → Option Result → Option Error → Exec (Session W) Result
return_result none failure = crash
return_result (some result) none = pure result
return_result (some result) (some e) = fail e

module _ (C : Client) where
  -- reconcileReplicationSources, with reconcilePVCReplicationSource
  unfoldable pub reconcile_replication_sources :
      VsHandler → PrimaryConfig → List Pvc → Protected → Exec C.World Protected
  reconcile_replication_sources v config [] acc = pure acc
  reconcile_replication_sources v config (pvc ∷ pvcs) acc =
      let later = reconcile_replication_sources v config pvcs in
      if is_volsync_owned pvc
      then later acc
      else (do rs ← reconcile_rs C v (rs_arguments pvc config); later (protect pvc.name rs acc))

  -- the fields that updateStatus sets
  abbrev pub primary_status : Protected → Vgr → Vgr
  primary_status protected vgr = record vgr {
    status = record (vgr.status) {
      state = primary_state;
      pvc_refs = protected.pvcs;
      last_sync_time = protected.latest_sync;
      observed_generation = vgr.generation;
    };
  }

  -- updateStatus
  unfoldable pub update_status : Protected → Exec (Session C.World) (Unit {0})
  update_status protected = do
    modify_vgr (primary_status protected)
    set_vgr_condition C "Completed" true "Promoted"
        "volume group is promoted to primary and replicating to secondary"
    set_vgr_condition C "Validated" true "PrerequisiteMet"
        "volume group is validated and met all prerequisites"
    set_vgr_condition C "Degraded" false "Healthy" "volume group is healthy"
    set_vgr_condition C "Resyncing" false "NotResyncing" "volume group is not resyncing"
    set_vgr_condition C "Replicating" true "Replicating"
        "volume group is replicating: local group is primary"
    update_vgr_status C

  -- phases 5 to 8 of Reconcile
  unfoldable pub protect_claims : VgrClass → List Pvc → Exec (Session C.World) Result
  protect_claims vgr_class pvcs = do
    vgr ← the_vgr
    let config = primary_configuration vgr_class.parameters
    protected ← on_world (
        reconcile_replication_sources (handler_for vgr config.scheduling_interval) config pvcs
          (record { pvcs = []; latest_sync = none }))
    update_status protected
    pure requeue_interval

  unfoldable pub requirement_or_crash : Outcome Requirement → Exec (Session C.World) Requirement
  requirement_or_crash (ok requirement) = pure requirement
  requirement_or_crash (err e) = crash
  requirement_or_crash panic = crash

  -- `labels.NewRequirement`, whose error is dropped and whose result is then dereferenced
  unfoldable pub owner_requirement : String → Exec (Session C.World) Requirement
  owner_requirement name = requirement_or_crash (C.new_requirement vgr_owner_label name)

  -- `len(pvcList.Items) == 0` and what follows it
  unfoldable pub reconcile_listed : VgrClass → List Pvc → Exec (Session C.World) Result
  reconcile_listed vgr_class [] = pure requeue_interval
  reconcile_listed vgr_class (pvc ∷ pvcs) = protect_claims vgr_class (pvc ∷ pvcs)

  -- Reconcile from phase 4
  unfoldable pub reconcile_selected : VgrClass → List Requirement → Exec (Session C.World) Result
  reconcile_selected vgr_class requirements = do
    vgr ← the_vgr
    owner ← owner_requirement vgr.name
    pvcs ← on_world (C.list_pvcs (protected_claims requirements owner))
    reconcile_listed vgr_class pvcs

  -- `if result, err := r.checkVRGConflict(); err != nil || result != nil { return *result, err }`
  unfoldable pub after_conflict :
      VgrClass → List Requirement → ConflictCheck → Exec (Session C.World) Result
  unfolding return_result
  after_conflict vgr_class requirements check =
      if not_nil check.failure || not_nil check.result
      then return_result check.result check.failure
      else reconcile_selected vgr_class requirements

  -- Reconcile, by the selector
  unfoldable pub reconcile_by :
      VgrClass → Vgr → Option LabelSelector → Exec (Session C.World) Result
  reconcile_by vgr_class vgr none = pure requeue_interval
  reconcile_by vgr_class vgr (some selector) = do
    requirements ← wrapping "invalid pvcSelector: " (lift (C.label_selector_as_selector selector))
    conflict ← on_world (check_vrg_conflict C vgr)
    after_conflict vgr_class requirements conflict

  -- Reconcile
  unfoldable pub reconcile : VgrClass → Exec (Session C.World) Result
  reconcile vgr_class = do vgr ← the_vgr; reconcile_by vgr_class vgr vgr.selector
