-- ===== src/Controller/Reconciler.antt =====
-- internal/controller/volumegroupreplication_controller.go: Reconcile of the controller, and the
-- map from events of a VolumeReplicationGroup to requests.
use mock_storage_operator.Prelude.{
  Bool, true, false, not, String, ◌==◌, Option, some, List, [], ◌∷◌, if◌then◌else◌,
}
use mock_storage_operator.Exec.{
  Exec, Outcome, ok, err, Reply, value, error, is_not_found, pure, fail, lift, attempt, ◌>>=◌, ◌>>◌,
}
use mock_storage_operator.Objects.{
  Key, key_of, Vgr, Vrg, VgrClass, ReplicationState, primary, secondary, other_replication,
}
use mock_storage_operator.Client.{Client}
use mock_storage_operator.Volsync.Claims.{is_zero_time}
use mock_storage_operator.Controller.Session.{
  Session, Result, no_requeue, on_world, the_vgr, modify_vgr, update_vgr_status,
}
use mock_storage_operator.Controller.FinalSync.Trigger.{in_namespace}
use mock_storage_operator.Controller.Delete.{vgr_finalizer}
use mock_storage_operator.Controller.Primary
use mock_storage_operator.Controller.Secondary
use mock_storage_operator.Controller.Delete

-- `ctrl.Result{Requeue: true}`
abbrev pub requeue_now : Result
requeue_now = record { requeue = true; requeue_after = 0 }

-- `return result, err` with what a reconciler returned
unfoldable pub outcome_of : Reply Result → Outcome Result
outcome_of (value result) = ok result
outcome_of (error e) = err e

-- the keys of a list of VGRs
unfoldable pub requests_of : List Vgr → List Key
requests_of [] = []
requests_of (vgr ∷ vgrs) = key_of vgr.meta ∷ requests_of vgrs

-- `old.Spec.ReplicationState != new.Spec.ReplicationState`
unfoldable pub replication_state_eq : ReplicationState → ReplicationState → Bool
replication_state_eq primary primary = true
replication_state_eq secondary secondary = true
replication_state_eq (other_replication a) (other_replication b) = a == b
replication_state_eq _ _ = false

-- the events of the watch on VRGs; an update holds its two objects if they are VRGs
pub data Event : Type 0 where
  create_event delete_event generic_event : Event
  update_event : Option Vrg → Option Vrg → Event

-- vrgPredicate
unfoldable pub vrg_predicate : Event → Bool
vrg_predicate create_event = true
vrg_predicate delete_event = false
vrg_predicate generic_event = false
vrg_predicate (update_event (some old) (some new)) =
    not (replication_state_eq old.replication_state new.replication_state)
vrg_predicate (update_event _ _) = false

module _ (C : Client) where
  -- the VGR with the finalizer
  abbrev pub guarded : Vgr → Vgr
  guarded vgr = record vgr {
    meta = record (vgr.meta) { finalizers = C.add_finalizer vgr.finalizers vgr_finalizer };
  }

  -- the status is written back whatever the reconciler returned
  unfoldable pub with_status_update : Exec (Session C.World) Result → Exec (Session C.World) Result
  with_status_update reconciler = do
    returned ← attempt reconciler
    update_vgr_status C
    lift (outcome_of returned)

  -- the `switch vgr.Spec.ReplicationState`
  unfoldable pub reconcile_state : VgrClass → ReplicationState → Exec (Session C.World) Result
  reconcile_state vgr_class primary = with_status_update (Primary.reconcile C vgr_class)
  reconcile_state vgr_class secondary = with_status_update (Secondary.reconcile C vgr_class)
  reconcile_state vgr_class (other_replication state) = pure no_requeue

  -- a VGR of this provisioner that is not being deleted
  unfoldable pub reconcile_live : VgrClass → Exec (Session C.World) Result
  reconcile_live vgr_class = do
    vgr ← the_vgr
    if not (C.contains_finalizer vgr.finalizers vgr_finalizer)
        then (do
          modify_vgr guarded
          vgr' ← the_vgr
          stored ← on_world (C.update_vgr vgr')
          modify_vgr (λ _. stored)
          pure requeue_now)
        else reconcile_state vgr_class vgr.replication_state

  -- Reconcile once the VGR is read
  unfoldable pub reconcile_read : String → Exec (Session C.World) Result
  reconcile_read provisioner_name = do
    vgr ← the_vgr
    vgr_class ← on_world (C.get_vgr_class vgr.class_name)
    if not (vgr_class.provisioner == provisioner_name)
        then pure no_requeue
        else if not (is_zero_time vgr.deletion_timestamp)
        then Delete.reconcile C
        else reconcile_live vgr_class

  -- a reconciler on an object in memory, seen from outside
  unfoldable pub with_session : {A : Type 0} → Vgr → Exec (Session C.World) A → Exec C.World A
  with_session vgr m w = let (r, s) = m (record { world = w; vgr = vgr }) in (r, s.world)

  unfoldable pub reconcile_got : String → Reply Vgr → Exec C.World Result
  unfolding with_session
  reconcile_got provisioner_name (error e) = if is_not_found e then pure no_requeue else fail e
  reconcile_got provisioner_name (value vgr) = with_session vgr (reconcile_read provisioner_name)

  -- Reconcile
  unfoldable pub reconcile : String → Key → Exec C.World Result
  reconcile provisioner_name request = do
    got ← attempt (C.get_vgr request)
    reconcile_got provisioner_name got

  unfoldable pub requests_or_none : Reply (List Vgr) → Exec C.World (List Key)
  unfolding requests_of
  requests_or_none (value vgrs) = pure (requests_of vgrs)
  requests_or_none (error e) = pure []

  -- vrgToVGRRequests; a failed list gives no request
  unfoldable pub vrg_to_vgr_requests : Vrg → Exec C.World (List Key)
  unfolding requests_of
  vrg_to_vgr_requests vrg = do
    got ← attempt (C.list_vgrs (in_namespace vrg.namespace))
    requests_or_none got
