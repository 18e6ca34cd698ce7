-- ===== src/Controller/Conditions.antt =====
-- internal/controller/volumegroupreplication_controller.go: setCondition, isFinalSyncComplete,
-- isVolSyncOwned.
pub mod Lookup
use mock_storage_operator.Prelude.{
  Bool, false, String, ◌==◌, none, some, List, [], ◌∷◌, if◌then◌else◌,
}
use mock_storage_operator.Prelude.Dict
use mock_storage_operator.Exec.{Exec, ◌>>=◌}
use mock_storage_operator.Objects.{Condition, Vgr, Rs, Pvc}
use mock_storage_operator.Client.{Client}
use mock_storage_operator.Controller.Session.{Session, on_world, modify_vgr}

-- setCondition on the list, with the new condition's fields as one record
unfoldable pub set_condition : Condition → List Condition → List Condition
set_condition new [] = new ∷ []
set_condition new (c ∷ conditions) =
    if c.cond_type == new.cond_type
    then (record c {
      status = new.status;
      reason = new.reason;
      message = new.message;
      last_transition_time = new.last_transition_time;
      observed_generation = new.observed_generation;
    })
      ∷ conditions
    else c ∷ set_condition new conditions

unfoldable pub with_condition : Condition → Vgr → Vgr
with_condition c vgr = record vgr {
  status = record (vgr.status) { conditions = set_condition c vgr.status.conditions };
}

module _ (C : Client) where
  -- `setCondition(&vgr.Status.Conditions, …, vgr.Generation)`
  unfoldable pub set_vgr_condition :
      String → Bool → String → String → Exec (Session C.World) (Unit {0})
  set_vgr_condition cond_type status reason message = do
    now ← on_world C.now
    modify_vgr (λ vgr.
        with_condition
          (record {
            cond_type = cond_type;
            status = status;
            reason = reason;
            message = message;
            last_transition_time = now;
            observed_generation = vgr.generation;
          })
          vgr)

-- isFinalSyncComplete
unfoldable pub is_final_sync_complete : Rs → Bool
is_final_sync_complete rs = elim (rs.status) [
  | none ↦ false
  | some status ↦ status.last_manual_sync == "vgr-final-sync"
]

-- isVolSyncOwned
unfoldable pub is_volsync_owned : Pvc → Bool
is_volsync_owned pvc = elim (Dict.lookup "app.kubernetes.io/created-by" pvc.labels) [
  | none ↦ false
  | some created_by ↦ created_by == "volsync"
]
