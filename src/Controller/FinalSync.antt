-- ===== src/Controller/FinalSync.antt =====
-- internal/controller/finalsync_handler.go: the last synchronisation before a relocation, from the
-- application's claims that terminate, through temporary claims that hold their volumes.
pub mod Trigger
pub mod Counting
pub mod Footprint
use mock_storage_operator.Prelude.{
  ℕ, zero, suc, ◌+◌, Bool, true, false, not, ◌&&◌, ◌||◌, String, ◌<>◌, ◌==◌, Option, none, some,
  List, [], ◌∷◌, ◌++◌, eqb, has_suffix, if◌then◌else◌,
}
use mock_storage_operator.Prelude.Dict
use mock_storage_operator.Exec.{Exec, Reply, value, error, errorf, pure, fail, attempt, ◌>>=◌, ◌>>◌}
use mock_storage_operator.Objects.{
  Key, key_of, Pvc, Rs, Vgr, Vrg, ListOptions, primary, secondary, other_replication, primary_state,
  secondary_state, unknown_state, State, ReplicationState, VrgAction, failover, relocate,
  other_action,
}
use mock_storage_operator.Client.{Client}
use mock_storage_operator.Volsync.Claims.{is_pvc_terminating}
use mock_storage_operator.Volsync.Temporary.{
  create_temporary_pvc_from_terminating, has_temporary_pvc,
}
use mock_storage_operator.Controller.Session.{Session, on_world, the_vgr}
use mock_storage_operator.Controller.Conditions.{set_vgr_condition, is_final_sync_complete}
use Trigger.{
  handle_lost_temporary_pvc, pause_replication_source, trigger_final_sync_for_pvc, is_pvc_in_use,
  in_namespace,
}

abbrev pub is_secondary : ReplicationState → Bool
is_secondary secondary = true
is_secondary _ = false

abbrev pub is_secondary_state : State → Bool
is_secondary_state secondary_state = true
is_secondary_state _ = false

abbrev pub is_relocate : VrgAction → Bool
is_relocate relocate = true
is_relocate _ = false

-- the criteria of ShouldRunFinalSync on the VRG and the VGR
unfoldable pub requires_final_sync : Vrg → Vgr → Bool
requires_final_sync vrg vgr =
    is_relocate vrg.action
    && (is_secondary vrg.replication_state && not (is_secondary_state vgr.status.state))

-- the VRG that the VGR's labels name
abbrev pub owner_vrg : Vgr → Key
owner_vrg vgr = record {
  namespace = Dict.index "ramendr.openshift.io/owner-namespace-name" vgr.labels;
  name = Dict.index "ramendr.openshift.io/owner-name" vgr.labels;
}

pub record FinalSyncResult : Type 0 where
  pub all_complete : Bool
  pub pvcs_in_sync : List String
  pub total_pvcs : ℕ

abbrev pub count_items {ℓ} : {A : Type ℓ} → List A → ℕ
count_items [] = 0
count_items (x ∷ xs) = suc (count_items xs)

-- `%v` of a slice of texts
unfoldable pub joined : List String → String
joined [] = ""
joined (name ∷ []) = name
joined (name ∷ (next ∷ names)) = name <> (" " <> joined (next ∷ names))

-- isTemporaryPVC
abbrev pub is_temporary_pvc : Pvc → Bool
is_temporary_pvc pvc = has_suffix pvc.name "-tmp"

unfoldable pub all_complete : List Rs → Bool
unfolding is_final_sync_complete
all_complete [] = true
all_complete (rs ∷ rss) = is_final_sync_complete rs && all_complete rss

-- what the first loop of ProcessFinalSync collects. The claims are those of the list, whose
-- annotations the loop may change, since a copied struct shares its maps.
pub record FirstPhase : Type 0 where
  pub terminating : List String
  pub total : ℕ
  pub pvcs : List Pvc

pub record SecondPhase : Type 0 where
  pub completed : ℕ
  pub in_sync : List String

abbrev pub FinalSyncOutcome : Type 0
FinalSyncOutcome = FinalSyncResult × List Pvc

module _ (C : Client) where
  -- ShouldRunFinalSync from the reply to the read; a failed read is only logged
  unfoldable pub final_sync_due : Vgr → Reply Vrg → Exec (Session C.World) Bool
  final_sync_due vgr (error e) = pure false
  final_sync_due vgr (value vrg) = pure (requires_final_sync vrg vgr)

  -- ShouldRunFinalSync
  unfoldable pub should_run_final_sync : Exec (Session C.World) Bool
  unfolding requires_final_sync
  should_run_final_sync = do
    vgr ← the_vgr
    if (owner_vrg vgr).name == "" || (owner_vrg vgr).namespace == ""
        then pure false
        else do got ← attempt (on_world (C.get_vrg (owner_vrg vgr))); final_sync_due vgr got

  -- AreAllRSFinalSyncsComplete
  unfoldable pub are_all_rs_final_syncs_complete : Exec (Session C.World) Bool
  unfolding all_complete
  are_all_rs_final_syncs_complete = do
    vgr ← the_vgr
    items ← on_world (C.list_rss (in_namespace vgr.namespace))
    pure (all_complete items)

  -- handleTerminatingPVC
  abbrev pub handle_terminating_pvc : Pvc → Exec C.World (Unit {0})
  handle_terminating_pvc pvc = create_temporary_pvc_from_terminating C (key_of pvc.meta) false

  -- one claim of the first loop
  unfoldable pub first_phase_step : Pvc → FirstPhase → Exec C.World FirstPhase
  first_phase_step pvc acc =
      if is_temporary_pvc pvc
      then (do
        pvc' ← handle_lost_temporary_pvc C pvc
        pure (record acc { pvcs = acc.pvcs ++ pvc' ∷ [] }))
      else (do
        is_terminating ← is_pvc_terminating C (key_of pvc.meta)
        if is_terminating
            then (do
              handle_terminating_pvc pvc
              pure (record {
                terminating = acc.terminating ++ pvc.name ∷ [];
                total = acc.total + 1;
                pvcs = acc.pvcs ++ pvc ∷ [];
              }))
            else pure (record acc { total = acc.total + 1; pvcs = acc.pvcs ++ pvc ∷ [] }))

  unfoldable pub first_phase : List Pvc → FirstPhase → Exec C.World FirstPhase
  first_phase [] acc = pure acc
  first_phase (pvc ∷ pvcs) acc = first_phase_step pvc acc >>= first_phase pvcs

  -- one claim of the second loop
  unfoldable pub second_phase_step : Pvc → SecondPhase → Exec C.World SecondPhase
  second_phase_step pvc acc = if is_temporary_pvc pvc then pure acc else do
    has_temp_pvc ← has_temporary_pvc C (key_of pvc.meta)
    if not has_temp_pvc then pure acc else do
      in_use ← is_pvc_in_use C (key_of pvc.meta)
      if in_use
          then (do
            pause_replication_source C (key_of pvc.meta)
            fail (errorf ("PVC " <> (pvc.name <> " still in use"))))
          else (do
            complete ← trigger_final_sync_for_pvc C (key_of pvc.meta)
            pure (
                if complete
                then record acc { completed = acc.completed + 1 }
                else record acc { in_sync = acc.in_sync ++ pvc.name ∷ [] }))

  unfoldable pub second_phase : List Pvc → SecondPhase → Exec C.World SecondPhase
  second_phase [] acc = pure acc
  second_phase (pvc ∷ pvcs) acc = second_phase_step pvc acc >>= second_phase pvcs

  -- ProcessFinalSync after its first test
  unfoldable pub run_final_sync : List Pvc → Exec (Session C.World) FinalSyncOutcome
  run_final_sync pvcs = do
    set_vgr_condition C "Completed" false "FinalSync" "RunningFinalSync"
    one ← on_world (first_phase pvcs (record { terminating = []; total = 0; pvcs = [] }))
    if not (eqb (count_items one.terminating) one.total)
        then fail (errorf "waiting for PVCs to terminate")
        else (do
          two ← on_world (second_phase one.pvcs (record { completed = 0; in_sync = [] }))
          pure (
            record {
              all_complete = eqb two.completed one.total;
              pvcs_in_sync = two.in_sync;
              total_pvcs = one.total;
            },
            one.pvcs,
          ))

  -- ProcessFinalSync
  unfoldable pub process_final_sync : List Pvc → Exec (Session C.World) FinalSyncOutcome
  process_final_sync pvcs = do
    should ← should_run_final_sync
    vgr ← the_vgr
    if not should || is_secondary_state vgr.status.state
        then pure (record { all_complete = true; pvcs_in_sync = []; total_pvcs = 0 }, pvcs)
        else run_final_sync pvcs

  -- UpdateFinalSyncStatus
  unfoldable pub update_final_sync_status : FinalSyncResult → Exec (Session C.World) (Unit {0})
  update_final_sync_status result =
      if result.all_complete
      then set_vgr_condition C "Resyncing" false "NotResyncing" "volume group is not resyncing"
      else (do
        set_vgr_condition C "Resyncing" true "FinalSync" (
            "Waiting for final sync to complete. PVCs still running final sync ["
            <> (joined result.pvcs_in_sync <> "]"))
        fail (errorf "final sync in progress"))
