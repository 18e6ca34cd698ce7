-- ===== src/Tests/Reconcilers.antt =====
-- The theorems on the reconcilers, applied to a group with one claim.
use mock_storage_operator.Prelude.{
  some_inj, Bool, ◌≡◌, sym, ap, refl, true, false, ◌<>◌, Option, none, some, [], ◌∷◌,
}
use mock_storage_operator.Prelude.Dict
use mock_storage_operator.Prelude.Dict.{lookup}
use mock_storage_operator.Exec.{ok, err, panic, errorf, Outcome, ◌>>=◌, Exec}
use mock_storage_operator.Exec.Preserves.{Preserves}
use mock_storage_operator.Objects.{
  Key, key_of, Pvc, Rs, Rd, Vrg, Vgr, VgrClass, Condition, relocate, primary, secondary,
  primary_state, unknown_state,
}
use mock_storage_operator.Client.{Client}
use mock_storage_operator.Client.Footprint.{Reads, SourceWrites, PauseWrites, CleanupWrites}
use mock_storage_operator.Volsync.Schedule.{get_schedule_cron_spec}
use mock_storage_operator.Volsync.Destination.{fresh_meta}
use mock_storage_operator.Volsync.Temporary.{temporary_pvc, temporary_key, keeps_annotation}
use mock_storage_operator.Volsync.Restore.{restored_pvc, main_key_for, temporary_key_for}
use mock_storage_operator.Volsync.Restore.RoundTrip.{Remade, restored_pvc-Remade}
use mock_storage_operator.Volsync.Restore.Effects.{temporary_key-main_key_for}
use mock_storage_operator.Controller.Session.{Session, on_world, modify_vgr}
use mock_storage_operator.Controller.Session.Footprint.{OnWorld}
use mock_storage_operator.Controller.Conditions.{set_condition}
use mock_storage_operator.Controller.Conditions.Lookup.{
  condition_of, occurrences, condition_of-set_condition, occurrences-set_condition,
}
use mock_storage_operator.Controller.Configuration.{primary_configuration, secondary_configuration}
use mock_storage_operator.Controller.Configuration.Intervals.{
  schedule_for, configuration-schedule_for,
}
use mock_storage_operator.Controller.Primary
use mock_storage_operator.Controller.Primary.Footprint.{primary_reconcile-Preserves}
use mock_storage_operator.Controller.Primary.Conflict.{reconcile-paused_outcome}
use mock_storage_operator.Controller.Secondary.Phases.{is_waiting}
use mock_storage_operator.Controller.Secondary.Waiting.{in_use-not_waiting}
use mock_storage_operator.Controller.Delete.{clean_up}
use mock_storage_operator.Controller.Delete.Footprint.{clean_up-Preserves}
use mock_storage_operator.Controller.FinalSync.{
  FinalSyncResult, process_final_sync, should_run_final_sync, final_sync_due, requires_final_sync,
  run_final_sync, first_phase, first_phase_step, second_phase, second_phase_step,
}
use mock_storage_operator.Controller.FinalSync.Trigger.{
  is_pvc_in_use, find_user, trigger_final_sync_for_pvc, final_sync_rs,
}
use mock_storage_operator.Controller.Conditions.{
  set_vgr_condition, with_condition, is_final_sync_complete,
}
use mock_storage_operator.Volsync.Claims.{
  is_pvc_terminating, terminating_of, is_zero_time, get_pv_from_pvc,
}
use mock_storage_operator.Volsync.Temporary.{
  create_temporary_pvc_from_terminating, create_if_missing, point_volume_at, temporary_annotations,
  refers_to, has_temporary_pvc, found as tmp_found,
}
use mock_storage_operator.Prelude.Text.{has_suffix}
use mock_storage_operator.Exec.{is_not_found, reason}
use mock_storage_operator.Controller.FinalSync.Counting.{process_final_sync_complete}
use mock_storage_operator.Tests.Memory.{
  Memory, memory, put_pvc, update_pvc_at, delete_rs_at, delete_rd_at, store_rs_at, upsert_rs_at,
  or_given,
}
use mock_storage_operator.Client.Laws.{key_eq}
use mock_storage_operator.Controller.Primary.Pausing.{pause_all_replication_sources}
use mock_storage_operator.Tests.Claims.{one_claim, data_key, data_claim, volume}

abbrev group : Vgr
group = record {
  meta = record (fresh_meta "app" "group") {
    finalizers = "mock.storage.io/volumegroupreplication" ∷ [];
  };
  generation = 1;
  class_name = "class";
  replication_state = primary;
  selector = some (record { match_labels = []; match_expressions = [] });
  status = record {
    state = unknown_state;
    conditions = [];
    pvc_refs = [];
    last_sync_time = none;
    observed_generation = 0;
  };
}

abbrev class : VgrClass
class = record { meta = fresh_meta "" "class"; provisioner = "mock"; parameters = [] }

-- a cluster that lists the claim, the group and its class
abbrev listed : Memory
listed = record one_claim {
  environment = record (one_claim.environment) { vgr = some group; vgr_class = some class };
}

abbrev session : Session Memory
session = record { world = listed; vgr = group }

-- no claim has been deleted
abbrev NoDeletion : Memory → Type 0
NoDeletion w = w.deletions ≡ 0

kept :
    {A : Type 0} (m : Exec Memory A)
    → ((w : Memory) → NoDeletion w → NoDeletion (m w).1)
    → Preserves NoDeletion m
kept m h = record { after = h }

update_kept :
    (p : Pvc) (w : Memory) (o : Option Pvc) → NoDeletion w → NoDeletion (update_pvc_at p w o).1
update_kept p w none h = h
update_kept p w (some q) h = h

delete_rs_kept :
    (k : Key) (w : Memory) (o : Option Rs) → NoDeletion w → NoDeletion (delete_rs_at k w o).1
delete_rs_kept k w none h = h
delete_rs_kept k w (some q) h = h

delete_rd_kept :
    (k : Key) (w : Memory) (o : Option Rd) → NoDeletion w → NoDeletion (delete_rd_at k w o).1
delete_rd_kept k w none h = h
delete_rd_kept k w (some q) h = h

store_kept :
    (k : Key) (w : Memory) (r : Rs) (b : Bool) (e : key_eq (key_of r.meta) k ≡ b)
    → NoDeletion w
    → NoDeletion (store_rs_at k w r b e).1
store_kept k w r true e h = h
store_kept k w r false e h = h

upsert_kept :
    (k : Key) (w : Memory) (o : Outcome Rs) → NoDeletion w → NoDeletion (upsert_rs_at k w o).1
upsert_kept k w (ok r) h = store_kept k w r _ refl h
upsert_kept k w (err e) h = h
upsert_kept k w panic h = h

reads : Reads memory NoDeletion
reads = record {
  get_pvc = λ k. kept _ (λ w h. h);
  list_pvcs = λ o. kept _ (λ w h. h);
  get_pv = λ n. kept _ (λ w h. h);
  get_rs = λ k. kept _ (λ w h. h);
  list_rss = λ o. kept _ (λ w h. h);
  get_rd = λ k. kept _ (λ w h. h);
  list_rds = λ o. kept _ (λ w h. h);
  get_secret = λ k. kept _ (λ w h. h);
  list_pods = λ o. kept _ (λ w h. h);
  get_vgr = λ k. kept _ (λ w h. h);
  list_vgrs = λ o. kept _ (λ w h. h);
  get_vgr_class = λ n. kept _ (λ w h. h);
  get_vrg = λ k. kept _ (λ w h. h);
  list_vrgs = λ o. kept _ (λ w h. h);
  now = kept _ (λ w h. h);
}

update_pvc : (p : Pvc) → Preserves NoDeletion (memory.update_pvc p)
update_pvc p = kept _ (λ w h. update_kept p w _ h)

source_writes : SourceWrites memory NoDeletion
source_writes = record {
  update_pvc = update_pvc;
  delete_rd = λ k. kept _ (λ w h. delete_rd_kept k w _ h);
  create_or_update_rs = λ rs f.
      kept _
        (λ w h. upsert_kept (key_of rs.meta) w (f (or_given rs (w.cluster.rs (key_of rs.meta)))) h);
}

pause_writes : PauseWrites memory NoDeletion
pause_writes = record {
  update_rs = λ rs. kept _ (λ w h. h);
  delete_job = λ k. kept _ (λ w h. h);
  delete_pod = λ k. kept _ (λ w h. h);
}

cleanup_writes : CleanupWrites memory NoDeletion
cleanup_writes = record {
  delete_rs = λ k. kept _ (λ w h. delete_rs_kept k w _ h);
  delete_rd = λ k. kept _ (λ w h. delete_rd_kept k w _ h);
}

primary_reconcile-Preserves_example :
    Preserves (OnWorld NoDeletion) (Primary.reconcile memory class)
primary_reconcile-Preserves_example =
    primary_reconcile-Preserves memory reads source_writes pause_writes (λ vgr. kept _ (λ w h. h))
      class

clean_up-Preserves_example : Preserves NoDeletion (clean_up memory group)
clean_up-Preserves_example = clean_up-Preserves memory reads cleanup_writes update_pvc group refl

-- an API server that does not list sources or VolumeReplicationGroups
abbrev down : Client
down = record memory { list_rss = λ _ w. (err (errorf "down"), w) }

abbrev relocating : Vrg
relocating = record {
  meta = fresh_meta "app" "vrg";
  action = relocate;
  replication_state = secondary;
  state = primary_state;
}

abbrev conflicting : Memory
conflicting = record listed { environment = record (listed.environment) { vrgs = relocating ∷ [] } }

reconcile-paused_outcome_example :
    Primary.reconcile down class (record { world = conflicting; vgr = group })
    ≡ (panic, record { world = conflicting; vgr = group })
unfolding pause_all_replication_sources ◌>>=◌
reconcile-paused_outcome_example =
    reconcile-paused_outcome down class group (record { match_labels = []; match_expressions = [] })
      [] [] [] relocating conflicting conflicting refl refl refl refl

in_use-not_waiting_example : is_waiting (errorf ("PVC " <> ("data" <> " still in use"))) ≡ false
in_use-not_waiting_example = in_use-not_waiting "data" refl

abbrev degraded : Condition
degraded = record {
  cond_type = "Degraded";
  status = false;
  reason = "Healthy";
  message = "";
  last_transition_time = 1;
  observed_generation = 1;
}

condition_of-set_condition_example :
    condition_of "Degraded" (set_condition degraded (record degraded { status = true } ∷ []))
    ≡ some degraded
condition_of-set_condition_example =
    condition_of-set_condition degraded (record degraded { status = true } ∷ []) "Degraded"

occurrences-set_condition_example :
    occurrences "Degraded" (set_condition degraded (record degraded { status = true } ∷ [])) ≡ 1
unfolding occurrences
occurrences-set_condition_example =
    occurrences-set_condition degraded (record degraded { status = true } ∷ []) "Degraded"

abbrev zero_minutes : Dict.Dict
zero_minutes = ("schedulingInterval", "0m") ∷ []

configuration-schedule_for_example :
    (get_schedule_cron_spec (record {
      owner = data_key;
      scheduling_interval = (primary_configuration zero_minutes).scheduling_interval;
    })
      ≡ schedule_for "0m")
    × (get_schedule_cron_spec (record {
      owner = data_key;
      scheduling_interval = (secondary_configuration zero_minutes).scheduling_interval;
    })
        ≡ schedule_for "0m")
unfolding Dict.index Dict.lookup
configuration-schedule_for_example = configuration-schedule_for data_key zero_minutes

restored_pvc-Remade_example :
    Remade data_key data_claim volume
      (restored_pvc data_key (temporary_pvc data_key data_claim volume) volume)
restored_pvc-Remade_example = restored_pvc-Remade data_key data_key data_claim volume volume

temporary_key-main_key_for_example :
    temporary_key (main_key_for (record data_key { name = "data-tmp" }))
    ≡ temporary_key_for (record data_key { name = "data-tmp" })
temporary_key-main_key_for_example =
    temporary_key-main_key_for (record data_key { name = "data-tmp" })

-- the claim is being deleted, its source has run its final sync
abbrev leaving : Pvc
leaving = record data_claim { meta = record (data_claim.meta) { deletion_timestamp = some 5 } }

abbrev synced : Rs
synced = record {
  meta = fresh_meta "app" "data";
  spec = record { source_pvc = "data"; paused = false; trigger = none; rsync_tls = none };
  status = some (record { last_manual_sync = "vgr-final-sync"; last_sync_time = none });
}

abbrev syncing : Client
syncing = record memory {
  get_vrg = λ _ w. (ok relocating, w);
  get_rs = λ _ w. (ok synced, w);
  update_rs = λ r w. (ok r, w);
}

abbrev relocated : Vgr
relocated = record group {
  meta = record (group.meta) {
    labels =
        ("ramendr.openshift.io/owner-name", "vrg")
        ∷ ("ramendr.openshift.io/owner-namespace-name", "app")
        ∷ [];
  };
}

abbrev leaving_session : Session Memory
leaving_session = record {
  world =
      put_pvc one_claim data_key (some leaving)
        (λ a e. ap (λ (x : Pvc). key_of x.meta) (sym (some_inj e)));
  vgr = relocated;
}

abbrev finished : FinalSyncResult
finished = record { all_complete = true; pvcs_in_sync = []; total_pvcs = 1 }

process_final_sync_complete_example : finished.pvcs_in_sync ≡ []
unfolding process_final_sync ◌>>=◌ should_run_final_sync final_sync_due requires_final_sync on_world
    modify_vgr run_final_sync set_vgr_condition with_condition set_condition first_phase
    first_phase_step second_phase second_phase_step is_pvc_terminating terminating_of is_zero_time
    create_temporary_pvc_from_terminating get_pv_from_pvc create_if_missing point_volume_at
    temporary_pvc temporary_annotations keeps_annotation refers_to is_not_found reason
    has_temporary_pvc tmp_found is_pvc_in_use find_user trigger_final_sync_for_pvc final_sync_rs
    is_final_sync_complete has_suffix Dict.insert Dict.filter_keys Dict.lookup Dict.index
process_final_sync_complete_example =
    process_final_sync_complete syncing (leaving ∷ []) (leaving ∷ []) leaving_session
      (process_final_sync syncing (leaving ∷ []) leaving_session).1 finished refl refl
