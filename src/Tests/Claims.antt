-- ===== src/Tests/Claims.antt =====
-- The theorems on one claim, its source, its destination and its temporary claim, applied to a
-- claim that is bound to a volume.
use mock_storage_operator.Prelude.{
  not_some, some_inj, refl, sym, ap, true, false, none, some, [], ◌∷◌,
}
use mock_storage_operator.Prelude.Dict
use mock_storage_operator.Objects.{Key, key_of, Pvc, Pv, Rs, Rd, claim_bound, reclaim_retain}
use mock_storage_operator.Volsync.{VsHandler}
use mock_storage_operator.Volsync.Destination.{fresh_meta, RdArguments, rd_spec, reconcile_rd}
use mock_storage_operator.Volsync.Source.{RsArguments, rs_spec, reconcile_rs}
use mock_storage_operator.Volsync.Source.Effects.{SourceProvided, reconcile_rs-provided}
use mock_storage_operator.Volsync.Destination.Effects.{DestinationProvided, reconcile_rd-provided}
use mock_storage_operator.Volsync.Temporary.{create_temporary_pvc_from_terminating}
use mock_storage_operator.Volsync.Temporary.Made.{TemporaryMade, create_temporary-made}
use mock_storage_operator.Volsync.Restore.{
  main_key_for, temporary_key_for, restore_pvc_from_temporary,
}
use mock_storage_operator.Volsync.Restore.Done.{Restored, restore-done}
use mock_storage_operator.Prelude.Text.{has_suffix, trim_suffix}
use mock_storage_operator.Exec.{reason, is_not_found, is_already_exists, ◌>>=◌}
use mock_storage_operator.Volsync.{
  add_vgr_owner_label, get_replication_destination_name, get_replication_source_name,
  get_local_service_name_for_rd,
}
use mock_storage_operator.Volsync.Claims.{
  is_zero_time, set_label, owner_labels, add_finalizer_to, add_finalizer_to_pvc,
  remove_finalizer_from, remove_finalizer_from_pvc, terminating_of, is_pvc_terminating,
  get_pv_from_pvc, ensure_labels_of, ensure_pvc_labels, secret_found,
  validate_secret_and_add_owner_ref,
}
use mock_storage_operator.Volsync.Schedule.{
  scan_digits, in_range, scan_signed, is_space, scan_int, split_last, lower_unit, capped_days,
  cron_spec_of, found_spec, convert_parts, convert_scheduling_interval_to_cron_spec,
  get_schedule_cron_spec,
}
use mock_storage_operator.Volsync.Cleanup.{delete_found_rs, delete_rs, delete_found_rd, delete_rd}
use mock_storage_operator.Volsync.Temporary.{
  keeps_annotation, temporary_annotations, temporary_pvc, refers_to, create_if_missing,
  point_volume_at,
}
use mock_storage_operator.Volsync.Restore.{
  restores_annotation, copy_label, restored_labels, restored_pvc, created_or_exists,
  deleted_or_missing, recreate, restore_existing, restore_over, restore_from,
}
use mock_storage_operator.Volsync.Source.{create_or_update_rs, mutate_rs, provide_rs}
use mock_storage_operator.Volsync.Destination.{
  create_or_update_rd, mutate_rd, modes_or_default, rd_status_ready,
  reconcile_service_export_for_rd, provide_rd, reconcile_live_rd,
}
use mock_storage_operator.Tests.Memory.{Memory, memory, put_pvc, put_pv, put_rd}
use mock_storage_operator.Tests.Lawful.{memory_laws}

abbrev pub empty : Memory
empty = record {
  cluster = record { pvc = λ _. none; pv = λ _. none; rs = λ _. none; rd = λ _. none };
  pvc_key = λ k p e. absurd (not_some e);
  pv_name = λ n v e. absurd (not_some e);
  rs_key = λ k r e. absurd (not_some e);
  rd_key = λ k r e. absurd (not_some e);
  pvc_names = record { keys = []; all = λ k p e. absurd (not_some e) };
  rs_names = record { keys = []; all = λ k r e. absurd (not_some e) };
  rd_names = record { keys = []; all = λ k r e. absurd (not_some e) };
  environment = record { vgr = none; vgr_class = none; vrgs = []; pods = [] };
  deletions = 0;
}

abbrev pub data_key : Key
data_key = record { namespace = "app"; name = "data" }

abbrev pub data_claim : Pvc
data_claim = record {
  meta = record (fresh_meta "app" "data") {
    labels = ("ramendr.openshift.io/consistency-group", "cg") ∷ [];
  };
  spec = record {
    access_modes = "ReadWriteOnce" ∷ [];
    requests = ("storage", "1Gi") ∷ [];
    limits = [];
    storage_class_name = some "fast";
    volume_mode = none;
    selector = none;
    data_source = none;
    data_source_ref = none;
    volume_attributes_class_name = none;
    volume_name = "pv-1";
  };
  phase = claim_bound;
}

abbrev pub volume : Pv
volume = record { name = "pv-1"; reclaim_policy = reclaim_retain; claim_ref = none }

abbrev pub one_claim : Memory
one_claim =
    put_pv
      (put_pvc empty data_key (some data_claim)
        (λ a e. ap (λ (x : Pvc). key_of x.meta) (sym (some_inj e))))
      volume

abbrev pub handler : VsHandler
handler = record {
  owner = record { namespace = "app"; name = "group" };
  scheduling_interval = "10m";
}

abbrev rs_args : RsArguments
rs_args = record {
  claim = data_key;
  remote_address = "remote";
  psk_secret_name = "psk";
  storage_class_name = some "fast";
  access_modes = "ReadWriteOnce" ∷ [];
  volume_snapshot_class_name = none;
}

abbrev rs_made : Rs
rs_made = record {
  meta = record (fresh_meta "app" "data") {
    labels =
        ("volumegroupreplication-owner", "group")
        ∷ ("volumegroupreplication-owner-namespace", "app")
        ∷ [];
  };
  spec = rs_spec rs_args "*/10 * * * *" false;
  status = none;
}

reconcile_rs-provided_example :
    SourceProvided memory memory_laws handler rs_args
      (memory_laws.view one_claim)
      (memory_laws.view (reconcile_rs memory handler rs_args one_claim).1)
      rs_made
unfolding reconcile_rs has_suffix ◌>>=◌ is_pvc_terminating terminating_of is_zero_time
    validate_secret_and_add_owner_ref secret_found provide_rs delete_rd delete_found_rd is_not_found
    reason ensure_pvc_labels ensure_labels_of owner_labels set_label Dict.index Dict.lookup
    Dict.insert add_finalizer_to add_finalizer_to_pvc capped_days convert_parts
    convert_scheduling_interval_to_cron_spec cron_spec_of found_spec get_schedule_cron_spec in_range
    is_space lower_unit scan_digits scan_int scan_signed split_last create_or_update_rs mutate_rs
    add_vgr_owner_label get_replication_destination_name get_replication_source_name
reconcile_rs-provided_example =
    reconcile_rs-provided memory memory_laws handler rs_args one_claim
      (reconcile_rs memory handler rs_args one_claim).1 rs_made refl

abbrev rd_args : RdArguments
rd_args = record {
  claim = data_key;
  capacity = some "1Gi";
  storage_class_name = some "fast";
  access_modes = [];
  psk_secret_name = "psk";
  service_type = some "ClusterIP";
  consistency_group = "cg";
}

-- a destination that has an address
abbrev rd_there : Rd
rd_there = record {
  meta = fresh_meta "app" "data";
  rsync_tls = none;
  status =
      some (record { rsync_tls = some (record { address = some "10.0.0.1"; key_secret = none }) });
}

abbrev one_destination : Memory
one_destination =
    put_rd one_claim data_key (some rd_there)
      (λ a e. ap (λ (x : Rd). key_of x.meta) (sym (some_inj e)))

abbrev rd_made : Rd
rd_made = record rd_there { meta = rs_made.meta; rsync_tls = some (rd_spec rd_args) }

reconcile_rd-provided_example :
    DestinationProvided memory memory_laws handler rd_args
      (memory_laws.view one_destination)
      (memory_laws.view (reconcile_rd memory handler rd_args one_destination).1)
      rd_made
unfolding reconcile_rd has_suffix ◌>>=◌ is_pvc_terminating terminating_of is_zero_time
    reconcile_live_rd Dict.lookup Dict.insert validate_secret_and_add_owner_ref secret_found
    provide_rd delete_rs delete_found_rs is_not_found reason create_or_update_rd mutate_rd
    add_vgr_owner_label get_replication_destination_name get_replication_source_name
    get_local_service_name_for_rd add_finalizer_to add_finalizer_to_pvc modes_or_default
    rd_status_ready reconcile_service_export_for_rd
reconcile_rd-provided_example =
    reconcile_rd-provided memory memory_laws handler rd_args one_destination
      (reconcile_rd memory handler rd_args one_destination).1 rd_made refl

create_temporary-made_example :
    TemporaryMade memory memory_laws data_key true
      (memory_laws.view one_claim)
      (memory_laws.view (create_temporary_pvc_from_terminating memory data_key true one_claim).1)
unfolding create_temporary_pvc_from_terminating ◌>>=◌ get_pv_from_pvc create_if_missing
    point_volume_at temporary_pvc temporary_annotations keeps_annotation refers_to is_not_found
    reason remove_finalizer_from_pvc remove_finalizer_from Dict.insert Dict.filter_keys
create_temporary-made_example =
    create_temporary-made memory memory_laws data_key true one_claim
      (create_temporary_pvc_from_terminating memory data_key true one_claim).1 refl

-- the claim's temporary claim is there, and the claim is not
abbrev only_temporary : Memory
only_temporary =
    put_pv
      (put_pvc empty (record data_key { name = "data-tmp" })
        (some (record data_claim { meta = fresh_meta "app" "data-tmp" }))
        (λ a e. ap (λ (x : Pvc). key_of x.meta) (sym (some_inj e))))
      volume

restore-done_example :
    Restored memory memory_laws
      (main_key_for data_key)
      ((memory_laws.view only_temporary).pvc (temporary_key_for data_key))
      (memory_laws.view only_temporary)
      (memory_laws.view (restore_pvc_from_temporary memory data_key only_temporary).1)
unfolding restore_pvc_from_temporary has_suffix trim_suffix ◌>>=◌ temporary_key_for main_key_for
    restore_from restore_over restore_existing recreate restored_pvc restored_labels copy_label
    restores_annotation created_or_exists deleted_or_missing get_pv_from_pvc is_not_found
    is_already_exists reason remove_finalizer_from_pvc remove_finalizer_from Dict.insert
    Dict.filter_keys Dict.lookup
restore-done_example =
    restore-done memory memory_laws data_key only_temporary
      (restore_pvc_from_temporary memory data_key only_temporary).1 refl
