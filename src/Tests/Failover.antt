-- ===== src/Tests/Failover.antt =====
-- The theorems on intervals, the schedule window and the failover check, applied.
use mock_storage_operator.Prelude.{
  ℕ, ◌*◌, ◌%◌, ◌^◌, ◌≤◌, ◌<◌, ◌≡◌, refl, inr, true, false, ◌<>◌, none, some, [], ◌∷◌, arith,
}
use mock_storage_operator.Prelude.Decimal.{all_digits, decimal}
use mock_storage_operator.Prelude.Dict
use mock_storage_operator.Prelude.Text.{has_suffix, trim_suffix}
use mock_storage_operator.Exec.{ok, ◌>>=◌, for_each}
use mock_storage_operator.Objects.{
  Vgr, Vrg, VgrClass, failover, primary, secondary_state, unknown_state,
}
use mock_storage_operator.Client.{Client}
use mock_storage_operator.Volsync.Destination.{fresh_meta}
use mock_storage_operator.Volsync.Schedule.{
  in_range, is_space, convert_scheduling_interval_to_cron_spec,
}
use mock_storage_operator.Volsync.Schedule.Printed.{min, convert_scheduling_interval-decimal}
use mock_storage_operator.Volsync.Schedule.Refused.{
  IsRefused, convert_scheduling_interval-IsRefused,
}
use mock_storage_operator.Controller.Session.{after_seconds}
use mock_storage_operator.Controller.Configuration.{primary_configuration, parameter}
use mock_storage_operator.Controller.Interval.{
  minute, is_white_space, trim_left, keep_unless_last, trim_right, trim_space, unsigned, atoi,
  minutes_duration, parse_trimmed, parse_scheduling_interval, within_ticks, within_last_tick,
  within_window, is_within_schedule_window,
}
use mock_storage_operator.Controller.Interval.Window.{
  clear_of_ticks, poll, is_within_schedule_window-clear_of_ticks, is_within_schedule_window-opens,
}
use mock_storage_operator.Controller.Interval.Bounds.{parse_scheduling_interval-bounds}
use mock_storage_operator.Controller.Interval.Printed.{parse_scheduling_interval-decimal}
use mock_storage_operator.Controller.Failover.{
  is_failover, is_primary_state, window_result, failover_result, check_failover_safety, stamped,
  stamp, update_pvc_annotations,
}
use mock_storage_operator.Controller.Failover.Waiting.{Waits, check_failover_safety-Waits}
use mock_storage_operator.Controller.Failover.Stamping.{
  AllStamped, update_pvc_annotations-AllStamped,
}
use mock_storage_operator.Tests.Memory.{memory}
use mock_storage_operator.Tests.Lawful.{memory_laws}
use mock_storage_operator.Tests.Claims.{one_claim, data_claim}

seven_minutes : parse_scheduling_interval " 7m" ≡ inr (7 * minute)
unfolding parse_scheduling_interval parse_trimmed trim_space trim_left trim_right keep_unless_last
    is_white_space is_space has_suffix trim_suffix atoi unsigned all_digits in_range
    minutes_duration
seven_minutes = refl

is_within_schedule_window-clear_of_ticks_example :
    is_within_schedule_window 500000000000 " 7m"
    ≡ clear_of_ticks (7 * minute) (500000000000 % (7 * minute))
is_within_schedule_window-clear_of_ticks_example =
    is_within_schedule_window-clear_of_ticks 500000000000 (7 * minute) " 7m" seven_minutes
      (omega arith) (omega arith) (omega arith)

is_within_schedule_window-opens_example :
    (k : ℕ) × (k ≤ 4) × (is_within_schedule_window (poll 419000000000 k) " 7m" ≡ true)
is_within_schedule_window-opens_example =
    is_within_schedule_window-opens 419000000000 (7 * minute) " 7m" seven_minutes (omega arith)

parse_scheduling_interval-bounds_example :
    (n : ℕ) × (trim_suffix (trim_space " 7m") "m" <> "m" ≡ trim_space " 7m")
    × (atoi (trim_suffix (trim_space " 7m") "m") ≡ some (false, n))
    × (0 < n)
    × (n < 2 ^ 63)
    × (7 * minute ≡ (n * minute) % 2 ^ 64)
parse_scheduling_interval-bounds_example =
    parse_scheduling_interval-bounds " 7m" (7 * minute) seven_minutes

parse_scheduling_interval-decimal_example :
    parse_scheduling_interval (decimal 153722868 <> "m") ≡ inr ((153722868 * minute) % 2 ^ 64)
parse_scheduling_interval-decimal_example =
    parse_scheduling_interval-decimal 153722868 (omega arith) (omega arith)

convert_scheduling_interval-IsRefused_example :
    IsRefused (convert_scheduling_interval_to_cron_spec "*/5 * * * *")
convert_scheduling_interval-IsRefused_example =
    convert_scheduling_interval-IsRefused "*/5 * * * " "*" refl

convert_scheduling_interval-decimal_example :
    (convert_scheduling_interval_to_cron_spec (decimal 30 <> "m")
      ≡ ok ("*/" <> (decimal 30 <> " * * * *")))
    × (convert_scheduling_interval_to_cron_spec (decimal 30 <> "h")
        ≡ ok ("0 */" <> (decimal 30 <> " * * *")))
    × (convert_scheduling_interval_to_cron_spec (decimal 30 <> "d")
        ≡ ok ("0 0 */" <> (decimal (min 28 30) <> " * *")))
convert_scheduling_interval-decimal_example = convert_scheduling_interval-decimal 30 (omega arith)

abbrev failing : Vrg
failing = record {
  meta = fresh_meta "app" "vrg";
  action = failover;
  replication_state = primary;
  state = secondary_state;
}

abbrev taking_over : Client
taking_over = record memory { get_vrg = λ _ w. (ok failing, w) }

abbrev owned : Vgr
owned = record {
  meta = record (fresh_meta "app" "group") {
    labels =
        ("ramendr.openshift.io/owner-name", "vrg")
        ∷ ("ramendr.openshift.io/owner-namespace-name", "app")
        ∷ [];
  };
  generation = 1;
  class_name = "class";
  replication_state = primary;
  selector = none;
  status = record {
    state = unknown_state;
    conditions = [];
    pvc_refs = [];
    last_sync_time = none;
    observed_generation = 0;
  };
}

abbrev class : VgrClass
class = record { meta = fresh_meta "" "class"; provisioner = "mock"; parameters = [] }

check_failover_safety-Waits_example :
    Waits taking_over class owned (after_seconds 30) one_claim one_claim
unfolding check_failover_safety failover_result is_failover is_primary_state window_result
    primary_configuration parameter is_within_schedule_window within_window within_last_tick
    within_ticks parse_scheduling_interval parse_trimmed trim_space trim_left trim_right
    keep_unless_last is_white_space is_space has_suffix trim_suffix atoi unsigned all_digits
    in_range minutes_duration Dict.index Dict.lookup ◌>>=◌
check_failover_safety-Waits_example =
    check_failover_safety-Waits taking_over class owned one_claim one_claim (after_seconds 30) refl

update_pvc_annotations-AllStamped_example : AllStamped (decimal 9) (data_claim ∷ []) (
    memory_laws.view (update_pvc_annotations memory decimal (data_claim ∷ []) (some 9) one_claim).1)
unfolding update_pvc_annotations for_each stamp stamped ◌>>=◌
update_pvc_annotations-AllStamped_example =
    update_pvc_annotations-AllStamped memory memory_laws decimal (data_claim ∷ []) 9 one_claim
      (update_pvc_annotations memory decimal (data_claim ∷ []) (some 9) one_claim).1 refl
