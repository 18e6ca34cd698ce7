-- ===== src/Controller/Configuration/Intervals.antt =====
-- The scheduling interval that a class's parameters give.
use mathlib.Core.Bool.{or-true}
use mock_storage_operator.Prelude.{
  ◌≡◌, refl, ◌∙◌, not, ◌||◌, String, ◌==◌, Bool-cases, inl, inr, if◌then◌else◌,
}
use mock_storage_operator.Prelude.Dict
use mock_storage_operator.Prelude.Dict.{Dict}
use mock_storage_operator.Objects.{Key}
use mock_storage_operator.Exec.{Outcome, ok}
use mock_storage_operator.Volsync.{VsHandler}
use mock_storage_operator.Volsync.Schedule.{
  get_schedule_cron_spec, convert_scheduling_interval_to_cron_spec,
}
use mock_storage_operator.Controller.Configuration.{
  parameter, primary_configuration, not_zero_minutes, secondary_configuration,
}

-- the schedule for a text in the parameters: five minutes where it is empty or 0m
abbrev pub schedule_for : String → Outcome String
schedule_for text =
    if text == "" || text == "0m"
    then ok "*/5 * * * *"
    else convert_scheduling_interval_to_cron_spec text

-- the first of two texts that is not empty
abbrev pub first_set : String → String → String
first_set x y = if x == "" then y else x

-- getScheduleCronSpec of a handler, by its interval
schedule_of : (v : VsHandler) → get_schedule_cron_spec v ≡ schedule_for v.scheduling_interval
unfolding get_schedule_cron_spec
schedule_of v = elim (Bool-cases (v.scheduling_interval == "")) [
  | inl empty ↦ rw empty refl
  | inr named ↦ elim (Bool-cases (v.scheduling_interval == "0m")) [
    | inl zero ↦ rw (named, zero) refl
    | inr other ↦ rw (named, other) refl
  ]
]

five_minutes : schedule_for "5m" ≡ ok "*/5 * * * *"
unfolding convert_scheduling_interval_to_cron_spec
five_minutes = refl

primary_interval :
    (p : Dict)
    → schedule_for (primary_configuration p).scheduling_interval
      ≡ schedule_for (Dict.index "schedulingInterval" p)
unfolding primary_configuration
primary_interval p = elim (Bool-cases (Dict.index "schedulingInterval" p == "")) [
  | inl empty ↦ rw empty five_minutes
  | inr named ↦ elim (Bool-cases (Dict.index "schedulingInterval" p == "0m")) [
    | inl zero ↦ rw (named, zero) five_minutes
    | inr other ↦ rw (named, other) (rw (named, other) refl)
  ]
]

zero_or_not : (x : String) → schedule_for (not_zero_minutes x) ≡ schedule_for x
unfolding not_zero_minutes
zero_or_not x = elim (Bool-cases (x == "0m")) [
  | inl zero ↦ rw zero (five_minutes ∙ rw (or-true (x == "")) refl)
  | inr other ↦ rw other (rw other refl)
]

parameter_or_five :
    (key : String) (p : Dict)
    → schedule_for (parameter key "5m" p) ≡ schedule_for (Dict.index key p)
unfolding parameter
parameter_or_five key p = elim (Bool-cases (Dict.index key p == "")) [
  | inl empty ↦ rw empty five_minutes
  | inr named ↦ rw named (rw named refl)
]

secondary_interval :
    (p : Dict)
    → schedule_for (secondary_configuration p).scheduling_interval
      ≡ schedule_for (first_set (Dict.index "schedulingInterval" p) (Dict.index "schedule" p))
unfolding secondary_configuration
secondary_interval p =
    zero_or_not (
      if not (Dict.index "schedulingInterval" p == "")
      then Dict.index "schedulingInterval" p
      else parameter "schedule" "5m" p)
    ∙ elim (Bool-cases (Dict.index "schedulingInterval" p == "")) [
      | inl empty ↦ rw empty (parameter_or_five "schedule" p)
      | inr named ↦ rw named refl
    ]

-- The schedule that getScheduleCronSpec gives for the configuration of a class is that of the
-- parameter schedulingInterval, and on a secondary that of the parameter schedule where the first is
-- missing or empty: every five minutes where the text is missing, empty or 0m, and else what
-- ConvertSchedulingIntervalToCronSpec makes of the text, its errors included.
pub configuration-schedule_for :
    (owner : Key) (p : Dict)
    → (get_schedule_cron_spec (record {
      owner = owner;
      scheduling_interval = (primary_configuration p).scheduling_interval;
    })
        ≡ schedule_for (Dict.index "schedulingInterval" p))
      × (get_schedule_cron_spec (record {
        owner = owner;
        scheduling_interval = (secondary_configuration p).scheduling_interval;
      })
          ≡ schedule_for (first_set (Dict.index "schedulingInterval" p) (Dict.index "schedule" p)))
configuration-schedule_for owner p =
    (schedule_of _ ∙ primary_interval p, schedule_of _ ∙ secondary_interval p)
