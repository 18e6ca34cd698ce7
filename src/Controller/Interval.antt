-- ===== src/Controller/Interval.antt =====
-- internal/controller/primary_reconciler.go: ParseSchedulingInterval and isWithinScheduleWindow, with
-- `strings.TrimSpace` and `strconv.Atoi`. A duration is the pattern of an int64, and a time
-- is its nanoseconds since 1970, of which `UnixNano` gives an int64.
pub mod Window
pub mod Bounds
pub mod Printed
use Prim.Native.Char.{Char, code}
use mock_storage_operator.Prelude.{
  ℕ, ◌+◌, ◌-◌, ◌*◌, ◌/◌, ◌%◌, ◌^◌, ◌≡◌, refl, ◌⊎◌, inl, inr, Bool, true, false, not, ◌&&◌, ◌||◌,
  String, Option, none, some, ltb, leb, eqb, if◌then◌else◌,
}
use mock_storage_operator.Prelude.Decimal.{all_digits}
use mock_storage_operator.Prelude.Text.{has_suffix, trim_suffix}
use mock_storage_operator.Volsync.Schedule.{is_space, in_range}

-- `unicode.IsSpace`
unfoldable pub is_white_space : Char → Bool
unfolding is_space
is_white_space c = eqb (code c) 10 || is_space (code c)

unfoldable pub trim_left : String → String
unfolding is_white_space
trim_left String.[] = String.[]
trim_left (String.◌∷◌ c s) =
    let rest = trim_left s in if is_white_space c then rest else String.◌∷◌ c s

-- `c` before what is left of the text behind it
unfoldable pub keep_unless_last : Char → String → String
unfolding is_white_space
keep_unless_last c String.[] = if is_white_space c then String.[] else String.◌∷◌ c String.[]
keep_unless_last c (String.◌∷◌ d s) = String.◌∷◌ c (String.◌∷◌ d s)

unfoldable pub trim_right : String → String
unfolding keep_unless_last
trim_right String.[] = String.[]
trim_right (String.◌∷◌ c s) = keep_unless_last c (trim_right s)

-- `strings.TrimSpace`
unfoldable pub trim_space : String → String
unfolding trim_left trim_right
trim_space s = trim_right (trim_left s)

unfoldable pub unsigned : String → Option ℕ
unfolding all_digits
unsigned String.[] = none
unsigned (String.◌∷◌ c s) = all_digits 0 (String.◌∷◌ c s)

-- `strconv.Atoi`, as a sign and a size
unfoldable pub atoi : String → Option (Bool × ℕ)
unfolding unsigned in_range
atoi String.[] = none
atoi (String.◌∷◌ c s) =
    if eqb (code c) b'-'
    then in_range true (unsigned s)
    else if eqb (code c) b'+'
    then in_range false (unsigned s)
    else in_range false (unsigned (String.◌∷◌ c s))

-- time.Minute
abbrev pub minute : ℕ
minute = 60000000000

-- the two messages of ParseSchedulingInterval, with the text that they quote
pub data IntervalError : Type 0 where
  bad_form bad_minutes : String → IntervalError

-- `time.Duration(minutes) * time.Minute`
unfoldable pub minutes_duration : String → Option (Bool × ℕ) → IntervalError ⊎ ℕ
minutes_duration s none = inl (bad_minutes s)
minutes_duration s (some (negative, n)) =
    if negative || eqb n 0 then inl (bad_minutes s) else inr ((n * minute) % 2 ^ 64)

-- ParseSchedulingInterval after the white space is gone
unfoldable pub parse_trimmed : String → IntervalError ⊎ ℕ
unfolding minutes_duration has_suffix trim_suffix atoi
parse_trimmed s =
    if not (has_suffix s "m")
    then inl (bad_form s)
    else minutes_duration s (atoi (trim_suffix s "m"))

-- ParseSchedulingInterval
unfoldable pub parse_scheduling_interval : String → IntervalError ⊎ ℕ
unfolding parse_trimmed trim_space
parse_scheduling_interval s = parse_trimmed (trim_space s)

-- `a < b` on int64
abbrev pub below : ℕ → ℕ → Bool
below a b = ltb ((a + 2 ^ 63) % 2 ^ 64) ((b + 2 ^ 63) % 2 ^ 64)

-- minInterval, maxInterval and margin
abbrev pub min_interval : ℕ
min_interval = 5 * minute

abbrev pub max_interval : ℕ
max_interval = 15 * minute

abbrev pub margin : ℕ
margin = 1 * minute

-- `now` against the ticks around it
unfoldable pub within_ticks : ℕ → ℕ → ℕ → Bool
within_ticks now last_tick next_tick =
    not (ltb now (last_tick + margin)) && ltb now (next_tick - margin)

-- `now.UnixNano()`, an int64 by its pattern; it is negative for a time from 2262 on that Go's
-- arithmetic wraps
abbrev pub unix_nano : ℕ → ℕ
unix_nano now = now % 2 ^ 64

-- the ticks around `UnixNano`; where that is negative they lie before 1970, so `now` is past them
unfoldable pub within_last_tick : ℕ → ℕ → Bool
unfolding within_ticks
within_last_tick now interval =
    ltb (unix_nano now) (2 ^ 63)
    && within_ticks now ((unix_nano now / interval) * interval)
        ((unix_nano now / interval) * interval + interval)

-- isWithinScheduleWindow, for an interval that was read
unfoldable pub within_window : ℕ → ℕ → Bool
unfolding within_last_tick
within_window now interval =
    if below interval min_interval || below max_interval interval
    then true
    else within_last_tick now interval

-- isWithinScheduleWindow
unfoldable pub is_within_schedule_window : ℕ → String → Bool
unfolding within_window parse_scheduling_interval
is_within_schedule_window now scheduling_interval =
    elim (parse_scheduling_interval scheduling_interval) [
      | inl e ↦ false
      | inr interval ↦ within_window now interval
    ]

interval_tests :
    (parse_scheduling_interval " +5m\n" ≡ inr (5 * minute))
    × (parse_scheduling_interval "5 m" ≡ inl (bad_minutes "5 m"))
    × (parse_scheduling_interval "0m" ≡ inl (bad_minutes "0m"))
    × (parse_scheduling_interval "5M" ≡ inl (bad_form "5M"))
    × (parse_scheduling_interval "m" ≡ inl (bad_minutes "m"))
unfolding parse_scheduling_interval
interval_tests = (refl, refl, refl, refl, refl)

-- a count of minutes that does not fit wraps to a negative duration
overflow_test :
    (parse_scheduling_interval "153722868m" ≡ inr ((153722868 * minute) % 2 ^ 64))
    × (below ((153722868 * minute) % 2 ^ 64) 0 ≡ true)
unfolding parse_scheduling_interval
overflow_test = (refl, refl)

-- seven minutes are checked too
window_tests :
    (is_within_schedule_window (420 * 1000000000) "7m" ≡ false)
    × (is_within_schedule_window (480 * 1000000000) "7m" ≡ true)
    × (is_within_schedule_window (780 * 1000000000) "7m" ≡ false)
    × (is_within_schedule_window 0 "16m" ≡ true)
unfolding is_within_schedule_window
window_tests = (refl, refl, refl, refl)
