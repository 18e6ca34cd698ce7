-- ===== src/Volsync/Schedule.antt =====
-- internal/volsync/handler.go: ConvertSchedulingIntervalToCronSpec and getScheduleCronSpec, with
-- the part of `fmt.Sscanf("%d")` that the first one uses.
pub mod Printed
pub mod Refused
use Prim.Native.Char.{Char, code}
use Prim.Native.String.{len}
use mock_storage_operator.Prelude.{
  ℕ, ◌+◌, ◌-◌, ◌*◌, ◌^◌, ◌≡◌, refl, Bool, true, false, not, ◌&&◌, ◌||◌, String, ◌<>◌, ◌==◌, Option,
  none, some, ltb, leb, eqb, if◌then◌else◌,
}
use mock_storage_operator.Exec.{Outcome, ok, err, errorf}
use mock_storage_operator.Volsync.{VsHandler}

-- the digits of an integer: at least one, up to the first other character
unfoldable pub scan_digits : Bool → ℕ → String → Option ℕ
scan_digits have n String.[] = if have then some n else none
scan_digits have n (String.◌∷◌ c s) =
    let rest = scan_digits true (n * 10 + (code c - 48)) s in
    if leb 48 (code c) && leb (code c) 57 then rest else if have then some n else none

-- an int of 64 bits by its sign and size
unfoldable pub in_range : Bool → Option ℕ → Option (Bool × ℕ)
in_range negative none = none
in_range negative (some n) =
    if ltb n (2 ^ 63) || (negative && eqb n (2 ^ 63)) then some (negative, n) else none

unfoldable pub scan_signed : String → Option (Bool × ℕ)
unfolding scan_digits in_range
scan_signed String.[] = none
scan_signed (String.◌∷◌ c s) =
    if eqb (code c) b'-'
    then in_range true (scan_digits false 0 s)
    else if eqb (code c) b'+'
    then in_range false (scan_digits false 0 s)
    else in_range false (scan_digits false 0 (String.◌∷◌ c s))

-- the white space that Sscanf skips; it stops at a newline with an error
unfoldable pub is_space : ℕ → Bool
is_space c =
    eqb c 9
    || (leb 11 c && leb c 13)
    || (eqb c 32
        || (eqb c 0x85 || (eqb c 0xa0 || (eqb c 0x1680 || (leb 0x2000 c && leb c 0x200a)))))
    || (eqb c 0x2028 || (eqb c 0x2029 || (eqb c 0x202f || (eqb c 0x205f || eqb c 0x3000))))

-- `fmt.Sscanf(s, "%d", &n)`; what follows the digits is not read
unfoldable pub scan_int : String → Option (Bool × ℕ)
unfolding scan_signed is_space
scan_int String.[] = none
scan_int (String.◌∷◌ c s) =
    let rest = scan_int s in if is_space (code c) then rest else scan_signed (String.◌∷◌ c s)

-- `s[:len(s)-1]` and the first rune of `s[len(s)-1:]`
unfoldable pub split_last : Char → String → String × Char
split_last c String.[] = (String.[], c)
split_last c (String.◌∷◌ d s) = let (front, last) = split_last d s in (String.◌∷◌ c front, last)

-- `M`, `H` and `D` to lower case
unfoldable pub lower_unit : ℕ → ℕ
lower_unit c =
    if eqb c b'M' then b'm' else if eqb c b'H' then b'h' else if eqb c b'D' then b'd' else c

-- CronSpecMaxDayOfMonth
abbrev pub cron_spec_max_day_of_month : ℕ
cron_spec_max_day_of_month = 28

-- SchedulingIntervalMinLength
abbrev pub scheduling_interval_min_length : ℕ
scheduling_interval_min_length = 2

-- `num` after the test of the days
unfoldable pub capped_days : String → Bool × ℕ → String
capped_days num (negative, n) =
    if not negative && ltb cron_spec_max_day_of_month n then "28" else num

-- the `switch mhd`; the empty text is "no case"
unfoldable pub cron_spec_of : ℕ → String → Bool × ℕ → String
unfolding capped_days
cron_spec_of mhd num num_int =
    if eqb mhd b'm'
    then "*/" <> (num <> " * * * *")
    else if eqb mhd b'h'
    then "0 */" <> (num <> " * * *")
    else if eqb mhd b'd'
    then "0 0 */" <> (capped_days num num_int <> " * *")
    else ""

-- `if cronSpec == "" { return error }`
unfoldable pub found_spec : String → String → Outcome String
found_spec interval cron_spec =
    if cron_spec == ""
    then err (errorf ("scheduling interval " <> (interval <> " is invalid. Unable to parse m/h/d")))
    else ok cron_spec

-- what follows the split of the interval into its number and its unit
unfoldable pub convert_parts : String → String × Char → Outcome String
unfolding cron_spec_of scan_int lower_unit found_spec
convert_parts interval (num, unit) = elim (scan_int num) [
  | none ↦
      err
        (errorf ("scheduling interval prefix " <> (num <> " cannot be converted to an int value")))
  | some num_int ↦ found_spec interval (cron_spec_of (lower_unit (code unit)) num num_int)
]

abbrev too_short : String → Outcome String
too_short interval = err (errorf ("scheduling interval " <> (interval <> " is invalid")))

-- ConvertSchedulingIntervalToCronSpec
unfoldable pub convert_scheduling_interval_to_cron_spec : String → Outcome String
unfolding convert_parts split_last
convert_scheduling_interval_to_cron_spec String.[] = too_short String.[]
convert_scheduling_interval_to_cron_spec (String.◌∷◌ c s) =
    if ltb (len (String.◌∷◌ c s)) scheduling_interval_min_length
    then too_short (String.◌∷◌ c s)
    else convert_parts (String.◌∷◌ c s) (split_last c s)

-- DefaultScheduleCronSpec
abbrev pub default_schedule_cron_spec : String
default_schedule_cron_spec = "*/5 * * * *"

-- getScheduleCronSpec
unfoldable pub get_schedule_cron_spec : VsHandler → Outcome String
unfolding convert_scheduling_interval_to_cron_spec
get_schedule_cron_spec v =
    if not (v.scheduling_interval == "") && not (v.scheduling_interval == "0m")
    then convert_scheduling_interval_to_cron_spec v.scheduling_interval
    else ok default_schedule_cron_spec

cron_tests :
    (convert_scheduling_interval_to_cron_spec "5m" ≡ ok "*/5 * * * *")
    × (convert_scheduling_interval_to_cron_spec "31D" ≡ ok "0 0 */28 * *")
    × (convert_scheduling_interval_to_cron_spec "-5xh" ≡ ok "0 */-5x * * *")
unfolding convert_scheduling_interval_to_cron_spec
cron_tests = (refl, refl, refl)
