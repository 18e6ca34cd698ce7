-- ===== src/Volsync/Schedule/Refused.antt =====
-- The intervals that ConvertSchedulingIntervalToCronSpec refuses by their last character.
use Prim.Native.Char.{Char, code}
use Prim.Native.String.{len}
use text.Mathlib.TextLemmas.{nil-append, cons-append}
use mock_storage_operator.Prelude.{
  ℕ, ◌≡◌, refl, inl, inr, Bool, false, ◌||◌, String, ◌<>◌, ltb, eqb, Bool-cases, Option-cases,
  arith,
}
use mock_storage_operator.Exec.{Error, Outcome, err}
use mock_storage_operator.Volsync.Schedule.{
  scan_int, split_last, lower_unit, cron_spec_of, found_spec, convert_parts,
  convert_scheduling_interval_to_cron_spec,
}
use mock_storage_operator.Volsync.Schedule.Printed.{split_last-unit, long_enough}

-- a unit of minutes, hours or days, in either case
abbrev pub is_unit : Char → Bool
is_unit c =
    (eqb (code c) b'm' || eqb (code c) b'M')
    || ((eqb (code c) b'h' || eqb (code c) b'H') || (eqb (code c) b'd' || eqb (code c) b'D'))

abbrev pub IsRefused : Outcome String → Type 0
IsRefused r = (e : Error) × (r ≡ err e)

cron_spec_of-no_unit :
    (c : Char) (num : String) (n : Bool × ℕ)
    → is_unit c ≡ false
    → cron_spec_of (lower_unit (code c)) num n ≡ ""
unfolding cron_spec_of lower_unit
cron_spec_of-no_unit c num n other = ground (arith, other)

convert_parts-IsRefused :
    (interval num : String) (c : Char)
    → is_unit c ≡ false
    → IsRefused (convert_parts interval (num, c))
unfolding convert_parts found_spec
convert_parts-IsRefused interval num c other = elim (Option-cases (scan_int num)) [
  | inl no_number ↦ rw (no_number, convert_parts) (_, refl)
  | inr (n, number) ↦ rw (number, convert_parts) (rw (cron_spec_of-no_unit c num n other) (_, refl))
]

-- An interval that does not end in m, h or d, in either case, is refused, whatever stands before: so
-- is every cron expression that ends in a digit or an asterisk.
pub convert_scheduling_interval-IsRefused :
    (s : String) (c : Char)
    → is_unit c ≡ false
    → IsRefused (convert_scheduling_interval_to_cron_spec (s <> String.◌∷◌ c ""))
unfolding convert_scheduling_interval_to_cron_spec split_last
convert_scheduling_interval-IsRefused String.[] c other =
    rw (nil-append (String.◌∷◌ c "")) (elim (Bool-cases (ltb (len (String.◌∷◌ c "")) 2)) [
      | inl short ↦ rw short (_, refl)
      | inr long ↦ rw long (convert_parts-IsRefused (String.◌∷◌ c "") "" c other)
    ])
convert_scheduling_interval-IsRefused (String.◌∷◌ d s) c other =
    rw (cons-append d s (String.◌∷◌ c "")) (
      rw (long_enough d s c) (
        rw (split_last-unit d s c)
          (convert_parts-IsRefused (String.◌∷◌ d (s <> String.◌∷◌ c "")) (String.◌∷◌ d s) c other)))
