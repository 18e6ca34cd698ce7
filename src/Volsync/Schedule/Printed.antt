-- ===== src/Volsync/Schedule/Printed.antt =====
-- What ConvertSchedulingIntervalToCronSpec makes of the interval that is printed for a number.
use Prim.Native.Char.{Char, code, len_utf8, len_utf8_def, width}
use Prim.Native.Nat.{compare, Ordering}
use Prim.Native.String.{len}
use Prim.Native.String.len
use text.Mathlib.TextLemmas.{nil-append, cons-append, cons-ne-nil}
use mock_storage_operator.Prelude.{
  not_some, ℕ, ◌+◌, ◌^◌, ◌<◌, ◌≡◌, refl, sym, ap, ◌∙◌, inl, inr, true, false, String, ◌<>◌, ◌==◌,
  some, ltb, eqb, if◌then◌else◌, Bool-cases, arith, eq_iff,
}
use mock_storage_operator.Prelude.Decimal.{
  is_digit, all_digits, decimal, all_digits-decimal, StartsWithDigit, decimal-StartsWithDigit,
}
use mock_storage_operator.Exec.{ok}
use mock_storage_operator.Volsync.Schedule.{
  scan_digits, in_range, scan_signed, is_space, scan_int, split_last, capped_days, cron_spec_of,
  convert_parts, lower_unit, found_spec, convert_scheduling_interval_to_cron_spec,
}

-- where all is digits, the scan goes to the end
scan_digits-all_digits :
    (s : String) (m n : ℕ) → all_digits m s ≡ some n → scan_digits true m s ≡ some n
unfolding scan_digits all_digits
scan_digits-all_digits String.[] m n e = e
scan_digits-all_digits (String.◌∷◌ c s) m n e = elim (Bool-cases (is_digit c)) [
  | inl digit ↦ rw digit (scan_digits-all_digits s _ n (rw digit at e))
  | inr other ↦ absurd (not_some (rw other at e))
]

scan_digits-decimal :
    (s : String) (n : ℕ)
    → StartsWithDigit s
    → all_digits 0 s ≡ some n
    → scan_digits false 0 s ≡ some n
unfolding scan_digits all_digits
scan_digits-decimal String.[] n d e = absurd d
scan_digits-decimal (String.◌∷◌ c s) n d e = rw d (scan_digits-all_digits s _ n (rw d at e))

no_space_or_sign :
    (c : Char)
    → is_digit c ≡ true
    → (is_space (code c) ≡ false) × (eqb (code c) b'-' ≡ false) × (eqb (code c) b'+' ≡ false)
unfolding is_space
no_space_or_sign c d = (ground (arith, d), ground (arith, d), ground (arith, d))

pub in_range-small : (n : ℕ) → n < 2 ^ 63 → in_range false (some n) ≡ some (false, n)
unfolding in_range
in_range-small n small = ground (arith, small)

scan_int-digits :
    (s : String) (n : ℕ)
    → StartsWithDigit s
    → all_digits 0 s ≡ some n
    → n < 2 ^ 63
    → scan_int s ≡ some (false, n)
unfolding scan_int scan_signed
scan_int-digits String.[] n d e small = absurd d
scan_int-digits (String.◌∷◌ c s) n d e small =
    let (space, minus, plus) = no_space_or_sign c d in
    rw space (
      rw minus (
        rw plus (
          ap (in_range false) (scan_digits-decimal (String.◌∷◌ c s) n d e)
          ∙ in_range-small n small)))

pub split_last-unit :
    (c : Char) (s : String) (unit : Char)
    → split_last c (s <> String.◌∷◌ unit "") ≡ (String.◌∷◌ c s, unit)
unfolding split_last
split_last-unit c String.[] unit = rw (nil-append (String.◌∷◌ unit "")) refl
split_last-unit c (String.◌∷◌ d s) unit =
    rw (cons-append d s (String.◌∷◌ unit "")) (rw (split_last-unit d s unit) refl)

width-positive : (a b c : Ordering) → 0 < width a b c
width-positive Ordering.lt b c = omega arith
width-positive Ordering.eq Ordering.lt c = omega arith
width-positive Ordering.eq Ordering.eq Ordering.lt = omega arith
width-positive Ordering.eq Ordering.eq Ordering.eq = omega arith
width-positive Ordering.eq Ordering.eq Ordering.gt = omega arith
width-positive Ordering.eq Ordering.gt Ordering.lt = omega arith
width-positive Ordering.eq Ordering.gt Ordering.eq = omega arith
width-positive Ordering.eq Ordering.gt Ordering.gt = omega arith
width-positive Ordering.gt Ordering.lt c = omega arith
width-positive Ordering.gt Ordering.eq Ordering.lt = omega arith
width-positive Ordering.gt Ordering.eq Ordering.eq = omega arith
width-positive Ordering.gt Ordering.eq Ordering.gt = omega arith
width-positive Ordering.gt Ordering.gt Ordering.lt = omega arith
width-positive Ordering.gt Ordering.gt Ordering.eq = omega arith
width-positive Ordering.gt Ordering.gt Ordering.gt = omega arith

utf8_width :
    (c : Char)
    → len_utf8 c ≡ width (compare (code c) 128) (compare (code c) 2048) (compare (code c) 65536)
utf8_width c = λ i. len_utf8_def c i

len_utf8-positive : (c : Char) → 0 < len_utf8 c
len_utf8-positive c = rw (utf8_width c) (width-positive _ _ _)

len_cons : (c : Char) (s : String) → len (String.◌∷◌ c s) ≡ len_utf8 c + len s
len_cons c s = λ i. len.cons c s i

pub long_enough :
    (c : Char) (s : String) (unit : Char)
    → ltb (len (String.◌∷◌ c (s <> String.◌∷◌ unit ""))) 2 ≡ false
long_enough c String.[] unit = rw (nil-append (String.◌∷◌ unit "")) (
    ground (
      arith,
      len_cons c (String.◌∷◌ unit ""),
      len_cons unit "",
      len_utf8-positive c,
      len_utf8-positive unit,
    ))
long_enough c (String.◌∷◌ d s) unit = rw (cons-append d s (String.◌∷◌ unit "")) (
    ground (
      arith,
      len_cons c (String.◌∷◌ d (s <> String.◌∷◌ unit "")),
      len_cons d (s <> String.◌∷◌ unit ""),
      len_utf8-positive c,
      len_utf8-positive d,
    ))

-- the part of the conversion that depends on the unit
convert-unit :
    (text : String) (n : ℕ) (unit : Char)
    → StartsWithDigit text
    → all_digits 0 text ≡ some n
    → n < 2 ^ 63
    → convert_scheduling_interval_to_cron_spec (text <> String.◌∷◌ unit "")
      ≡ found_spec
          (text <> String.◌∷◌ unit "")
          (cron_spec_of (lower_unit (code unit)) text (false, n))
unfolding convert_scheduling_interval_to_cron_spec convert_parts
convert-unit String.[] n unit d e small = absurd d
convert-unit (String.◌∷◌ c s) n unit d e small = rw (cons-append c s (String.◌∷◌ unit "")) (
    rw (long_enough c s unit) (
      rw (split_last-unit c s unit)
        (rw (scan_int-digits (String.◌∷◌ c s) n d e small, convert_parts) refl)))

converted :
    (n : ℕ) (unit : Char)
    → n < 2 ^ 63
    → convert_scheduling_interval_to_cron_spec (decimal n <> String.◌∷◌ unit "")
      ≡ found_spec
          (decimal n <> String.◌∷◌ unit "")
          (cron_spec_of (lower_unit (code unit)) (decimal n) (false, n))
converted n unit small =
    convert-unit (decimal n) n unit (decimal-StartsWithDigit n) (all_digits-decimal n) small

found_spec-prefixed :
    (interval : String) (c : Char) (p s : String)
    → found_spec interval (String.◌∷◌ c p <> s) ≡ ok (String.◌∷◌ c p <> s)
unfolding found_spec
found_spec-prefixed interval c p s = elim (Bool-cases (String.◌∷◌ c p <> s == "")) [
  | inl empty ↦ absurd (cons-ne-nil c _ (sym (cons-append c p s) ∙ (eq_iff _ _).0 empty))
  | inr there ↦ rw there refl
]

abbrev pub min : ℕ → ℕ → ℕ
min a b = if ltb a b then a else b

capped_days-decimal : (n : ℕ) → capped_days (decimal n) (false, n) ≡ decimal (min 28 n)
unfolding capped_days decimal
capped_days-decimal n = elim (Bool-cases (ltb 28 n)) [
  | inl long ↦ rw long refl
  | inr short ↦ rw short refl
]

-- A number below 2^63, printed and followed by m, h or d, is converted to the cron text whose step
-- in the field of the minutes, the hours or the days is that number, for days 28 at most. So 0 gives
-- the step 0, and more than 59 minutes or 23 hours a step that is longer than the field.
pub convert_scheduling_interval-decimal :
    (n : ℕ)
    → n < 2 ^ 63
    → (convert_scheduling_interval_to_cron_spec (decimal n <> "m")
        ≡ ok ("*/" <> (decimal n <> " * * * *")))
      × (convert_scheduling_interval_to_cron_spec (decimal n <> "h")
          ≡ ok ("0 */" <> (decimal n <> " * * *")))
      × (convert_scheduling_interval_to_cron_spec (decimal n <> "d")
          ≡ ok ("0 0 */" <> (decimal (min 28 n) <> " * *")))
unfolding cron_spec_of lower_unit
convert_scheduling_interval-decimal n small = (
  converted n "m" small ∙ found_spec-prefixed _ "*" "/" _,
  converted n "h" small ∙ found_spec-prefixed _ "0" " */" _,
  converted n "d" small
      ∙ found_spec-prefixed _ "0" " 0 */" _
      ∙ ap (λ days. ok ("0 0 */" <> (days <> " * *"))) (capped_days-decimal n),
)
