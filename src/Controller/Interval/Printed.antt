-- ===== src/Controller/Interval/Printed.antt =====
-- The interval that is printed for a number of minutes is read back.
use Prim.Native.Char.{Char, code}
use mathlib.Core.Bool.{or-true}
use text.Mathlib.TextLemmas.{
  cons-append, append-ne-nil_of_right_ne-nil, cons-ne-nil, tail-eq_of_cons-eq,
}
use mock_storage_operator.Prelude.{
  ℕ, ◌*◌, ◌%◌, ◌^◌, ◌<◌, ◌≡◌, refl, inl, inr, true, false, String, ◌<>◌, ◌==◌, some, eqb, arith,
  Bool-cases, eq_iff, sym, ap, ◌∙◌,
}
use mock_storage_operator.Prelude.Decimal.{
  decimal, StartsWithDigit, decimal-StartsWithDigit, all_digits, is_digit, all_digits-decimal,
}
use mock_storage_operator.Prelude.Text.{has_suffix, trim_suffix}
use mock_storage_operator.Volsync.Schedule.{in_range, is_space}
use mock_storage_operator.Volsync.Schedule.Printed.{in_range-small}
use mock_storage_operator.Controller.Interval.{
  minute, is_white_space, trim_left, keep_unless_last, trim_right, trim_space, unsigned, atoi,
  minutes_duration, parse_trimmed, parse_scheduling_interval,
}

digit-not_white : (c : Char) → is_digit c ≡ true → is_white_space c ≡ false
unfolding is_white_space is_space
digit-not_white c d = ground (arith, d)

keep-suffixed : (c : Char) (s : String) → keep_unless_last c (s <> "m") ≡ String.◌∷◌ c (s <> "m")
unfolding keep_unless_last is_white_space is_space
keep-suffixed c String.[] = refl
keep-suffixed c (String.◌∷◌ d s) = rw (cons-append d s "m") refl

trim_right-suffixed : (s : String) → trim_right (s <> "m") ≡ s <> "m"
unfolding trim_right keep_unless_last is_white_space is_space
trim_right-suffixed String.[] = refl
trim_right-suffixed (String.◌∷◌ c s) =
    rw (cons-append c s "m") (ap (keep_unless_last c) (trim_right-suffixed s) ∙ keep-suffixed c s)

suffix-has_suffix : (s : String) → has_suffix (s <> "m") "m" ≡ true
unfolding has_suffix
suffix-has_suffix String.[] = refl
suffix-has_suffix (String.◌∷◌ c s) = rw (cons-append c s "m") (rw (suffix-has_suffix s) (or-true _))

longer : (c : Char) (s : String) → (String.◌∷◌ c (s <> "m") == "m") ≡ false
longer c s = elim (Bool-cases (String.◌∷◌ c (s <> "m") == "m")) [
  | inl same ↦
      absurd (
        append-ne-nil_of_right_ne-nil s (cons-ne-nil _ _)
          (tail-eq_of_cons-eq ((eq_iff _ _).0 same)))
  | inr differ ↦ differ
]

trim_suffix-suffix : (s : String) → trim_suffix (s <> "m") "m" ≡ s
unfolding trim_suffix
trim_suffix-suffix String.[] = refl
trim_suffix-suffix (String.◌∷◌ c s) =
    rw (cons-append c s "m") (rw (longer c s) (ap (λ t. String.◌∷◌ c t) (trim_suffix-suffix s)))

trim_left-digit :
    (c : Char) (s : String) → is_digit c ≡ true → trim_left (String.◌∷◌ c s) ≡ String.◌∷◌ c s
unfolding trim_left
trim_left-digit c s d = rw (digit-not_white c d) refl

trim_space-suffixed : (s : String) → StartsWithDigit s → trim_space (s <> "m") ≡ s <> "m"
unfolding trim_space trim_left
trim_space-suffixed String.[] d = absurd d
trim_space-suffixed (String.◌∷◌ c s) d =
    ap trim_right (
      ap trim_left (cons-append c s "m")
      ∙ trim_left-digit c (s <> "m") d
      ∙ sym (cons-append c s "m"))
    ∙ trim_right-suffixed (String.◌∷◌ c s)

not_minus : (c : Char) → is_digit c ≡ true → eqb (code c) b'-' ≡ false
not_minus c d = ground (arith, d)

not_plus : (c : Char) → is_digit c ≡ true → eqb (code c) b'+' ≡ false
not_plus c d = ground (arith, d)

atoi-digits :
    (s : String) (n : ℕ)
    → StartsWithDigit s
    → all_digits 0 s ≡ some n
    → n < 2 ^ 63
    → atoi s ≡ some (false, n)
unfolding atoi unsigned all_digits
atoi-digits String.[] n d e small = absurd d
atoi-digits (String.◌∷◌ c s) n d e small =
    rw (not_minus c d) (rw (not_plus c d) (ap (in_range false) e ∙ in_range-small n small))

not_zero : (n : ℕ) → 0 < n → eqb n 0 ≡ false
not_zero n positive = ground (arith, positive)

positive_minutes :
    (s : String) (n : ℕ)
    → 0 < n
    → minutes_duration s (some (false, n)) ≡ inr ((n * minute) % 2 ^ 64)
unfolding minutes_duration
positive_minutes s n positive = rw (not_zero n positive) refl

-- A positive number of minutes below 2^63, printed and followed by `m`, is read as that many minutes,
-- in int64 arithmetic.
pub parse_scheduling_interval-decimal :
    (n : ℕ)
    → 0 < n
    → n < 2 ^ 63
    → parse_scheduling_interval (decimal n <> "m") ≡ inr ((n * minute) % 2 ^ 64)
unfolding parse_scheduling_interval parse_trimmed minutes_duration
parse_scheduling_interval-decimal n positive small =
    rw (trim_space-suffixed (decimal n) (decimal-StartsWithDigit n)) (
      rw (suffix-has_suffix (decimal n)) (
        ap (minutes_duration (decimal n <> "m")) (
          ap atoi (trim_suffix-suffix (decimal n))
          ∙ atoi-digits (decimal n) n (decimal-StartsWithDigit n) (all_digits-decimal n) small)
        ∙ positive_minutes (decimal n <> "m") n positive))
