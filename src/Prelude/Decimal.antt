-- ===== src/Prelude/Decimal.antt =====
-- Decimal numerals: how a text of digits is read, as `strconv` does, and how a number is printed.
use Prim.Native.Char.{Char, code}
use Prim.Native.String.{String}
use Prim.Native.Nat.{ℕ, zero, suc, ◌+◌, ◌-◌, ◌*◌, ◌/◌, ◌%◌, ◌≤◌, ◌<◌}
use mathlib.Core.Path.{◌≡◌, refl, ap, ◌∙◌}
use mathlib.Core.Bool.{Bool, true, false, ◌&&◌}
use mathlib.Core.Option.{Option, none, some}
use mathlib.Core.Logic.{inl, inr}
use native.Mathlib.Omega.{arith}
use mock_storage_operator.Prelude.Branch.{leb, eqb, if◌then◌else◌, Bool-cases}

abbrev pub is_digit : Char → Bool
is_digit c = leb 48 (code c) && leb (code c) 57

-- the value of a text that has digits only, after digits of the value `n`
unfoldable pub all_digits : ℕ → String → Option ℕ
all_digits n String.[] = some n
all_digits n (String.◌∷◌ c s) =
    let rest = all_digits (n * 10 + (code c - 48)) s in if is_digit c then rest else none

abbrev digit : ℕ → Char
digit d =
    if eqb d 0
    then "0"
    else if eqb d 1
    then "1"
    else if eqb d 2
    then "2"
    else if eqb d 3
    then "3"
    else if eqb d 4
    then "4"
    else if eqb d 5
    then "5"
    else if eqb d 6
    then "6"
    else if eqb d 7
    then "7"
    else if eqb d 8
    then "8"
    else "9"

-- the digits of `n` before a text
unfoldable pub digits_before : ℕ → ℕ → String → String
digits_before zero n later = later
digits_before (suc fuel) n later =
    let more = digits_before fuel (n / 10) (String.◌∷◌ (digit (n % 10)) later) in
    if eqb n 0 then later else more

-- the decimal print of a number
unfoldable pub decimal : ℕ → String
unfolding digits_before
decimal n = if eqb n 0 then "0" else digits_before n n ""

decimal_test : decimal 1205 ≡ "1205"
unfolding decimal
decimal_test = refl

code-digit : (d : ℕ) → d < 10 → code (digit d) ≡ 48 + d
code-digit zero h = refl
code-digit (suc zero) h = refl
code-digit (suc (suc zero)) h = refl
code-digit (suc (suc (suc zero))) h = refl
code-digit (suc (suc (suc (suc zero)))) h = refl
code-digit (suc (suc (suc (suc (suc zero))))) h = refl
code-digit (suc (suc (suc (suc (suc (suc zero)))))) h = refl
code-digit (suc (suc (suc (suc (suc (suc (suc zero))))))) h = refl
code-digit (suc (suc (suc (suc (suc (suc (suc (suc zero)))))))) h = refl
code-digit (suc (suc (suc (suc (suc (suc (suc (suc (suc zero))))))))) h = refl
code-digit (suc (suc (suc (suc (suc (suc (suc (suc (suc (suc d)))))))))) h = absurd (omega arith)

all_digits-digit :
    (n : ℕ) (s : String) → all_digits (n / 10) (String.◌∷◌ (digit (n % 10)) s) ≡ all_digits n s
unfolding all_digits
all_digits-digit n s = ground (arith, code-digit (n % 10))

all_digits-digits_before :
    (fuel n : ℕ) (s : String) → n ≤ fuel → all_digits 0 (digits_before fuel n s) ≡ all_digits n s
unfolding digits_before
all_digits-digits_before zero n s h = ap (λ m. all_digits m s) (omega arith)
all_digits-digits_before (suc fuel) n s h =
    let later =
      all_digits-digits_before fuel (n / 10) (String.◌∷◌ (digit (n % 10)) s) (omega arith) in
    elim (Bool-cases (eqb n 0)) [
      | inl none_left ↦ rw none_left (ap (λ m. all_digits m s) (ground (none_left, arith)))
      | inr some_left ↦ rw some_left (later ∙ all_digits-digit n s)
    ]

pub all_digits-decimal : (n : ℕ) → all_digits 0 (decimal n) ≡ some n
unfolding decimal all_digits
all_digits-decimal n = elim (Bool-cases (eqb n 0)) [
  | inl none_left ↦ rw none_left (ap some (ground (none_left, arith)))
  | inr some_left ↦ rw some_left (all_digits-digits_before n n "" (omega arith))
]

-- a text that is not empty and whose first character is a digit
abbrev pub StartsWithDigit : String → Type 0
StartsWithDigit String.[] = ⊥
StartsWithDigit (String.◌∷◌ c s) = is_digit c ≡ true

is_digit-digit : (n : ℕ) → is_digit (digit (n % 10)) ≡ true
is_digit-digit n = ground (arith, code-digit (n % 10))

digits_before-StartsWithDigit :
    (fuel n : ℕ) (s : String) → StartsWithDigit s → StartsWithDigit (digits_before fuel n s)
unfolding digits_before
digits_before-StartsWithDigit zero n s h = h
digits_before-StartsWithDigit (suc fuel) n s h = elim (Bool-cases (eqb n 0)) [
  | inl none_left ↦ rw none_left h
  | inr some_left ↦ rw some_left (
      digits_before-StartsWithDigit fuel (n / 10) (String.◌∷◌ (digit (n % 10)) s)
        (is_digit-digit n))
]

suc-positive : (n : ℕ) → eqb (suc n) 0 ≡ false
suc-positive n = ground arith

pub decimal-StartsWithDigit : (n : ℕ) → StartsWithDigit (decimal n)
unfolding decimal digits_before
decimal-StartsWithDigit zero = refl
decimal-StartsWithDigit (suc n) = rw (suc-positive n) (
    digits_before-StartsWithDigit n (suc n / 10) (String.◌∷◌ (digit (suc n % 10)) "")
      (is_digit-digit (suc n)))
