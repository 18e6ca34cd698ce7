-- ===== src/Controller/Interval/Bounds.antt =====
-- What ParseSchedulingInterval accepts, and the durations that it answers.
use Prim.Native.Char.{code}
use mathlib.Core.Bool.{true≢false}
use mock_storage_operator.Prelude.{
  not_some, ℕ, ◌*◌, ◌%◌, ◌^◌, ◌<◌, ◌≡◌, refl, ◌⊎◌, inl, inr, Bool, true, false, ◌||◌, ltb, String,
  ◌<>◌, Option, none, some, eqb, arith, Bool-cases, sym, ap,
}
use mock_storage_operator.Prelude.Text.{has_suffix, trim_suffix, trim_suffix-has_suffix}
use mock_storage_operator.Volsync.Schedule.{in_range}
use mock_storage_operator.Controller.Interval.{
  minute, minutes_duration, parse_trimmed, trim_space, atoi, unsigned, parse_scheduling_interval,
}

inr_inj : {A B : Type 0} {a b : B} → Path (A ⊎ B) (inr a) (inr b) → a ≡ b
inr_inj e = cc

sign_differs : {m n : ℕ} → Path (Option (Bool × ℕ)) (some (true, m)) (some (false, n)) → ⊥
sign_differs e =
    true≢false (ap (λ (o : Option (Bool × ℕ)). elim o [ none ↦ true | some x ↦ x.0 ]) e)

size_inj : {m n : ℕ} → Path (Option (Bool × ℕ)) (some (false, m)) (some (false, n)) → m ≡ n
size_inj {m} e = ap (λ (o : Option (Bool × ℕ)). elim o [ none ↦ m | some x ↦ x.1 ]) e

not_inr : {A B : Type 0} {a : A} {b : B} → Path (A ⊎ B) (inl a) (inr b) → ⊥
not_inr e = cc

-- a count of minutes that was read, and its duration
pub record Minutes (count : Option (Bool × ℕ)) (duration : ℕ) : Type 0 where
  pub minutes : ℕ
  pub count_is : count ≡ some (false, minutes)
  pub positive : 0 < minutes
  pub duration_is : duration ≡ (minutes * minute) % 2 ^ 64

minutes_duration-Minutes :
    (s : String) (count : Option (Bool × ℕ)) (d : ℕ)
    → minutes_duration s count ≡ inr d
    → Minutes count d
unfolding minutes_duration
minutes_duration-Minutes s none d e = absurd (not_inr e)
minutes_duration-Minutes s (some (true, n)) d e = absurd (not_inr e)
minutes_duration-Minutes s (some (false, n)) d e = elim (Bool-cases (eqb n 0)) [
  | inl nothing ↦ absurd (not_inr (rw nothing at e))
  | inr some_minutes ↦ record {
    minutes = n;
    count_is = refl;
    positive = ground (some_minutes, arith);
    duration_is = sym (inr_inj (rw some_minutes at e));
  }
]

-- an accepted text is the minutes and `m`, once its white space is gone
pub parsed-Minutes :
    (text : String) (d : ℕ)
    → parse_scheduling_interval text ≡ inr d
    → (trim_suffix (trim_space text) "m" <> "m" ≡ trim_space text)
      × Minutes (atoi (trim_suffix (trim_space text) "m")) d
unfolding parse_scheduling_interval parse_trimmed
parsed-Minutes text d e = elim (Bool-cases (has_suffix (trim_space text) "m")) [
  | inl ends ↦ (trim_suffix-has_suffix _ "m" ends, minutes_duration-Minutes _ _ d (rw ends at e))
  | inr other ↦ absurd (not_inr (rw other at e))
]

in_range-below : (o : Option ℕ) (n : ℕ) → in_range false o ≡ some (false, n) → n < 2 ^ 63
unfolding in_range
in_range-below none n e = absurd (not_some e)
in_range-below (some k) n e = elim (Bool-cases (ltb k (2 ^ 63))) [
  | inl small ↦ ground (arith, small, size_inj (rw small at e))
  | inr large ↦ absurd (not_some (rw large at e))
]

-- a text with a minus is no count without one
in_range-negative : (o : Option ℕ) (n : ℕ) → in_range true o ≡ some (false, n) → ⊥
unfolding in_range
in_range-negative none n e = not_some e
in_range-negative (some k) n e = elim (Bool-cases (ltb k (2 ^ 63) || eqb k (2 ^ 63))) [
  | inl fits ↦ sign_differs (rw fits at e)
  | inr large ↦ not_some (rw large at e)
]

atoi-below : (text : String) (n : ℕ) → atoi text ≡ some (false, n) → n < 2 ^ 63
unfolding atoi
atoi-below String.[] n e = absurd (not_some e)
atoi-below (String.◌∷◌ c s) n e = elim (Bool-cases (eqb (code c) b'-')) [
  | inl minus ↦ absurd (in_range-negative (unsigned s) n (rw minus at e))
  | inr other ↦ elim (Bool-cases (eqb (code c) b'+')) [
    | inl plus ↦ in_range-below (unsigned s) n (rw plus at (rw other at e))
    | inr none_before ↦
        in_range-below (unsigned (String.◌∷◌ c s)) n (rw none_before at (rw other at e))
  ]
]

-- A text that ParseSchedulingInterval accepts is, without the white space around it, a number and
-- `m`. The number is positive and below 2^63, and the duration is that many minutes in int64
-- arithmetic, where it may wrap.
pub parse_scheduling_interval-bounds :
    (text : String) (d : ℕ)
    → parse_scheduling_interval text ≡ inr d
    → (n : ℕ) × (trim_suffix (trim_space text) "m" <> "m" ≡ trim_space text)
      × (atoi (trim_suffix (trim_space text) "m") ≡ some (false, n))
      × (0 < n)
      × (n < 2 ^ 63)
      × (d ≡ (n * minute) % 2 ^ 64)
parse_scheduling_interval-bounds text d e =
    let (ends, m) = parsed-Minutes text d e in
    (m.minutes, ends, m.count_is, m.positive, atoi-below _ _ m.count_is, m.duration_is)

pub parsed-fits : (text : String) (d : ℕ) → parse_scheduling_interval text ≡ inr d → d < 2 ^ 64
parsed-fits text d e = let (_, m) = parsed-Minutes text d e in ground (arith, m.duration_is)
