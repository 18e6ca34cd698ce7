-- ===== src/Controller/Interval/Window.antt =====
-- The window of isWithinScheduleWindow by the time since the last tick, and how soon it opens.
use mock_storage_operator.Prelude.{
  ℕ, ◌+◌, ◌-◌, ◌*◌, ◌/◌, ◌%◌, ◌^◌, ◌≤◌, ◌<◌, ◌≡◌, refl, inl, inr, Bool, true, false, ◌&&◌, ◌||◌,
  Bool-cases, String, ltb, leb, arith, sym, ◌∙◌,
}
use native.Mathlib.Nat.{mod-add-mod, mod-eq_of_lt, mod-eq-sub-mod}
use mock_storage_operator.Controller.Interval.Bounds.{parsed-fits}
use mock_storage_operator.Controller.Interval.{
  minute, below, min_interval, max_interval, within_ticks, within_last_tick, within_window,
  is_within_schedule_window, parse_scheduling_interval,
}

-- the time since the last tick lies a minute from both ticks
abbrev pub clear_of_ticks : ℕ → ℕ → Bool
clear_of_ticks interval since = leb minute since && ltb since (interval - minute)

within_ticks-since :
    (q i r : ℕ) → minute ≤ i → within_ticks (q * i + r) (q * i) (q * i + i) ≡ clear_of_ticks i r
unfolding within_ticks
within_ticks-since q i r long = ground arith

within_window-since :
    (now interval : ℕ)
    → min_interval ≤ interval
    → interval ≤ max_interval
    → now < 2 ^ 63
    → within_window now interval ≡ clear_of_ticks interval (now % interval)
unfolding within_window within_last_tick
within_window-since now i long short early =
    let same : now % 2 ^ 64 ≡ now = mod-eq_of_lt (omega arith) in
    rw same (ground (arith, within_ticks-since (now / i) i (now % i) (omega arith)))

-- In an interval of 5 to 15 minutes, whole minutes or not, the window is open just when at least a
-- minute has gone by since the last multiple of the interval and more than a minute is left to the
-- next; the time lies between 1970 and 2262, where UnixNano is defined.
pub is_within_schedule_window-clear_of_ticks :
    (now interval : ℕ) (text : String)
    → parse_scheduling_interval text ≡ inr interval
    → min_interval ≤ interval
    → interval ≤ max_interval
    → now < 2 ^ 63
    → is_within_schedule_window now text ≡ clear_of_ticks interval (now % interval)
unfolding is_within_schedule_window
is_within_schedule_window-clear_of_ticks now interval text parsed long short early =
    rw (parsed, is_within_schedule_window) (within_window-since now interval long short early)

pub outside-within_window :
    (now interval : ℕ)
    → (below interval min_interval || below max_interval interval) ≡ true
    → within_window now interval ≡ true
unfolding within_window
outside-within_window now interval out = rw out refl

-- the checks are made 30 seconds apart
abbrev pub poll : ℕ → ℕ → ℕ
poll now k = now + k * 30 * 1000000000

-- the time since the last tick, a while later
since_later : (now t i : ℕ) → now % i + t < i → (now + t) % i ≡ now % i + t
since_later now t i same = sym (mod-add-mod now i t) ∙ mod-eq_of_lt same

since_tick : (now t i : ℕ) → i ≤ now % i + t → now % i + t - i < i → (now + t) % i ≡ now % i + t - i
since_tick now t i over next = sym (mod-add-mod now i t) ∙ mod-eq-sub-mod over ∙ mod-eq_of_lt next

clear_later :
    (now i : ℕ) → min_interval ≤ i → (k : ℕ) × (k ≤ 4) × (clear_of_ticks i (poll now k % i) ≡ true)
clear_later now i long = elim (Bool-cases (ltb (now % i) minute)) [
  | inl early ↦ (2, omega arith, ground (arith, since_later now minute i, early))
  | inr later ↦ elim (Bool-cases (ltb (now % i) (i - minute))) [
    | inl clear ↦ (0, omega arith, ground (arith, since_later now 0 i, later, clear))
    | inr late ↦ (4, omega arith, ground (arith, since_tick now (2 * minute) i, late))
  ]
]

pub regular-bounds :
    (i : ℕ)
    → i < 2 ^ 64
    → (below i min_interval || below max_interval i) ≡ false
    → (min_interval ≤ i) × (i ≤ max_interval)
regular-bounds i fits regular = (ground (arith, regular), ground (arith, regular))

-- However long one has polled, the window opens: with an interval that ParseSchedulingInterval
-- accepts, this check or one of the next four that follow 30 seconds apart is inside the window; the
-- times lie between 1970 and 2262, where UnixNano is defined.
pub is_within_schedule_window-opens :
    (now interval : ℕ) (text : String)
    → parse_scheduling_interval text ≡ inr interval
    → poll now 4 < 2 ^ 63
    → (k : ℕ) × (k ≤ 4) × (is_within_schedule_window (poll now k) text ≡ true)
unfolding is_within_schedule_window
is_within_schedule_window-opens now interval text parsed early =
    elim (Bool-cases (below interval min_interval || below max_interval interval)) [
      | inl out ↦ (
        0,
        omega arith,
        rw (parsed, is_within_schedule_window) (outside-within_window _ interval out),
      )
      | inr regular ↦
          let (long, short) = regular-bounds interval (parsed-fits text interval parsed) regular in
          let (k, few, clear) = clear_later now interval long in
          (
            k,
            few,
            is_within_schedule_window-clear_of_ticks _ interval text parsed long short (omega arith)
                ∙ clear,
          )
    ]
