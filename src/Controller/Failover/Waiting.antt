-- ===== src/Controller/Failover/Waiting.antt =====
-- When checkFailoverSafety asks to wait.
use mathlib.Core.Bool.{true≢false}
use mock_storage_operator.Prelude.{
  not-false, ◌⊎◌, ◌≤◌, ◌%◌, ◌^◌, String, ltb, arith, sym, ◌∙◌, ℕ, ◌≡◌, refl, true, false, not, ◌||◌,
  ◌==◌, Option, none, some, Bool-cases, inl, inr,
}
use mock_storage_operator.Exec.{ok, Reply, value, error, attempt}
use mock_storage_operator.Exec.Ensures.{
  Ensures, Ensures-at, Ensures-bind, Ensures-if, Ensures-pure, Ensures-self,
}
use mock_storage_operator.Objects.{Vgr, Vrg, VgrClass}
use mock_storage_operator.Client.{Client}
use mock_storage_operator.Controller.Session.{Result, after_seconds}
use mock_storage_operator.Controller.Configuration.{primary_configuration}
use mock_storage_operator.Controller.Interval.{
  IntervalError, below, min_interval, max_interval, parse_scheduling_interval,
  is_within_schedule_window,
}
use mock_storage_operator.Controller.Interval.Bounds.{parsed-fits}
use mock_storage_operator.Controller.Interval.Window.{
  clear_of_ticks, outside-within_window, regular-bounds, is_within_schedule_window-clear_of_ticks,
}
use mock_storage_operator.Controller.Failover.{
  is_failover, is_primary_state, owner_key, window_result, failover_result, check_failover_safety,
}

-- why the check is outside the window at a time: the parser refuses the interval, which then holds
-- at every time; or the time lies less than a minute after a multiple of an interval of 5 to 15
-- minutes, or a minute or less before the next; or UnixNano has wrapped
pub data IsShut (time : ℕ) (text : String) : Type 0 where
  refused : (e : IntervalError) → parse_scheduling_interval text ≡ inl e → IsShut time text
  near_tick :
      (interval : ℕ)
      → parse_scheduling_interval text ≡ inr interval
      → min_interval ≤ interval
      → interval ≤ max_interval
      → clear_of_ticks interval (time % interval) ≡ false
      → IsShut time text
  wrapped : 2 ^ 63 ≤ time → IsShut time text

parsed_or_not :
    (text : String)
    → ((e : IntervalError) × (parse_scheduling_interval text ≡ inl e))
      ⊎ ((i : ℕ) × (parse_scheduling_interval text ≡ inr i))
parsed_or_not text = either_of (parse_scheduling_interval text)
  where
    either_of :
        (p : IntervalError ⊎ ℕ) → ((e : IntervalError) × (p ≡ inl e)) ⊎ ((i : ℕ) × (p ≡ inr i))
    either_of (inl e) = inl (e, refl)
    either_of (inr i) = inr (i, refl)

shut_at :
    (time interval : ℕ) (text : String)
    → parse_scheduling_interval text ≡ inr interval
    → is_within_schedule_window time text ≡ false
    → IsShut time text
unfolding is_within_schedule_window
shut_at time interval text parsed shut =
    elim (Bool-cases (below interval min_interval || below max_interval interval)) [
      | inl out ↦
          let opened = outside-within_window time interval out in
          absurd (true≢false (sym opened ∙ rw (parsed, is_within_schedule_window) at shut))
      | inr regular ↦
          let (long, short) = regular-bounds interval (parsed-fits text interval parsed) regular in
          elim (Bool-cases (ltb time (2 ^ 63))) [
            | inl early ↦ near_tick interval parsed long short (
                sym (
                  is_within_schedule_window-clear_of_ticks time interval text parsed long short
                    (ground (arith, early)))
                ∙ shut)
            | inr late ↦ wrapped (ground (arith, late))
          ]
    ]

is_within_schedule_window-IsShut :
    (time : ℕ) (text : String) → is_within_schedule_window time text ≡ false → IsShut time text
is_within_schedule_window-IsShut time text shut = elim (parsed_or_not text) [
  | inl (e, refused_by) ↦ refused e refused_by
  | inr (interval, parsed) ↦ shut_at time interval text parsed shut
]

-- the owner was read, is failing over and is not yet primary, and the window was shut
pub record Waits (C : Client) (vgr_class : VgrClass) (vgr : Vgr) (result : Result)
    (before after : C.World) : Type 0 where
  pub vrg : Vrg
  pub world : C.World
  pub time : ℕ
  pub was_read : attempt (C.get_vrg (owner_key vgr)) before ≡ (ok (value vrg), world)
  pub failing_over : is_failover vrg.action ≡ true
  pub not_primary : is_primary_state vrg.state ≡ false
  pub clock : C.now world ≡ (ok time, after)
  pub shut : IsShut time (primary_configuration vgr_class.parameters).scheduling_interval
  pub in_half_a_minute : result ≡ after_seconds 30

abbrev pub WaitsOrGoes : (C : Client) → VgrClass → Vgr → C.World → Option Result → C.World → Type 0
WaitsOrGoes C vgr_class vgr before none after = Unit {0}
WaitsOrGoes C vgr_class vgr before (some result) after = Waits C vgr_class vgr result before after

module _ (C : Client) (vgr_class : VgrClass) (vgr : Vgr) (before : C.World) where
  in_failover :
      (vrg : Vrg) (w : C.World)
      → attempt (C.get_vrg (owner_key vgr)) before ≡ (ok (value vrg), w)
      → is_failover vrg.action ≡ true
      → is_primary_state vrg.state ≡ false
      → (time : ℕ) (after : C.World) → C.now w ≡ (ok time, after)
      → WaitsOrGoes C vgr_class vgr before
          (window_result (primary_configuration vgr_class.parameters).scheduling_interval time)
          after
  unfolding window_result
  in_failover vrg w read failing away time after clock =
      elim (Bool-cases (
        is_within_schedule_window time
          (primary_configuration vgr_class.parameters).scheduling_interval)) [
            | inl open_window ↦ rw open_window tt
            | inr shut ↦ rw shut (record {
              vrg = vrg;
              world = w;
              time = time;
              was_read = read;
              failing_over = failing;
              not_primary = away;
              clock = clock;
              shut = is_within_schedule_window-IsShut time _ shut;
              in_half_a_minute = refl;
            })
          ]

  failover_result-Ensures :
      (r : Reply Vrg) (w : C.World)
      → attempt (C.get_vrg (owner_key vgr)) before ≡ (ok r, w)
      → Ensures (failover_result C vgr_class r) w (WaitsOrGoes C vgr_class vgr before)
  unfolding failover_result
  failover_result-Ensures (error e) w read = Ensures-pure none tt
  failover_result-Ensures (value vrg) w read =
      Ensures-if (not (is_failover vrg.action)) _ _ (λ _. Ensures-pure none tt)
        (λ failing.
          Ensures-if (is_primary_state vrg.state) _ _ (λ _. Ensures-pure none tt)
            (λ away. Ensures-bind (Ensures-self C.now w) (λ time after clock.
              Ensures-pure _ (in_failover vrg w read (not-false _ failing) away time after clock))))

  check-Ensures :
      Ensures (check_failover_safety C vgr_class vgr) before (WaitsOrGoes C vgr_class vgr before)
  unfolding check_failover_safety
  check-Ensures =
      Ensures-if ((owner_key vgr).name == "" || (owner_key vgr).namespace == "") _ _
        (λ _. Ensures-pure none tt)
        (λ _.
          Ensures-bind (Ensures-self (attempt (C.get_vrg (owner_key vgr))) before)
            failover_result-Ensures)

-- Where checkFailoverSafety asks for another reconcile, the owner that the group's labels name was
-- read, its action is Failover and its state is not Primary, and it asks for it after 30 seconds.
-- Then either ParseSchedulingInterval refuses the configured interval, whatever the time is; or the
-- interval is one of 5 to 15 minutes and the clock stood less than a minute after a multiple of it,
-- or a minute or less before the next; or the clock stood in 2262 or later.
pub check_failover_safety-Waits :
    (C : Client) (vgr_class : VgrClass) (vgr : Vgr) (before after : C.World) (result : Result)
    → check_failover_safety C vgr_class vgr before ≡ (ok (some result), after)
    → Waits C vgr_class vgr result before after
check_failover_safety-Waits C vgr_class vgr before after result returned =
    Ensures-at (check-Ensures C vgr_class vgr before) returned
