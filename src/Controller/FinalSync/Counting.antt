-- ===== src/Controller/FinalSync/Counting.antt =====
-- The counts that ProcessFinalSync keeps.
use mock_storage_operator.Prelude.{
  ℕ, ◌+◌, ◌≤◌, ◌≡◌, refl, ap, ◌∙◌, Bool, true, false, not, ◌||◌, String, List, [], ◌∷◌, ◌++◌, eqb,
  arith, if◌then◌else◌,
}
use mock_storage_operator.Prelude.Dict
use mock_storage_operator.Exec.{Exec, ok, Outcome, err, panic}
use mock_storage_operator.Exec.Ensures.{
  Post, Ensures, Ensures-pure, Ensures-fail, Ensures-if, Ensures-weaken, Ensures-bind, Ensures-true,
  Ensures-at,
}
use mock_storage_operator.Objects.{Pvc, PvcPhase, claim_lost, claim_bound, claim_pending}
use mock_storage_operator.Client.{Client}
use mock_storage_operator.Controller.Session.{Session, on_world}
use mock_storage_operator.Controller.FinalSync.{
  FinalSyncResult, FinalSyncOutcome, FirstPhase, SecondPhase, count_items, is_temporary_pvc,
  is_secondary_state, first_phase_step, first_phase, second_phase_step, second_phase,
  run_final_sync, process_final_sync,
}
use mock_storage_operator.Controller.FinalSync.Trigger.{
  without_bind_completed, handle_phase, handle_lost_temporary_pvc,
}

-- a claim that is not temporary counts
abbrev one_if_main : Pvc → ℕ
one_if_main pvc = if is_temporary_pvc pvc then 0 else 1

unfoldable mains : List Pvc → ℕ
mains [] = 0
mains (pvc ∷ pvcs) = one_if_main pvc + mains pvcs

mains-append : (xs : List Pvc) (pvc : Pvc) → mains (xs ++ pvc ∷ []) ≡ mains xs + one_if_main pvc
unfolding mains
mains-append [] pvc = omega arith
mains-append (x ∷ xs) pvc = omega (arith, mains-append xs pvc)

count_items-append :
    (xs : List String) (x : String) → count_items (xs ++ x ∷ []) ≡ count_items xs + 1
count_items-append [] x = refl
count_items-append (y ∷ xs) x = omega (arith, count_items-append xs x)

count_items_zero : (xs : List String) → count_items xs ≤ 0 → xs ≡ []
count_items_zero [] le = refl
count_items_zero (x ∷ xs) le = absurd (omega (arith, le))

module _ {W A : Type 0} where
  on_world-Post :
      (Q : A → W → Type 0) (r : Outcome A) (w : W) (s : Session W)
      → Post Q (r, w)
      → Post (λ a (s' : Session W). Q a s'.world) (r, record s { world = w })
  on_world-Post Q (ok a) w s h = h
  on_world-Post Q (err e) w s h = tt
  on_world-Post Q panic w s h = tt

  pub Ensures-on_world :
      {m : Exec W A} {s : Session W} {Q : A → W → Type 0}
      → Ensures m s.world Q
      → Ensures (on_world m) s (λ a s'. Q a s'.world)
  unfolding on_world
  Ensures-on_world {m} {s} {Q} h = record {
    holds = on_world-Post Q (m s.world).0 (m s.world).1 s h.holds;
  }

module _ (C : Client) where
  handle_lost-Ensures :
      (pvc : Pvc) (phase : PvcPhase) (w : C.World)
      → Ensures (handle_phase C pvc phase) w (λ p _. one_if_main p ≡ one_if_main pvc)
  unfolding handle_phase
  handle_lost-Ensures pvc claim_bound w = Ensures-pure pvc refl
  handle_lost-Ensures pvc claim_pending w = Ensures-pure pvc refl
  handle_lost-Ensures pvc claim_lost w =
      Ensures-if (Dict.contains "pv.kubernetes.io/bind-completed" pvc.annotations) _ _
        (λ _.
          Ensures-bind (Ensures-true _ w)
            (λ _ w' _. Ensures-pure (without_bind_completed pvc) refl))
        (λ _. Ensures-pure pvc refl)

  -- what one claim adds to the total and to the list
  record Counted (n : ℕ) (before after : FirstPhase) : Type 0 where
    total : after.total ≡ before.total + n
    main : mains after.pvcs ≡ mains before.pvcs + n

  first_phase_step-Ensures :
      (pvc : Pvc) (acc : FirstPhase) (w : C.World)
      → Ensures (first_phase_step C pvc acc) w (λ one _. Counted (one_if_main pvc) acc one)
  unfolding first_phase_step handle_lost_temporary_pvc
  first_phase_step-Ensures pvc acc w =
      Ensures-if (is_temporary_pvc pvc) _ _
        (λ tmp. Ensures-bind (handle_lost-Ensures pvc pvc.phase w) λ p w' same.
          Ensures-pure _ (record {
            total = rw tmp (omega arith);
            main = mains-append acc.pvcs p ∙ ap (λ n. mains acc.pvcs + n) same;
          }))
        (λ main. Ensures-bind (Ensures-true _ w) λ terminating w' _.
          Ensures-if terminating _ _
            (λ _. Ensures-bind (Ensures-true _ w') λ _ w'' _.
              Ensures-pure _ (record { total = rw main refl; main = mains-append acc.pvcs pvc }))
            (λ _.
              Ensures-pure _ (record { total = rw main refl; main = mains-append acc.pvcs pvc })))

  first_phase-Ensures :
      (pvcs : List Pvc) (acc : FirstPhase) (w : C.World)
      → Ensures (first_phase C pvcs acc) w (λ one _. Counted (mains pvcs) acc one)
  unfolding first_phase mains
  first_phase-Ensures [] acc w =
      Ensures-pure acc (record { total = omega arith; main = omega arith })
  first_phase-Ensures (pvc ∷ pvcs) acc w =
      Ensures-bind (first_phase_step-Ensures pvc acc w) λ one w' step.
        Ensures-weaken (first_phase-Ensures pvcs one w') λ two w'' rest. record {
          total = omega (arith, step.total, rest.total);
          main = omega (arith, step.main, rest.main);
        }

  abbrev done : SecondPhase → ℕ
  done acc = acc.completed + count_items acc.in_sync

  counted_by :
      (complete : Bool) (acc : SecondPhase) (pvc : Pvc)
      → is_temporary_pvc pvc ≡ false
      → done (
          if complete
          then record acc { completed = acc.completed + 1 }
          else record acc { in_sync = acc.in_sync ++ pvc.name ∷ [] })
        ≤ done acc + one_if_main pvc
  counted_by true acc pvc main = rw main (omega arith)
  counted_by false acc pvc main = rw main (omega (arith, count_items-append acc.in_sync pvc.name))

  second_phase_step-Ensures :
      (pvc : Pvc) (acc : SecondPhase) (w : C.World)
      → Ensures (second_phase_step C pvc acc) w (λ two _. done two ≤ done acc + one_if_main pvc)
  unfolding second_phase_step
  second_phase_step-Ensures pvc acc w =
      Ensures-if (is_temporary_pvc pvc) _ _ (λ _. Ensures-pure acc (omega arith))
        λ main. Ensures-bind (Ensures-true _ w) λ has w1 _.
          Ensures-if (not has) _ _ (λ _. Ensures-pure acc (omega arith))
            λ _. Ensures-bind (Ensures-true _ w1) λ in_use w2 _.
              Ensures-if in_use _ _
                (λ _. Ensures-bind (Ensures-true _ w2) (λ _ w3 _. Ensures-fail _))
                (λ _.
                  Ensures-bind (Ensures-true _ w2)
                    λ complete w3 _. Ensures-pure _ (counted_by complete acc pvc main))

  second_phase-Ensures :
      (pvcs : List Pvc) (acc : SecondPhase) (w : C.World)
      → Ensures (second_phase C pvcs acc) w (λ two _. done two ≤ done acc + mains pvcs)
  unfolding second_phase mains
  second_phase-Ensures [] acc w = Ensures-pure acc (omega arith)
  second_phase-Ensures (pvc ∷ pvcs) acc w =
      Ensures-bind (second_phase_step-Ensures pvc acc w) λ one w' step.
        Ensures-weaken (second_phase-Ensures pvcs one w') λ two w'' rest. omega (arith, step, rest)

  -- a result that says that all is complete names no claim that is still in sync
  abbrev Consistent : FinalSyncResult → Type 0
  Consistent result = result.all_complete ≡ true → result.pvcs_in_sync ≡ []

  counts_agree :
      (one : FirstPhase) (two : SecondPhase) (n : ℕ)
      → one.total ≡ 0 + n
      → mains one.pvcs ≡ 0 + n
      → done two ≤ 0 + mains one.pvcs
      → eqb two.completed one.total ≡ true
      → two.in_sync ≡ []
  counts_agree one two n total main bound equal =
      count_items_zero two.in_sync (ground (arith, total, main, bound, equal))

  run_final_sync-Ensures :
      (pvcs : List Pvc) (s : Session C.World)
      → Ensures (run_final_sync C pvcs) s (λ (o : FinalSyncOutcome) _. Consistent o.0)
  unfolding run_final_sync mains
  run_final_sync-Ensures pvcs s = Ensures-bind (Ensures-true _ s) λ _ s1 _.
      Ensures-bind
        (Ensures-on_world
          (first_phase-Ensures pvcs (record { terminating = []; total = 0; pvcs = [] }) s1.world))
        λ one s2 counted.
          Ensures-if (not (eqb (count_items one.terminating) one.total)) _ _ (λ _. Ensures-fail _)
            λ _.
              Ensures-bind
                (Ensures-on_world
                  (second_phase-Ensures one.pvcs (record { completed = 0; in_sync = [] }) s2.world))
                λ two s3 bound.
                  Ensures-pure _
                    (counts_agree one two (mains pvcs) counted.total counted.main bound)

  process_final_sync-Ensures :
      (pvcs : List Pvc) (s : Session C.World)
      → Ensures (process_final_sync C pvcs) s (λ (o : FinalSyncOutcome) _. Consistent o.0)
  unfolding process_final_sync
  process_final_sync-Ensures pvcs s = Ensures-bind (Ensures-true _ s) λ should s1 _.
      Ensures-bind (Ensures-true _ s1) λ vgr s2 _.
        Ensures-if (not should || is_secondary_state vgr.status.state) _ _
          (λ _. Ensures-pure _ (λ _. refl)) (λ _. run_final_sync-Ensures pvcs s2)

  -- Where ProcessFinalSync reports that every final sync is complete, it names no claim whose final
  -- sync still runs.
  pub process_final_sync_complete :
      (pvcs pvcs' : List Pvc) (s s' : Session C.World) (result : FinalSyncResult)
      → process_final_sync C pvcs s ≡ (ok (result, pvcs'), s')
      → result.all_complete ≡ true
      → result.pvcs_in_sync ≡ []
  process_final_sync_complete pvcs pvcs' s s' result returned =
      Ensures-at (process_final_sync-Ensures pvcs s) returned
