-- ===== src/Controller/Primary/Conflict.antt =====
-- A VolumeReplicationGroup that is secondary while the primary reconciler runs.
use mathlib.Core.Bool.{or-true}
use mock_storage_operator.Prelude.{◌≡◌, ap, ◌∙◌, refl, true, none, some, List, [], ◌∷◌, ◌++◌}
use mock_storage_operator.Exec.{Outcome, ok, err, panic, reply_of, resume, pure, ◌>>=◌}
use mock_storage_operator.Objects.{Vrg, Vgr, VgrClass, LabelSelector, Requirement}
use mock_storage_operator.Client.{Client}
use mock_storage_operator.Controller.Session.{Session, Result, no_requeue, on_world}
use mock_storage_operator.Controller.FinalSync.{is_secondary}
use mock_storage_operator.Controller.FinalSync.Trigger.{in_namespace}
use mock_storage_operator.Controller.Primary.Pausing.{
  ConflictCheck, any_secondary, after_pausing, pause_all_replication_sources, conflict_of,
  check_vrg_conflict,
}
use mock_storage_operator.Controller.Primary.{
  reconcile, reconcile_by, after_conflict, return_result,
}

-- what the reconciler makes of the end of the pausing
abbrev pub paused_outcome : Outcome (Unit {0}) → Outcome Result
paused_outcome (ok done) = ok no_requeue
paused_outcome (err e) = panic
paused_outcome panic = panic

-- what checkVRGConflict makes of it
abbrev checked : Outcome (Unit {0}) → Outcome ConflictCheck
checked (ok done) = ok (record { result = some no_requeue; failure = none })
checked (err e) = ok (record { result = none; failure = some e })
checked panic = panic

any_secondary-listed :
    (before after : List Vrg) (vrg : Vrg)
    → is_secondary vrg.replication_state ≡ true
    → any_secondary (before ++ vrg ∷ after) ≡ true
unfolding any_secondary
any_secondary-listed [] after vrg secondary = rw secondary refl
any_secondary-listed (v ∷ before) after vrg secondary =
    rw (any_secondary-listed before after vrg secondary) (or-true _)

pausing_checked :
    {W : Type 0} (r : Outcome (Unit {0})) (w : W)
    → resume (reply_of r) (λ reply. pure (after_pausing reply)) w ≡ (checked r, w)
unfolding after_pausing ◌>>=◌
pausing_checked (ok done) w = refl
pausing_checked (err e) w = refl
pausing_checked panic w = refl

module _ (C : Client) where
  check-secondary :
      (vgr : Vgr) (vrgs : List Vrg) (w w1 : C.World)
      → C.list_vrgs (in_namespace vgr.namespace) w ≡ (ok vrgs, w1)
      → any_secondary vrgs ≡ true
      → check_vrg_conflict C vgr w ≡ (
        checked (pause_all_replication_sources C vgr.namespace w1).0,
        (pause_all_replication_sources C vgr.namespace w1).1,
      )
  unfolding check_vrg_conflict conflict_of ◌>>=◌
  check-secondary vgr vrgs w w1 listed secondary = rw listed (
      rw secondary (
        pausing_checked (pause_all_replication_sources C vgr.namespace w1).0
          (pause_all_replication_sources C vgr.namespace w1).1))

  conflict_returned :
      (cls : VgrClass) (rs : List Requirement) (r : Outcome (Unit {0})) (s : Session C.World)
      → resume (checked r) (after_conflict C cls rs) s ≡ (paused_outcome r, s)
  unfolding after_conflict return_result ◌>>=◌
  conflict_returned cls rs (ok done) s = refl
  conflict_returned cls rs (err e) s = refl
  conflict_returned cls rs panic s = refl

  by_selector :
      (cls : VgrClass) (vgr : Vgr) (selector : LabelSelector) (rs : List Requirement)
      (w w2 : C.World) (r : Outcome (Unit {0}))
      → C.label_selector_as_selector selector ≡ ok rs
      → check_vrg_conflict C vgr w ≡ (checked r, w2)
      → reconcile_by C cls vgr (some selector) (record { world = w; vgr = vgr })
        ≡ (paused_outcome r, record { world = w2; vgr = vgr })
  unfolding reconcile_by on_world ◌>>=◌
  by_selector cls vgr selector rs w w2 r valid check =
      rw valid (rw check (conflict_returned cls rs r (record { world = w2; vgr = vgr })))

  -- Where the group's selector is valid and a VolumeReplicationGroup that asks for the secondary
  -- state is among those listed in the group's namespace, the primary reconciler does nothing more
  -- than pauseAllReplicationSources. It returns normally, with no requeue, just when that does; an
  -- error of it is never returned, since the reconciler then panics.
  pub reconcile-paused_outcome :
      (cls : VgrClass) (vgr : Vgr) (selector : LabelSelector) (rs : List Requirement)
      (before after : List Vrg) (vrg : Vrg) (w w1 : C.World)
      → vgr.selector ≡ some selector
      → C.label_selector_as_selector selector ≡ ok rs
      → C.list_vrgs (in_namespace vgr.namespace) w ≡ (ok (before ++ vrg ∷ after), w1)
      → is_secondary vrg.replication_state ≡ true
      → reconcile C cls (record { world = w; vgr = vgr }) ≡ (
        paused_outcome (pause_all_replication_sources C vgr.namespace w1).0,
        record { world = (pause_all_replication_sources C vgr.namespace w1).1; vgr = vgr },
      )
  unfolding reconcile ◌>>=◌
  reconcile-paused_outcome cls vgr selector rs before after vrg w w1 selects valid listed
        secondary =
      ap (λ o. reconcile_by C cls vgr o (record { world = w; vgr = vgr })) selects
      ∙ by_selector cls vgr selector rs w _ _ valid (
          check-secondary vgr (before ++ vrg ∷ after) w w1 listed
            (any_secondary-listed before after vrg secondary))
