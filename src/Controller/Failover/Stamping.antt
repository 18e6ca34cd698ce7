-- ===== src/Controller/Failover/Stamping.antt =====
-- What updatePVCAnnotations writes.
use mock_storage_operator.Prelude.{
  ℕ, ◌≡◌, refl, ap, ◌∙◌, String, Option, none, some, List, [], ◌∷◌, Bool-cases, inl, inr,
}
use mock_storage_operator.Prelude.Dict.{lookup, lookup-insert}
use mock_storage_operator.Exec.{ok}
use mock_storage_operator.Exec.Ensures.{
  Ensures, Ensures-at, Ensures-bind, Ensures-pure, Ensures-value, Ensures-wrapping,
}
use mock_storage_operator.Exec.Loops.{All, IsStep, for_each-All}
use mock_storage_operator.Objects.{Key, key_of, Pvc}
use mock_storage_operator.Client.{Client}
use mock_storage_operator.Client.Laws.{
  Cluster, IsLawful, key_eq, put, after_update, unless_released,
}
use mock_storage_operator.Volsync.Claims.Effects.{key_eq_refl}
use mock_storage_operator.Controller.Failover.{stamped, stamp, update_pvc_annotations}

-- the claim carries the time, or there is none
abbrev pub Stamped : String → Option Pvc → Type 0
Stamped text none = Unit {0}
Stamped text (some pvc) = lookup "mock.storage.io/lastSyncTime" pvc.annotations ≡ some text

-- the listed claims carry the time, as far as they are there
abbrev pub AllStamped : String → List Pvc → Cluster → Type 0
AllStamped text pvcs cluster = All (λ pvc. Stamped text (cluster.pvc (key_of pvc.meta))) pvcs

stamped-Stamped : (text : String) (pvc : Pvc) → Stamped text (some (stamped text pvc))
unfolding stamped
stamped-Stamped text pvc =
    lookup-insert "mock.storage.io/lastSyncTime" "mock.storage.io/lastSyncTime" text pvc.annotations
    ∙ refl

unless_released-Stamped :
    (text : String) (pvc : Pvc) (mark : Option ℕ) (fs : List String)
    → Stamped text (some pvc)
    → Stamped text (unless_released mark fs pvc)
unless_released-Stamped text pvc none fs h = h
unless_released-Stamped text pvc (some t) [] h = tt
unless_released-Stamped text pvc (some t) (f ∷ fs) h = h

-- an update with the time on it leaves what is stamped stamped
put-Stamped :
    (text : String) (k j : Key) (o : Option Pvc) (f : Key → Option Pvc)
    → Stamped text o
    → Stamped text (f j)
    → Stamped text (put k o f j)
put-Stamped text k j o f new old = elim (Bool-cases (key_eq k j)) [
  | inl same ↦ rw same new
  | inr other ↦ rw other old
]

module _ (C : Client) (L : IsLawful C) (text : String) where
  abbrev stored_pvc : C.World → Key → Option Pvc
  stored_pvc w k = (L.view w).pvc k

  -- what is stamped stays so
  record Keeps (before after : C.World) : Type 0 where
    kept : (k : Key) → Stamped text (stored_pvc before k) → Stamped text (stored_pvc after k)

  updated-Stamped :
      (pvc : Pvc) (w w' : C.World)
      → L.view w' ≡ record (L.view w) {
        pvc = put (key_of pvc.meta) (after_update (stamped text pvc)) (L.view w).pvc;
      }
      → Stamped text (stored_pvc w' (key_of pvc.meta)) × Keeps w w'
  updated-Stamped pvc w w' e = (
    rw (ap (λ (c : Cluster). c.pvc (key_of pvc.meta)) e) (
        rw (key_eq_refl (key_of pvc.meta))
          (unless_released-Stamped text (stamped text pvc) _ _ (stamped-Stamped text pvc))),
    record {
      kept = λ k h. rw (ap (λ (c : Cluster). c.pvc k) e) (
          put-Stamped text (key_of pvc.meta) k _ (L.view w).pvc
            (unless_released-Stamped text (stamped text pvc) _ _ (stamped-Stamped text pvc)) h);
    },
  )

  stamp-Ensures :
      (pvc : Pvc) (w : C.World)
      → Ensures
          (stamp C text pvc)
          w
          (λ _ w'. Stamped text (stored_pvc w' (key_of pvc.meta)) × Keeps w w')
  unfolding stamp stamped
  stamp-Ensures pvc w = Ensures-wrapping _ (
      Ensures-bind (Ensures-value (L.update_pvc (stamped text pvc) w) (λ p w' written. written))
        λ _ w' written. Ensures-pure tt (updated-Stamped pvc w w' written))

  stamping-IsStep : IsStep (λ (pvc : Pvc) w. Stamped text (stored_pvc w (key_of pvc.meta))) Keeps
  stamping-IsStep = record {
    none_done = λ w. record { kept = λ k h. h };
    one_after_another =
        λ a b c first second. record { kept = λ k h. second.kept k (first.kept k h) };
    stays_done = λ pvc a b step h. step.kept (key_of pvc.meta) h;
  }

module _ (C : Client) (L : IsLawful C) where
  -- Where updatePVCAnnotations returns normally on a lawful cluster, with a sync time, every claim of
  -- its list that is still stored carries that time, in the format given, as its annotation.
  pub update_pvc_annotations-AllStamped :
      (format : ℕ → String) (pvcs : List Pvc) (latest_sync : ℕ) (w w' : C.World)
      → update_pvc_annotations C format pvcs (some latest_sync) w ≡ (ok tt, w')
      → AllStamped (format latest_sync) pvcs (L.view w')
  unfolding update_pvc_annotations
  update_pvc_annotations-AllStamped format pvcs latest_sync w w' returned =
      (Ensures-at
        (for_each-All (stamping-IsStep C L (format latest_sync)) (stamp C (format latest_sync))
          (stamp-Ensures C L (format latest_sync)) pvcs w)
        returned).0
