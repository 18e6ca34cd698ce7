-- ===== src/Volsync/Restore/Effects.antt =====
-- What RestorePVCFromTemporary does to a lawful cluster when it returns normally.
use mock_storage_operator.Prelude.{
  ℕ, ◌≡◌, ◌≢◌, refl, ap, ◌∙◌, false, String, ◌==◌, Option, none, some, has_suffix,
  trim_suffix-has_suffix, Bool-cases, inl, inr, arith,
}
use mock_storage_operator.Exec.{Reply, value, error, is_not_found, is_already_exists}
use mock_storage_operator.Exec.Ensures.{
  Ensures, Ensures-pure, Ensures-fail, Ensures-if, Ensures-weaken, Ensures-wrapping, Ensures-value,
  Ensures-bind,
}
use mock_storage_operator.Objects.{Key, key_of, Pvc, Pv}
use mock_storage_operator.Client.{Client}
use mock_storage_operator.Client.Laws.{
  Cluster, IsLawful, key_eq, put, Created, Deleted, deleted_pvc,
}
use mock_storage_operator.Volsync.Restore.{
  temporary_key_for, main_key_for, restored_pvc, created_or_exists, deleted_or_missing, recreate,
}
use mock_storage_operator.Volsync.Temporary.{temporary_key}
use mock_storage_operator.Volsync.Temporary.Effects.{
  kept_or, Refers, PointsAt, HeldBy, held_when_created, held_when_there, pointed_by,
  temporary_key_ne, key_eq-sym,
}
use mock_storage_operator.Volsync.Claims.Effects.{
  MarkKept, Unguarded, claim-put, claim-same, remove_finalizer_from_pvc-Ensures,
}

-- The two names that RestorePVCFromTemporary works with belong together, whichever one it is given.
pub temporary_key-main_key_for : (k : Key) → temporary_key (main_key_for k) ≡ temporary_key_for k
unfolding main_key_for temporary_key_for
temporary_key-main_key_for k = elim (Bool-cases (has_suffix k.name "-tmp")) [
  | inl has ↦
      rw has (ap (λ (n : String). record k { name = n }) (trim_suffix-has_suffix k.name "-tmp" has))
  | inr lacks ↦ rw lacks refl
]

-- a claim that is not there, or is not being deleted
abbrev pub Live : Option Pvc → Type 0
Live none = Unit {0}
Live (some p) = p.deletion_timestamp ≡ none

-- a claim that is not there, or is being deleted
abbrev pub Going : Option Pvc → Type 0
Going none = Unit {0}
Going (some p) = p.deletion_timestamp ≢ none

pub deleted_pvc-Going : (t : ℕ) (o : Option Pvc) → Going (deleted_pvc t o)
deleted_pvc-Going t none = tt
deleted_pvc-Going t (some p) = ground arith

Going-MarkKept : (before after : Option Pvc) → Going before → MarkKept before after → Going after
Going-MarkKept before none going kept = tt
Going-MarkKept before (some p) going (q, e, same) = rw same (rw e at going)

module _ (C : Client) (L : IsLawful C) where
  pub created_or_exists-Ensures :
      (made : Pvc) (before : Cluster) (r : Reply Pvc) (w : C.World)
      → Created
          (before.pvc (key_of made.meta))
          before
          (record before { pvc = put (key_of made.meta) (some (L.admitted made)) before.pvc })
          r
          (L.view w)
      → Ensures (created_or_exists C r) w (λ _ w'. HeldBy C L made before (L.view w'))
  unfolding created_or_exists
  created_or_exists-Ensures made before (value p) w (e, missing) =
      Ensures-pure tt (held_when_created C L made before _ e missing)
  created_or_exists-Ensures made before (error x) w there =
      Ensures-if (is_already_exists x) _ _
        (λ exists. Ensures-pure tt (
          held_when_there C L made (there exists).1.0 before _ (there exists).0 (there exists).1.1))
        (λ _. Ensures-fail _)

  -- the claim is going and nothing else has changed
  pub record ClaimGoing (k : Key) (before after : Cluster) : Type 0 where
    pub going : Going (after.pvc k)
    pub others : (j : Key) → key_eq k j ≡ false → after.pvc j ≡ before.pvc j
    pub volumes : after.pv ≡ before.pv

  deleted_or_missing-Ensures :
      (k : Key) (before : Cluster) (r : Reply (Unit {0})) (w : C.World)
      → Deleted
          (before.pvc k)
          before
          (λ t. record before { pvc = put k (deleted_pvc t (before.pvc k)) before.pvc })
          r
          (L.view w)
      → Ensures (deleted_or_missing C r) w (λ _ w'. ClaimGoing k before (L.view w'))
  unfolding deleted_or_missing
  deleted_or_missing-Ensures k before (value _) w (t, e) = Ensures-pure tt (record {
    going = rw (claim-put k _ before _ e) (deleted_pvc-Going t (before.pvc k));
    others = λ j other. ap (λ (c : Cluster). c.pvc j) e ∙ rw other;
    volumes = ap (λ (c : Cluster). c.pv) e;
  })
  deleted_or_missing-Ensures k before (error x) w gone =
      Ensures-if (is_not_found x) _ _
        (λ missing. Ensures-pure tt (record {
          going = rw (claim-same k before _ (gone missing).0 ∙ (gone missing).1) tt;
          others = λ j other. ap (λ (c : Cluster). c.pvc j) (gone missing).0;
          volumes = ap (λ (c : Cluster). c.pv) (gone missing).0;
        }))
        (λ _. Ensures-fail _)

  -- what is there once a claim has been made again from its temporary one
  pub record Recreated (k : Key) (tmp : Pvc) (volume : Pv) (before after : Cluster) : Type 0 where
    pub restored :
        after.pvc k ≡ some (kept_or (L.admitted (restored_pvc k tmp volume)) (before.pvc k))
    pub refers : Refers k (after.pv volume.name)
    pub going : Going (after.pvc (temporary_key k))
    pub other_claims :
        (j : Key)
        → key_eq k j ≡ false
        → key_eq (temporary_key k) j ≡ false
        → after.pvc j ≡ before.pvc j
    pub other_volumes : (n : String) → (volume.name == n) ≡ false → after.pv n ≡ before.pv n

  -- the steps together
  Recreated-by :
      (k : Key) (tmp : Pvc) (volume : Pv) (c0 c1 c2 c3 c4 : Cluster)
      → HeldBy C L (restored_pvc k tmp volume) c0 c1
      → PointsAt k volume.name c1 c2
      → ClaimGoing (temporary_key k) c2 c3
      → Unguarded C L (temporary_key k) c3 c4
      → Recreated k tmp volume c0 c4
  unfolding restored_pvc
  Recreated-by k tmp volume c0 c1 c2 c3 c4 held points going un =
      let ne : key_eq (temporary_key k) k ≡ false =
        key_eq-sym k (temporary_key k) (temporary_key_ne k) in
      record {
        restored =
            un.only.others k ne
            ∙ going.others k ne
            ∙ ap (λ (f : Key → Option Pvc). f k) points.claims
            ∙ held.held;
        refers =
            rw (ap (λ (f : String → Option Pv). f volume.name) (un.only.volumes ∙ going.volumes))
              points.refers;
        going = Going-MarkKept _ _ going.going un.mark;
        other_claims = λ j other other_tmp.
            un.only.others j other_tmp
            ∙ going.others j other_tmp
            ∙ ap (λ (f : Key → Option Pvc). f j) points.claims
            ∙ held.other_claims j other;
        other_volumes = λ n other.
            ap (λ (f : String → Option Pv). f n) (un.only.volumes ∙ going.volumes)
            ∙ points.other_volumes n other
            ∙ ap (λ (f : String → Option Pv). f n) held.volumes;
      }

  pub recreate-Ensures :
      (k : Key) (tmp : Pvc) (volume : Pv) (before : Cluster) (w : C.World)
      → key_of tmp.meta ≡ temporary_key k
      → L.view w ≡ before
      → Ensures (recreate C k tmp volume) w (λ _ w'. Recreated k tmp volume before (L.view w'))
  unfolding recreate restored_pvc
  recreate-Ensures k tmp volume before w named same =
      Ensures-bind (L.create_pvc (restored_pvc k tmp volume) w) λ r w1 created.
        Ensures-bind
          (created_or_exists-Ensures (restored_pvc k tmp volume) before r w1 (rw same at created))
          λ _ w2 held.
            Ensures-bind
              (Ensures-wrapping _ (
                Ensures-value (L.update_pv _ w2)
                  λ _ w' e. pointed_by C L k volume (L.view w2) (L.view w') e))
              λ _ w3 points. Ensures-bind (L.delete_pvc (key_of tmp.meta) w3) λ r w4 deleted.
                Ensures-bind
                  (deleted_or_missing-Ensures (temporary_key k) (L.view w3) r w4
                    (rw named at deleted))
                  λ _ w5 going. Ensures-wrapping _ (
                    Ensures-weaken (remove_finalizer_from_pvc-Ensures C L (key_of tmp.meta) w5)
                      λ _ w6 un.
                        Recreated-by k tmp volume before (L.view w2) (L.view w3) (L.view w5)
                          (L.view w6) held points going (rw named at un))
