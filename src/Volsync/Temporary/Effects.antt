-- ===== src/Volsync/Temporary/Effects.antt =====
-- What CreateTemporaryPVCFromTerminating does to a lawful cluster when it returns normally.
use Prim.Native.String.{count}
use text.Mathlib.TextEquality.{eq_iff}
use text.Mathlib.TextLemmas.{length-append}
use mock_storage_operator.Prelude.{
  ◌≡◌, refl, ap, ◌∙◌, true, false, String, ◌==◌, eq_refl, Option, none, some, inl, inr, arith,
  Bool-cases,
}
use mock_storage_operator.Exec.{Reply, value, error, is_not_found}
use mock_storage_operator.Exec.Ensures.{
  Ensures, Ensures-pure, Ensures-fail, Ensures-if, Ensures-wrapping, Ensures-value, Ensures-bind,
}
use mock_storage_operator.Objects.{Key, key_of, Pvc, Pv}
use mock_storage_operator.Client.{Client}
use mock_storage_operator.Client.Laws.{Cluster, IsLawful, key_eq, put, put_name, Read}
use mock_storage_operator.Volsync.Temporary.{
  temporary_key, temporary_name, claim_ref_to, refers_to, create_if_missing, point_volume_at,
}
use mock_storage_operator.Volsync.Claims.Effects.{claim-put, claim-same}

-- no claim is its own temporary claim
temporary_name_ne : (s : String) → (s == temporary_name s) ≡ false
temporary_name_ne s = elim (Bool-cases (s == temporary_name s)) [
  | inl same ↦
      absurd
        (omega (arith, ap count ((eq_iff s (temporary_name s)).0 same), length-append s "-tmp"))
  | inr differ ↦ differ
]

pub temporary_key_ne : (k : Key) → key_eq k (temporary_key k) ≡ false
temporary_key_ne k = rw (eq_refl, temporary_name_ne)

pub key_eq-sym : (a b : Key) → key_eq a b ≡ false → key_eq b a ≡ false
key_eq-sym a b e = ground (
  arith,
  eq_iff a.namespace b.namespace,
  eq_iff b.namespace a.namespace,
  eq_iff a.name b.name,
  eq_iff b.name a.name,
)

-- the claim that is there in the end: the one that was there, or the one that is made
abbrev pub kept_or : Pvc → Option Pvc → Pvc
kept_or made none = made
kept_or made (some existing) = existing

-- the volume is there and refers to the claim
abbrev pub Refers : Key → Option Pv → Type 0
Refers k none = ⊥
Refers k (some v) = refers_to v.claim_ref k ≡ true

refers_to-claim_ref_to : (k : Key) → refers_to (some (claim_ref_to k)) k ≡ true
unfolding refers_to
refers_to-claim_ref_to k = simp eq_refl

pub record PointsAt (k : Key) (name : String) (before after : Cluster) : Type 0 where
  pub claims : after.pvc ≡ before.pvc
  pub refers : Refers k (after.pv name)
  pub other_volumes : (n : String) → (name == n) ≡ false → after.pv n ≡ before.pv n

module _ (C : Client) (L : IsLawful C) where
  pub record HeldBy (made : Pvc) (before after : Cluster) : Type 0 where
    pub held :
        after.pvc (key_of made.meta)
        ≡ some (kept_or (L.admitted made) (before.pvc (key_of made.meta)))
    pub other_claims : (j : Key) → key_eq (key_of made.meta) j ≡ false → after.pvc j ≡ before.pvc j
    pub volumes : after.pv ≡ before.pv

  -- a claim that was created where none was
  pub held_when_created :
      (made : Pvc) (before after : Cluster)
      → after ≡ record before { pvc = put (key_of made.meta) (some (L.admitted made)) before.pvc }
      → before.pvc (key_of made.meta) ≡ none
      → HeldBy made before after
  held_when_created made before after e missing = record {
    held = rw missing (claim-put (key_of made.meta) _ before after e);
    other_claims = λ j other. ap (λ (c : Cluster). c.pvc j) e ∙ rw other;
    volumes = ap (λ (c : Cluster). c.pv) e;
  }

  -- a claim that was there before
  pub held_when_there :
      (made existing : Pvc) (before after : Cluster)
      → after ≡ before
      → before.pvc (key_of made.meta) ≡ some existing
      → HeldBy made before after
  held_when_there made existing before after e there = record {
    held = rw there (claim-same (key_of made.meta) before after e ∙ there);
    other_claims = λ j _. ap (λ (c : Cluster). c.pvc j) e;
    volumes = ap (λ (c : Cluster). c.pv) e;
  }

  pub create_if_missing-Ensures :
      (made : Pvc) (before : Cluster) (r : Reply Pvc) (w : C.World)
      → Read (before.pvc (key_of made.meta)) before r (L.view w)
      → Ensures (create_if_missing C made r) w (λ _ w'. HeldBy made before (L.view w'))
  unfolding create_if_missing
  create_if_missing-Ensures made before (value existing) w read =
      Ensures-pure tt (held_when_there made existing before _ read.0 read.1)
  create_if_missing-Ensures made before (error e) w read =
      Ensures-if (is_not_found e) _ _
        (λ missing.
          Ensures-bind
            (Ensures-wrapping _ (
              Ensures-value (L.create_pvc made w) λ r w' h.
                held_when_created made before _ (rw (read missing).0 at h.0) (read missing).1))
            (λ _ w' h. Ensures-pure tt h))
        (λ _. Ensures-fail _)

  pub pointed_by :
      (k : Key) (pv : Pv) (before after : Cluster)
      → after ≡ record before {
        pv = put_name pv.name (some (record pv { claim_ref = some (claim_ref_to k) })) before.pv;
      }
      → PointsAt k pv.name before after
  pointed_by k pv before after e = record {
    claims = ap (λ (c : Cluster). c.pvc) e;
    refers =
        rw (ap (λ (c : Cluster). c.pv pv.name) e) (rw (eq_refl pv.name) (refers_to-claim_ref_to k));
    other_volumes = λ n other. ap (λ (c : Cluster). c.pv n) e ∙ rw other;
  }

  pub point_volume_at-Ensures :
      (k : Key) (pv : Pv) (w : C.World)
      → (L.view w).pv pv.name ≡ some pv
      → Ensures (point_volume_at C k pv) w (λ _ w'. PointsAt k pv.name (L.view w) (L.view w'))
  unfolding point_volume_at
  point_volume_at-Ensures k pv w there =
      Ensures-if (refers_to pv.claim_ref k) _ _
        (λ refers.
          Ensures-pure tt
            (record { claims = refl; refers = rw there refers; other_volumes = λ _ _. refl }))
        (λ _.
          Ensures-bind
            (Ensures-wrapping _
              (Ensures-value (L.update_pv _ w) λ _ w' e. pointed_by k pv (L.view w) (L.view w') e))
            (λ _ w' h. Ensures-pure tt h))
