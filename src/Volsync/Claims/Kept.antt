-- ===== src/Volsync/Claims/Kept.antt =====
-- Claims that are there, and the calls that leave them there however they end.
use mock_storage_operator.Prelude.{
  ◌≡◌, sym, ap, ◌∙◌, ◌⊎◌, inl, inr, false, String, Option, none, some, Bool-cases,
}
use mock_storage_operator.Exec.{Reply, value, error, is_not_found}
use mock_storage_operator.Exec.Preserves.{Preserves, Preserves-attempt, preserves_rules}
use mock_storage_operator.Exec.Ends.{
  Ends, Ends-always, Ends-Ensures, Ends-pure, Ends-fail, Ends-if, Ends-Preserves, Ends-bind,
}
use mock_storage_operator.Objects.{Key, key_of, Pvc, Pv}
use mock_storage_operator.Client.{Client}
use mock_storage_operator.Client.Laws.{Cluster, IsLawful, Read, key_eq, put}
use mock_storage_operator.Client.Settling.{IsSettling}
use mock_storage_operator.Volsync.Claims.{
  get_pv_from_pvc, remove_finalizer_from, remove_finalizer_from_pvc,
}
use mock_storage_operator.Volsync.Claims.Effects.{key_of_read}

-- a claim that is there
abbrev pub IsStored : Option Pvc → Type 0
IsStored none = ⊥
IsStored (some p) = Unit {0}

pub IsStored-some : (o : Option Pvc) (p : Pvc) → o ≡ some p → IsStored o
IsStored-some o p e = rw e tt

pub IsStored-same : (o o' : Option Pvc) → o ≡ o' → IsStored o → IsStored o'
IsStored-same o o' e h = rw (sym e) h

-- a write of a claim that stays leaves every claim that is there
pub put-IsStored :
    (k j : Key) (p : Pvc) (f : Key → Option Pvc) → IsStored (f j) → IsStored (put k (some p) f j)
put-IsStored k j p f h = elim (Bool-cases (key_eq k j)) [
  | inl same ↦ rw same tt
  | inr other ↦ rw other h
]

-- a call that is done or not done
pub settled :
    (P : Cluster → Type 0) {after before expected : Cluster}
    → (after ≡ before) ⊎ (after ≡ expected)
    → P before
    → P expected
    → P after
settled P (inl same) h new = rw same h
settled P (inr done) h new = rw done new

module _ (C : Client) (L : IsLawful C) (S : IsSettling C L) where
  abbrev pub Claim : Key → C.World → Type 0
  Claim k w = IsStored ((L.view w).pvc k)

  pub update_pv-Claim : (j : Key) (v : Pv) → Preserves (Claim j) (C.update_pv v)
  update_pv-Claim j v = record {
    after = λ w h. settled (λ c. IsStored (c.pvc j)) (S.update_pv v w) h h;
  }

  pub get_pvc-Claim : (j k : Key) → Preserves (Claim j) (C.get_pvc k)
  get_pvc-Claim j k = record { after = λ w h. rw (S.get_pvc k w) h }

  -- an update of another claim
  pub update_pvc-Claim :
      (j : Key) (p : Pvc) → key_eq (key_of p.meta) j ≡ false → Preserves (Claim j) (C.update_pvc p)
  update_pvc-Claim j p other = record {
    after = λ w h. settled (λ c. IsStored (c.pvc j)) (S.update_pvc p w) h (rw other h);
  }

  -- a deletion of another claim
  pub delete_pvc-Claim : (j k : Key) → key_eq k j ≡ false → Preserves (Claim j) (C.delete_pvc k)
  delete_pvc-Claim j k other = record {
    after = λ w h. elim (S.delete_pvc k w) [
      | inl same ↦ rw same h
      | inr (t, done) ↦ rw done (rw other h)
    ];
  }

  pub create_pvc-Claim : (j : Key) (p : Pvc) → Preserves (Claim j) (C.create_pvc p)
  create_pvc-Claim j p = record {
    after = λ w h.
        settled (λ c. IsStored (c.pvc j)) (S.create_pvc p w) h
          (put-IsStored (key_of p.meta) j (L.admitted p) (L.view w).pvc h);
  }

  pub get_pvc-same : (c : Cluster) (k : Key) → Preserves (λ w. L.view w ≡ c) (C.get_pvc k)
  get_pvc-same c k = record { after = λ w h. S.get_pvc k w ∙ h }

  -- getPVFromPVC changes nothing
  pub get_pv_from_pvc-same :
      (c : Cluster) (k : Key) → Preserves (λ w. L.view w ≡ c) (get_pv_from_pvc C k)
  unfolding get_pv_from_pvc
  get_pv_from_pvc-same c k =
      let reads : (j : Key) → Preserves (λ w. L.view w ≡ c) (C.get_pvc j) =
        λ j. record { after = λ w h. S.get_pvc j w ∙ h } in
      let volumes : (n : String) → Preserves (λ w. L.view w ≡ c) (C.get_pv n) =
        λ n. record { after = λ w h. S.get_pv n w ∙ h } in
      search (preserves_rules, reads, volumes)

  remove_finalizer_from-Claim :
      (j k : Key) (before : Cluster) (r : Reply Pvc) (w : C.World)
      → key_eq k j ≡ false
      → Read (before.pvc k) before r (L.view w) × Claim j w
      → Ends (remove_finalizer_from C r) w (λ _ w'. Claim j w') (Claim j)
  unfolding remove_finalizer_from
  remove_finalizer_from-Claim j k before (error e) w other (read, h) =
      Ends-if (is_not_found e) _ _ (λ _. Ends-pure tt h) (λ _. Ends-fail _ h)
  remove_finalizer_from-Claim j k before (value pvc) w other (read, h) =
      let updates : (p : Pvc)
          → key_of p.meta ≡ key_of pvc.meta
          → Preserves (Claim j) (C.update_pvc p) =
        λ p same.
          update_pvc-Claim j p
            (ap (λ q. key_eq q j) (same ∙ key_of_read C L k pvc before w read.0 read.1) ∙ other) in
      Ends-Preserves (search (preserves_rules, updates)) h (λ _ h'. h')

  -- removeFinalizerFromPVC on another claim
  pub remove_finalizer_from_pvc-Claim :
      (j k : Key) → key_eq k j ≡ false → Preserves (Claim j) (remove_finalizer_from_pvc C k)
  unfolding remove_finalizer_from_pvc
  remove_finalizer_from_pvc-Claim j k other = record {
    after = λ w h. Ends-always (
        Ends-bind
          (Ends-Ensures {P = Claim j} (L.get_pvc k w)
            ((Preserves-attempt _ (get_pvc-Claim j k)).after w h) (λ _ h'. h'))
          (λ r w' read. remove_finalizer_from-Claim j k (L.view w) r w' other read));
  }
