-- ===== src/Volsync/Claims/Effects.antt =====
-- What the operations of Volsync/Claims do to a lawful cluster when they return normally.
use mock_storage_operator.Prelude.{
  ℕ, String, List, [], ◌∷◌, refl, ◌≡◌, sym, ap, ◌∙◌, true, false, not, ◌==◌, eq_refl, Option, none,
  some, arith,
}
use mock_storage_operator.Exec.{Reply, value, error, is_not_found}
use mock_storage_operator.Exec.Ensures.{
  Ensures, Ensures-pure, Ensures-fail, Ensures-if, Ensures-wrapping, Ensures-value, Ensures-bind,
}
use mock_storage_operator.Objects.{Key, key_of, Pvc, Pv}
use mock_storage_operator.Client.{Client}
use mock_storage_operator.Client.Laws.{
  Cluster, IsLawful, key_eq, put, after_update, unless_released, Read, Written,
}
use mock_storage_operator.Volsync.{VsHandler, pvc_finalizer_name}
use mock_storage_operator.Volsync.Claims.{
  add_finalizer_to, add_finalizer_to_pvc, remove_finalizer_from, remove_finalizer_from_pvc,
  get_pv_from_pvc, ensure_labels_of, ensure_pvc_labels, validate_secret_and_add_owner_ref,
  secret_found, terminating_of, is_pvc_terminating, owner_labels,
}

pub key_eq_refl : (k : Key) → key_eq k k ≡ true
key_eq_refl k = simp eq_refl

-- only the claim `k` may differ
pub record OnlyClaim (k : Key) (before after : Cluster) : Type 0 where
  pub volumes : after.pv ≡ before.pv
  pub sources : after.rs ≡ before.rs
  pub destinations : after.rd ≡ before.rd
  pub others : (j : Key) → key_eq k j ≡ false → after.pvc j ≡ before.pvc j

pub OnlyClaim-refl : (k : Key) {before after : Cluster} → after ≡ before → OnlyClaim k before after
OnlyClaim-refl k {before} {after} e = record {
  volumes = ap (λ (c : Cluster). c.pv) e;
  sources = ap (λ (c : Cluster). c.rs) e;
  destinations = ap (λ (c : Cluster). c.rd) e;
  others = λ j _. ap (λ (c : Cluster). c.pvc j) e;
}

pub OnlyClaim-put :
    (k : Key) (o : Option Pvc) {before after : Cluster}
    → after ≡ record before { pvc = put k o before.pvc }
    → OnlyClaim k before after
OnlyClaim-put k o {before} {after} e = record {
  volumes = ap (λ (c : Cluster). c.pv) e;
  sources = ap (λ (c : Cluster). c.rs) e;
  destinations = ap (λ (c : Cluster). c.rd) e;
  others = λ j other. ap (λ (c : Cluster). c.pvc j) e ∙ rw other;
}

-- the claim after a write of it
pub claim-put :
    (k : Key) (o : Option Pvc) (before after : Cluster)
    → after ≡ record before { pvc = put k o before.pvc }
    → after.pvc k ≡ o
claim-put k o before after e = ap (λ (c : Cluster). c.pvc k) e ∙ rw (key_eq_refl k)

pub claim-same : (k : Key) (before after : Cluster) → after ≡ before → after.pvc k ≡ before.pvc k
claim-same k before after e = ap (λ (c : Cluster). c.pvc k) e

none-some : {A : Type 0} {o : Option A} {a : A} → o ≡ none → o ≡ some a → ⊥
none-some e f = cc

finalizers_after_update : (q p : Pvc) → after_update q ≡ some p → p.finalizers ≡ q.finalizers
finalizers_after_update q p e = ground arith

-- a claim that is stored has one list of finalizers
finalizers_stored :
    (o : Option Pvc) (p q : Pvc) → o ≡ some q → o ≡ some p → p.finalizers ≡ q.finalizers
finalizers_stored o p q e f = ground arith

-- a claim that is left has the mark that it had
abbrev pub MarkKept : Option Pvc → Option Pvc → Type 0
MarkKept before none = Unit {0}
MarkKept before (some p) =
    (q : Pvc) × (before ≡ some q) × (p.deletion_timestamp ≡ q.deletion_timestamp)

MarkKept-refl : (o : Option Pvc) → MarkKept o o
MarkKept-refl none = tt
MarkKept-refl (some p) = (p, refl, refl)

MarkKept-unless_released :
    (o : Option Pvc) (p q : Pvc) (mark : Option ℕ) (finalizers : List String)
    → o ≡ some q
    → p.deletion_timestamp ≡ q.deletion_timestamp
    → MarkKept o (unless_released mark finalizers p)
MarkKept-unless_released o p q none fs e same = (q, e, same)
MarkKept-unless_released o p q (some t) [] e same = tt
MarkKept-unless_released o p q (some t) (f ∷ fs) e same = (q, e, same)

module _ (C : Client) (L : IsLawful C) where
  pub record Guarded (k : Key) (before after : Cluster) : Type 0 where
    pub only : OnlyClaim k before after
    pub guarded :
        (p : Pvc)
        → after.pvc k ≡ some p
        → C.contains_finalizer p.finalizers pvc_finalizer_name ≡ true

  pub record Unguarded (k : Key) (before after : Cluster) : Type 0 where
    pub only : OnlyClaim k before after
    pub unguarded :
        (p : Pvc)
        → after.pvc k ≡ some p
        → C.contains_finalizer p.finalizers pvc_finalizer_name ≡ false
    pub mark : MarkKept (before.pvc k) (after.pvc k)

  -- an update of a stored claim
  pub update_stored :
      {Q : Pvc → C.World → Type 0} (k : Key) (q : Pvc) (before : Cluster) (w : C.World)
      → key_of q.meta ≡ k
      → L.view w ≡ before
      → ((r : Pvc) (w' : C.World)
          → L.view w' ≡ record before { pvc = put k (after_update q) before.pvc }
          → Q r w')
      → Ensures (C.update_pvc q) w Q
  update_stored k q before w same unchanged imp =
      Ensures-value (L.update_pvc q w) λ r w' e. imp r w' (rw same at (rw unchanged at e))

  -- the name of a claim that was read
  pub key_of_read :
      (k : Key) (p : Pvc) (before : Cluster) (w : C.World)
      → L.view w ≡ before
      → before.pvc k ≡ some p
      → key_of p.meta ≡ k
  key_of_read k p before w unchanged stored =
      L.pvc_key w k p (claim-same k before (L.view w) unchanged ∙ stored)

  add_finalizer_to-Ensures :
      (k : Key) (before : Cluster) (r : Reply Pvc) (w : C.World)
      → Read (before.pvc k) before r (L.view w)
      → Ensures (add_finalizer_to C r) w (λ _ w'. Guarded k before (L.view w'))
  unfolding add_finalizer_to
  add_finalizer_to-Ensures k before (error e) w read =
      Ensures-if (is_not_found e) _ _
        (λ missing. Ensures-pure tt (record {
          only = OnlyClaim-refl k (read missing).0;
          guarded = λ p stored. absurd (
              none-some (read missing).1
                (sym (claim-same k before (L.view w) (read missing).0) ∙ stored));
        }))
        (λ _. Ensures-fail _)
  add_finalizer_to-Ensures k before (value pvc) w read =
      Ensures-if (C.contains_finalizer pvc.finalizers pvc_finalizer_name) _ _
        (λ has. Ensures-pure tt (record {
          only = OnlyClaim-refl k read.0;
          guarded = λ p stored.
              rw (finalizers_stored _ p pvc (claim-same k before _ read.0 ∙ read.1) stored) has;
        }))
        (λ _.
          Ensures-bind
            (Ensures-wrapping _ (
              update_stored k _ before w (key_of_read k pvc before w read.0 read.1) read.0
                (λ r w' e. record {
                  only = OnlyClaim-put k _ e;
                  guarded = λ p stored.
                      rw (finalizers_after_update _ p (sym (claim-put k _ before _ e) ∙ stored))
                        (L.contains-add pvc.finalizers pvc_finalizer_name);
                })))
            (λ _ w' h. Ensures-pure tt h))

  -- After addFinalizerToPVC has returned normally, the claim, if it is there, has the protection
  -- finalizer, and nothing but this claim has changed.
  pub add_finalizer_to_pvc-Ensures :
      (k : Key) (w : C.World)
      → Ensures (add_finalizer_to_pvc C k) w (λ _ w'. Guarded k (L.view w) (L.view w'))
  unfolding add_finalizer_to_pvc
  add_finalizer_to_pvc-Ensures k w =
      Ensures-bind (L.get_pvc k w) (λ r w'. add_finalizer_to-Ensures k (L.view w) r w')

  remove_finalizer_from-Ensures :
      (k : Key) (before : Cluster) (r : Reply Pvc) (w : C.World)
      → Read (before.pvc k) before r (L.view w)
      → Ensures (remove_finalizer_from C r) w (λ _ w'. Unguarded k before (L.view w'))
  unfolding remove_finalizer_from
  remove_finalizer_from-Ensures k before (error e) w read =
      Ensures-if (is_not_found e) _ _
        (λ missing. Ensures-pure tt (record {
          only = OnlyClaim-refl k (read missing).0;
          unguarded = λ p stored. absurd (
              none-some (read missing).1
                (sym (claim-same k before (L.view w) (read missing).0) ∙ stored));
          mark =
              rw (claim-same k before (L.view w) (read missing).0) (MarkKept-refl (before.pvc k));
        }))
        (λ _. Ensures-fail _)
  remove_finalizer_from-Ensures k before (value pvc) w read =
      Ensures-if (not (C.contains_finalizer pvc.finalizers pvc_finalizer_name)) _ _
        (λ lacks. Ensures-pure tt (record {
          only = OnlyClaim-refl k read.0;
          unguarded = λ p stored.
              rw (finalizers_stored _ p pvc (claim-same k before _ read.0 ∙ read.1) stored)
                (ground arith);
          mark = rw (claim-same k before (L.view w) read.0) (MarkKept-refl (before.pvc k));
        }))
        (λ _.
          Ensures-bind
            (Ensures-wrapping _ (
              update_stored k _ before w (key_of_read k pvc before w read.0 read.1) read.0
                (λ r w' e. record {
                  only = OnlyClaim-put k _ e;
                  unguarded = λ p stored.
                      rw (finalizers_after_update _ p (sym (claim-put k _ before _ e) ∙ stored))
                        (L.contains-remove pvc.finalizers pvc_finalizer_name);
                  mark = rw (claim-put k _ before _ e) (
                      MarkKept-unless_released (before.pvc k) _ pvc pvc.deletion_timestamp _ read.1
                        refl);
                })))
            (λ _ w' h. Ensures-pure tt h))

  -- After removeFinalizerFromPVC has returned normally, the claim, if it is there, lacks the
  -- protection finalizer and has the deletion mark that it had, and nothing but this claim has changed.
  pub remove_finalizer_from_pvc-Ensures :
      (k : Key) (w : C.World)
      → Ensures (remove_finalizer_from_pvc C k) w (λ _ w'. Unguarded k (L.view w) (L.view w'))
  unfolding remove_finalizer_from_pvc
  remove_finalizer_from_pvc-Ensures k w =
      Ensures-bind (L.get_pvc k w) (λ r w'. remove_finalizer_from-Ensures k (L.view w) r w')

  ensure_labels_of-Ensures :
      (owner k : Key) (before : Cluster) (r : Reply Pvc) (w : C.World)
      → Read (before.pvc k) before r (L.view w)
      → Ensures (ensure_labels_of C owner r) w (λ _ w'. OnlyClaim k before (L.view w'))
  unfolding ensure_labels_of
  ensure_labels_of-Ensures owner k before (error e) w read =
      Ensures-if (is_not_found e) _ _
        (λ missing. Ensures-pure tt (OnlyClaim-refl k (read missing).0)) (λ _. Ensures-fail _)
  ensure_labels_of-Ensures owner k before (value pvc) w read =
      Ensures-if (owner_labels owner pvc.labels).1 _ _
        (λ _.
          Ensures-bind
            (Ensures-wrapping _ (
              update_stored k _ before w (key_of_read k pvc before w read.0 read.1) read.0
                (λ r w' e. OnlyClaim-put k _ e)))
            (λ _ w' h. Ensures-pure tt h))
        (λ _. Ensures-pure tt (OnlyClaim-refl k read.0))

  pub ensure_pvc_labels-Ensures :
      (v : VsHandler) (k : Key) (w : C.World)
      → Ensures (ensure_pvc_labels C v k) w (λ _ w'. OnlyClaim k (L.view w) (L.view w'))
  unfolding ensure_pvc_labels
  ensure_pvc_labels-Ensures v k w =
      Ensures-bind (L.get_pvc k w) (λ r w'. ensure_labels_of-Ensures v.owner k (L.view w) r w')

  terminating_of-Ensures :
      (k : Key) (before : Cluster) (r : Reply Pvc) (w : C.World)
      → Read (before.pvc k) before r (L.view w)
      → Ensures (terminating_of C r) w (λ _ w'. L.view w' ≡ before)
  unfolding terminating_of
  terminating_of-Ensures k before (error e) w read =
      Ensures-if (is_not_found e) _ _ (λ missing. Ensures-pure false (read missing).0)
        (λ _. Ensures-fail _)
  terminating_of-Ensures k before (value pvc) w read = Ensures-pure _ read.0

  pub is_pvc_terminating-Ensures :
      (k : Key) (w : C.World) → Ensures (is_pvc_terminating C k) w (λ _ w'. L.view w' ≡ L.view w)
  unfolding is_pvc_terminating
  is_pvc_terminating-Ensures k w =
      Ensures-bind (L.get_pvc k w) (λ r w'. terminating_of-Ensures k (L.view w) r w')

  secret_found-Ensures :
      (k : Key) (before : Cluster) (r : Reply (Unit {0})) (w : C.World)
      → Written before r (L.view w)
      → Ensures (secret_found C k r) w (λ _ w'. L.view w' ≡ before)
  unfolding secret_found
  secret_found-Ensures k before (error e) w read =
      Ensures-if (is_not_found e) _ _ (λ _. Ensures-fail _) (λ _. Ensures-fail _)
  secret_found-Ensures k before (value _) w read = Ensures-pure true read

  pub validate_secret-Ensures :
      (k : Key) (w : C.World)
      → Ensures (validate_secret_and_add_owner_ref C k) w (λ _ w'. L.view w' ≡ L.view w)
  unfolding validate_secret_and_add_owner_ref
  validate_secret-Ensures k w =
      Ensures-bind (L.get_secret k w) (λ r w'. secret_found-Ensures k (L.view w) r w')

  -- the volume that getPVFromPVC returns is the one that the claim names
  pub record Bound (k : Key) (before : Cluster) (pv : Pv) : Type 0 where
    pub claim : Pvc
    pub stored : before.pvc k ≡ some claim
    pub volume : before.pv claim.spec.volume_name ≡ some pv
    pub named : pv.name ≡ claim.spec.volume_name

  pub get_pv_from_pvc-Ensures :
      (k : Key) (w : C.World)
      → Ensures (get_pv_from_pvc C k) w (λ pv w'. (L.view w' ≡ L.view w) × Bound k (L.view w) pv)
  unfolding get_pv_from_pvc
  get_pv_from_pvc-Ensures k w =
      Ensures-bind (Ensures-wrapping _ (Ensures-value (L.get_pvc k w) (λ pvc w' read. read)))
        λ pvc w' read.
          Ensures-if (pvc.spec.volume_name == "") _ _ (λ _. Ensures-fail _)
            (λ _. Ensures-wrapping _ (
              Ensures-value (L.get_pv pvc.spec.volume_name w') (λ pv w'' got. (
                got.0 ∙ read.0,
                record {
                  claim = pvc;
                  stored = read.1;
                  volume = sym (ap (λ (c : Cluster). c.pv pvc.spec.volume_name) read.0) ∙ got.1;
                  named = L.pv_name w' _ pv got.1;
                },
              ))))
