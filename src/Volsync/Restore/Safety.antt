-- ===== src/Volsync/Restore/Safety.antt =====
-- However RestorePVCFromTemporary ends, the claim or its temporary claim is there.
use mock_storage_operator.Prelude.{
  some_inj, ℕ, ◌≡◌, refl, sym, ap, ◌∙◌, false, not, String, Option, none, some, List, [], ◌∷◌,
}
use mock_storage_operator.Exec.{Reply, value, error, is_not_found}
use mock_storage_operator.Exec.Preserves.{
  Preserves, Preserves-attempt, Preserves-bind, Preserves-then, Preserves-fail, Preserves-wrapping,
  preserves_rules,
}
use mock_storage_operator.Exec.Ends.{
  Ends, Ends-always, Ends-Ensures, Ends-pure, Ends-fail, Ends-if, Ends-wrapping, Ends-Preserves,
  Ends-keeps, Ends-bind,
}
use mock_storage_operator.Objects.{Key, key_of, Pvc, Pv}
use mock_storage_operator.Client.{Client}
use mock_storage_operator.Client.Laws.{
  Cluster, IsLawful, Read, key_eq, put, after_update, unless_released,
}
use mock_storage_operator.Client.Settling.{IsSettling}
use mock_storage_operator.Volsync.Claims.Effects.{key_of_read, claim-same}
use mock_storage_operator.Volsync.Claims.Kept.{
  IsStored, IsStored-some, IsStored-same, put-IsStored, settled, Claim, update_pv-Claim,
  update_pvc-Claim, delete_pvc-Claim, get_pvc-same, get_pv_from_pvc-same,
  remove_finalizer_from_pvc-Claim,
}
use mock_storage_operator.Volsync.Temporary.{temporary_key}
use mock_storage_operator.Volsync.Temporary.Safety.{
  IsHeld, by_claim, by_temporary, create_pvc-IsHeld,
}
use mock_storage_operator.Volsync.Temporary.Effects.{temporary_key_ne, key_eq-sym}
use mock_storage_operator.Volsync.Restore.{
  restored_pvc, temporary_key_for, main_key_for, release_finalizers, release_terminating,
  created_or_exists, deleted_or_missing, recreate, restore_existing, restore_over, restore_from,
  restore_pvc_from_temporary,
}
use mock_storage_operator.Volsync.Restore.Effects.{
  created_or_exists-Ensures, temporary_key-main_key_for,
}

module _ (C : Client) (L : IsLawful C) (S : IsSettling C L) (k : Key) where
  created_or_exists-IsHeld : (r : Reply Pvc) → Preserves (IsHeld C L S k) (created_or_exists C r)
  unfolding created_or_exists
  created_or_exists-IsHeld (value p) = search preserves_rules
  created_or_exists-IsHeld (error e) = search preserves_rules

  -- with the claim there, the temporary one may go
  deleted_or_missing-Claim :
      (r : Reply (Unit {0})) → Preserves (Claim C L S k) (deleted_or_missing C r)
  unfolding deleted_or_missing
  deleted_or_missing-Claim (value _) = search preserves_rules
  deleted_or_missing-Claim (error e) = search preserves_rules

  recreate-Ends :
      (tmp : Pvc) (volume : Pv) (w : C.World)
      → key_of tmp.meta ≡ temporary_key k
      → IsHeld C L S k w
      → Ends (recreate C k tmp volume) w (λ _ w'. IsHeld C L S k w') (IsHeld C L S k)
  unfolding recreate restored_pvc
  recreate-Ends tmp volume w named h =
      let apart : key_eq (key_of tmp.meta) k ≡ false =
        ap (λ q. key_eq q k) named ∙ key_eq-sym k (temporary_key k) (temporary_key_ne k) in
      Ends-bind
        (Ends-Ensures {P = IsHeld C L S k} (L.create_pvc (restored_pvc k tmp volume) w)
          ((Preserves-attempt _ (create_pvc-IsHeld C L S k _)).after w h) (λ _ h1. h1))
        λ r w1 (created, h1).
          Ends-bind
            (Ends-Ensures {P = IsHeld C L S k}
              (created_or_exists-Ensures C L (restored_pvc k tmp volume) (L.view w) r w1 created)
              ((created_or_exists-IsHeld r).after w1 h1) (λ _ h2. h2))
            λ _ w2 (held, h2).
              Ends-Preserves
                (Preserves-then _ _ (Preserves-wrapping _ _ (update_pv-Claim C L S k _)) (
                  Preserves-bind _ _
                    (Preserves-attempt _ (delete_pvc-Claim C L S k (key_of tmp.meta) apart))
                    (λ r. Preserves-then _ _ (deleted_or_missing-Claim r) (
                      Preserves-wrapping _ _
                        (remove_finalizer_from_pvc-Claim C L S k (key_of tmp.meta) apart)))))
                (IsStored-some _ _ held.held) (by_claim C L S k)

  stays : (p : Pvc) → p.deletion_timestamp ≡ none → some p ≡ after_update p
  stays p live = ap (λ mark. unless_released mark p.finalizers p) (sym live)

  -- an update of a claim that is not being deleted leaves it there
  update_live-Claim :
      (j : Key) (p : Pvc) → p.deletion_timestamp ≡ none → Preserves (Claim C L S j) (C.update_pvc p)
  update_live-Claim j p live = record {
    after = λ w h.
        settled (λ c. IsStored (c.pvc j)) (S.update_pvc p w) h
          (IsStored-same _ _ (ap (λ o. put (key_of p.meta) o (L.view w).pvc j) (stays p live))
            (put-IsStored (key_of p.meta) j p (L.view w).pvc h));
  }

  release_finalizers-Claim :
      (existing : Pvc) (fs : List String)
      → key_of existing.meta ≡ k
      → Preserves (Claim C L S (temporary_key k)) (release_finalizers C k existing fs)
  unfolding release_finalizers
  release_finalizers-Claim existing [] named = search preserves_rules
  release_finalizers-Claim existing (f ∷ fs) named =
      let update =
        update_pvc-Claim C L S (temporary_key k)
          (record existing { meta = record (existing.meta) { finalizers = [] } })
          (ap (λ q. key_eq q (temporary_key k)) named ∙ temporary_key_ne k) in
      Preserves-then _ _ (Preserves-wrapping _ _ update) (Preserves-fail _)

  release_terminating-Claim :
      (tmp existing : Pvc)
      → tmp.deletion_timestamp ≡ none
      → key_of existing.meta ≡ k
      → Preserves (Claim C L S (temporary_key k)) (release_terminating C k tmp existing)
  unfolding release_terminating
  release_terminating-Claim tmp existing live named =
      let update =
        update_live-Claim (temporary_key k)
          (record tmp { meta = record (tmp.meta) { labels = existing.labels } }) live in
      Preserves-then _ _ (Preserves-wrapping _ _ update)
        (release_finalizers-Claim existing existing.finalizers named)

  restore_existing-Ends :
      (tmp existing : Pvc) (volume : Pv) (mark : Option ℕ) (w : C.World)
      → key_of tmp.meta ≡ temporary_key k
      → tmp.deletion_timestamp ≡ none
      → key_of existing.meta ≡ k
      → Claim C L S (temporary_key k) w
      → Ends
          (restore_existing C k tmp volume existing mark)
          w
          (λ _ w'. IsHeld C L S k w')
          (IsHeld C L S k)
  unfolding restore_existing
  restore_existing-Ends tmp existing volume none w named live existing_named h =
      recreate-Ends tmp volume w named (by_temporary C L S k w h)
  restore_existing-Ends tmp existing volume (some t) w named live existing_named h =
      Ends-Preserves (release_terminating-Claim tmp existing live existing_named) h
        (by_temporary C L S k)

  restore_over-Ends :
      (tmp : Pvc) (volume : Pv) (before : Cluster) (r : Reply Pvc) (w : C.World)
      → key_of tmp.meta ≡ temporary_key k
      → tmp.deletion_timestamp ≡ none
      → Read (before.pvc k) before r (L.view w) × Claim C L S (temporary_key k) w
      → Ends (restore_over C k tmp volume r) w (λ _ w'. IsHeld C L S k w') (IsHeld C L S k)
  unfolding restore_over
  restore_over-Ends tmp volume before (value existing) w named live ((same, there), h) =
      restore_existing-Ends tmp existing volume existing.deletion_timestamp w named live
        (key_of_read C L k existing before w same there) h
  restore_over-Ends tmp volume before (error e) w named live (read, h) =
      Ends-if (not (is_not_found e)) _ _ (λ _. Ends-fail _ (by_temporary C L S k w h))
        (λ _. recreate-Ends tmp volume w named (by_temporary C L S k w h))

module _ (C : Client) (L : IsLawful C) (S : IsSettling C L) (k : Key) where
  -- the temporary claim, as long as the cluster is as it was
  temporary_there :
      (tmp : Pvc) (before : Cluster) (w : C.World)
      → before.pvc (temporary_key_for k) ≡ some tmp
      → L.view w ≡ before
      → Claim C L S (temporary_key (main_key_for k)) w
  temporary_there tmp before w stored same = IsStored-some _ tmp (
      ap (λ j. (L.view w).pvc j) (temporary_key-main_key_for k)
      ∙ claim-same (temporary_key_for k) before (L.view w) same
      ∙ stored)

  restore_from-Ends :
      (tmp : Pvc) (before : Cluster) (r : Reply Pvc) (w : C.World)
      → before.pvc (temporary_key_for k) ≡ some tmp
      → tmp.deletion_timestamp ≡ none
      → Read (before.pvc (temporary_key_for k)) before r (L.view w) × (L.view w ≡ before)
      → Ends
          (restore_from C k r)
          w
          (λ _ w'. IsHeld C L S (main_key_for k) w')
          (IsHeld C L S (main_key_for k))
  unfolding restore_from
  restore_from-Ends tmp before (error e) w stored live (read, same) =
      let h = by_temporary C L S (main_key_for k) w (temporary_there tmp before w stored same) in
      Ends-if (is_not_found e) _ _ (λ _. Ends-pure tt h) (λ _. Ends-fail _ h)
  restore_from-Ends tmp before (value got) w stored live (read, same) =
      let held = λ (t : C.World) (e : L.view t ≡ before).
        by_temporary C L S (main_key_for k) t (temporary_there tmp before t stored e) in
      let same_claim : got ≡ tmp = some_inj (sym read.1 ∙ stored) in
      Ends-bind
        (Ends-wrapping _
          (Ends-keeps (get_pv_from_pvc-same C L S before (temporary_key_for k)) same held))
        λ volume w1 same1.
          Ends-bind
            (Ends-Ensures {P = λ t. L.view t ≡ before} (L.get_pvc (main_key_for k) w1)
              ((Preserves-attempt _ (get_pvc-same C L S before (main_key_for k))).after w1 same1)
              held)
            λ r w2 (seen, same2).
              restore_over-Ends C L S (main_key_for k) got volume before r w2
                (key_of_read C L (temporary_key_for k) got before w same read.1
                  ∙ sym (temporary_key-main_key_for k))
                (ap (λ (p : Pvc). p.deletion_timestamp) same_claim ∙ live)
                (rw same1 at seen, temporary_there tmp before w2 stored same2)

  -- On a lawful cluster where a call, however it ends, is done or not done: if the temporary claim is
  -- there and is not being deleted, then however RestorePVCFromTemporary ends, with an error of any
  -- call or without, the claim is there or the temporary claim is.
  pub restore_pvc_from_temporary-IsHeld :
      (tmp : Pvc) (w : C.World)
      → (L.view w).pvc (temporary_key_for k) ≡ some tmp
      → tmp.deletion_timestamp ≡ none
      → IsHeld C L S (main_key_for k) (restore_pvc_from_temporary C k w).1
  unfolding restore_pvc_from_temporary
  restore_pvc_from_temporary-IsHeld tmp w stored live = Ends-always (
      Ends-bind
        (Ends-Ensures {P = λ t. L.view t ≡ L.view w} (L.get_pvc (temporary_key_for k) w)
          ((Preserves-attempt _ (get_pvc-same C L S (L.view w) (temporary_key_for k))).after w refl)
          λ t e. by_temporary C L S (main_key_for k) t (temporary_there tmp (L.view w) t stored e))
        (λ r w' read. restore_from-Ends tmp (L.view w) r w' stored live read))
