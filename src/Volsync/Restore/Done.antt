-- ===== src/Volsync/Restore/Done.antt =====
-- What RestorePVCFromTemporary has done when it returns normally, and the round trip of a claim
-- through its temporary claim.
use mock_storage_operator.Prelude.{
  not-false, ◌≡◌, refl, sym, ◌∙◌, not, String, Option, none, some, List, [], ◌∷◌, ℕ,
}
use mock_storage_operator.Exec.{ok, Reply, value, error, is_not_found}
use mock_storage_operator.Exec.Ensures.{
  Ensures, Ensures-pure, Ensures-fail, Ensures-if, Ensures-weaken, Ensures-wrapping, Ensures-bind,
  Ensures-at, Ensures-true,
}
use mock_storage_operator.Objects.{Key, key_of, Pvc, Pv}
use mock_storage_operator.Client.{Client}
use mock_storage_operator.Client.Laws.{Cluster, IsLawful, Read}
use mock_storage_operator.Volsync.Restore.{
  temporary_key_for, main_key_for, release_finalizers, release_terminating, restore_existing,
  restore_over, restore_from, restore_pvc_from_temporary,
}
use mock_storage_operator.Volsync.Restore.Effects.{
  Live, Recreated, recreate-Ensures, temporary_key-main_key_for,
}
use mock_storage_operator.Volsync.Temporary.{temporary_key}
use mock_storage_operator.Volsync.Temporary.Made.{volume_of}
use mock_storage_operator.Volsync.Claims.Effects.{get_pv_from_pvc-Ensures, key_of_read}

module _ (C : Client) (L : IsLawful C) where
  release_finalizers-Ensures :
      (k : Key) (existing : Pvc) (fs : List String) (w : C.World)
      → Ensures (release_finalizers C k existing fs) w (λ _ _. ⊥)
  unfolding release_finalizers
  release_finalizers-Ensures k existing [] w = Ensures-fail _
  release_finalizers-Ensures k existing (f ∷ fs) w =
      Ensures-bind (Ensures-true _ w) (λ _ w' _. Ensures-fail _)

  -- While the claim is being deleted, the restore never returns normally.
  release_terminating-Ensures :
      (k : Key) (tmp existing : Pvc) (w : C.World)
      → Ensures (release_terminating C k tmp existing) w (λ _ _. ⊥)
  unfolding release_terminating
  release_terminating-Ensures k tmp existing w =
      Ensures-bind (Ensures-true _ w)
        (λ _ w' _. release_finalizers-Ensures k existing existing.finalizers w')

  pub record RestoredFrom (k : Key) (tmp : Pvc) (before after : Cluster) : Type 0 where
    pub volume : Pv
    pub bound : before.pv tmp.spec.volume_name ≡ some volume
    pub named : volume.name ≡ tmp.spec.volume_name
    pub live : Live (before.pvc k)
    pub recreated : Recreated C L k tmp volume before after

  -- by the temporary claim
  abbrev pub Restored : Key → Option Pvc → Cluster → Cluster → Type 0
  Restored k none before after = after ≡ before
  Restored k (some tmp) before after = RestoredFrom k tmp before after

  restore_existing-Ensures :
      (k : Key) (tmp existing : Pvc) (volume : Pv) (mark : Option ℕ) (before : Cluster)
      (w : C.World)
      → key_of tmp.meta ≡ temporary_key k
      → L.view w ≡ before
      → Ensures
          (restore_existing C k tmp volume existing mark)
          w
          (λ _ w'. (mark ≡ none) × Recreated C L k tmp volume before (L.view w'))
  unfolding restore_existing
  restore_existing-Ensures k tmp existing volume none before w named same =
      Ensures-weaken (recreate-Ensures C L k tmp volume before w named same)
        (λ _ w' made. (refl, made))
  restore_existing-Ensures k tmp existing volume (some t) before w named same =
      Ensures-weaken (release_terminating-Ensures k tmp existing w)
        (λ _ w' impossible. absurd impossible)

  restore_over-Ensures :
      (k : Key) (tmp : Pvc) (volume : Pv) (before : Cluster) (r : Reply Pvc) (w : C.World)
      → key_of tmp.meta ≡ temporary_key k
      → Read (before.pvc k) before r (L.view w)
      → Ensures
          (restore_over C k tmp volume r)
          w
          (λ _ w'. Live (before.pvc k) × Recreated C L k tmp volume before (L.view w'))
  unfolding restore_over
  restore_over-Ensures k tmp volume before (value existing) w named (same, there) =
      Ensures-weaken (restore_existing-Ensures k tmp existing volume _ before w named same)
        (λ _ w' (live, made). (rw there live, made))
  restore_over-Ensures k tmp volume before (error e) w named gone =
      Ensures-if (not (is_not_found e)) _ _ (λ _. Ensures-fail _)
        λ found.
          let missing = gone (not-false (is_not_found e) found) in
          Ensures-weaken (recreate-Ensures C L k tmp volume before w named missing.0)
            (λ _ w' made. (rw missing.1 tt, made))

  restore_from-Ensures :
      (k : Key) (before : Cluster) (r : Reply Pvc) (w : C.World)
      → Read (before.pvc (temporary_key_for k)) before r (L.view w)
      → Ensures
          (restore_from C k r)
          w
          (λ _ w'. Restored (main_key_for k) (before.pvc (temporary_key_for k)) before (L.view w'))
  unfolding restore_from
  restore_from-Ensures k before (error e) w gone =
      Ensures-if (is_not_found e) _ _
        (λ missing. Ensures-pure tt (rw (gone missing).1 (gone missing).0)) (λ _. Ensures-fail _)
  restore_from-Ensures k before (value tmp) w (same, there) =
      Ensures-bind (Ensures-wrapping _ (get_pv_from_pvc-Ensures C L (temporary_key_for k) w))
        λ volume w1 got.
          let bound =
            volume_of C L (temporary_key_for k) before tmp volume there (rw same at got.1) in
          Ensures-bind (L.get_pvc (main_key_for k) w1) λ r w2 seen.
            Ensures-weaken
              (restore_over-Ensures (main_key_for k) tmp volume before r w2
                (key_of_read C L (temporary_key_for k) tmp before w same there
                  ∙ sym (temporary_key-main_key_for k))
                (rw (got.0 ∙ same) at seen))
              λ _ w' (live, made). rw there (record {
                volume = volume;
                bound = bound.0;
                named = bound.1;
                live = live;
                recreated = made;
              })

  restore-Ensures :
      (k : Key) (w : C.World)
      → Ensures (restore_pvc_from_temporary C k) w (λ _ w'.
        Restored (main_key_for k) ((L.view w).pvc (temporary_key_for k)) (L.view w) (L.view w'))
  unfolding restore_pvc_from_temporary
  restore-Ensures k w =
      Ensures-bind (L.get_pvc (temporary_key_for k) w)
        (λ r w' read. restore_from-Ensures k (L.view w) r w' read)

  -- On a lawful cluster, where RestorePVCFromTemporary returns normally: if there was no temporary
  -- claim, nothing has changed. If there was one, it was bound to a volume, and the claim itself was
  -- not being deleted; in the end the claim is there, the one that was there or else the one made
  -- from the temporary claim; the volume is there and refers to it; the temporary claim is gone or
  -- is being deleted; no other claim and no other volume has changed.
  pub restore-done :
      (k : Key) (w w' : C.World)
      → restore_pvc_from_temporary C k w ≡ (ok tt, w')
      → Restored (main_key_for k) ((L.view w).pvc (temporary_key_for k)) (L.view w) (L.view w')
  restore-done k w w' returned = Ensures-at (restore-Ensures k w) returned
