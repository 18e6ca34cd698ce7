-- ===== src/Volsync/Temporary/Made.antt =====
-- What CreateTemporaryPVCFromTerminating does to a lawful cluster when it returns normally.
use mock_storage_operator.Prelude.{
  some_inj, ◌≡◌, refl, sym, ap, ◌∙◌, Bool, true, false, not, String, ◌==◌, Option, none, some,
  if◌then◌else◌,
}
use mock_storage_operator.Exec.{ok, pure, wrapping}
use mock_storage_operator.Exec.Ensures.{
  Ensures, Ensures-pure, Ensures-weaken, Ensures-wrapping, Ensures-value, Ensures-bind, Ensures-at,
}
use mock_storage_operator.Objects.{Key, Pvc, Pv}
use mock_storage_operator.Client.{Client}
use mock_storage_operator.Client.Laws.{Cluster, IsLawful, key_eq}
use mock_storage_operator.Volsync.{pvc_finalizer_name}
use mock_storage_operator.Volsync.Temporary.{
  temporary_key, temporary_pvc, create_temporary_pvc_from_terminating,
}
use mock_storage_operator.Volsync.Temporary.Effects.{
  kept_or, Refers, PointsAt, HeldBy, temporary_key_ne, key_eq-sym, create_if_missing-Ensures,
  point_volume_at-Ensures,
}
use mock_storage_operator.Volsync.Claims.{remove_finalizer_from_pvc}
use mock_storage_operator.Volsync.Claims.Effects.{
  Bound, get_pv_from_pvc-Ensures, remove_finalizer_from_pvc-Ensures,
}

module _ (C : Client) (L : IsLawful C) where
  -- the claim itself afterwards: as before, or without the protection finalizer
  abbrev pub Released : Bool → Option Pvc → Option Pvc → Type 0
  Released false before after = after ≡ before
  Released true before none = Unit {0}
  Released true before (some p) = C.contains_finalizer p.finalizers pvc_finalizer_name ≡ false

  released_of :
      (before after : Option Pvc)
      → ((p : Pvc) → after ≡ some p → C.contains_finalizer p.finalizers pvc_finalizer_name ≡ false)
      → Released true before after
  released_of before none h = tt
  released_of before (some p) h = h p refl

  pub record TemporaryMade (k : Key) (rm_finalizer : Bool) (before after : Cluster) : Type 0 where
    pub claim : Pvc
    pub volume : Pv
    pub stored : before.pvc k ≡ some claim
    pub bound : before.pv claim.spec.volume_name ≡ some volume
    pub held :
        after.pvc (temporary_key k)
        ≡ some (kept_or (L.admitted (temporary_pvc k claim volume)) (before.pvc (temporary_key k)))
    pub refers : Refers (temporary_key k) (after.pv claim.spec.volume_name)
    pub released : Released rm_finalizer (before.pvc k) (after.pvc k)
    pub other_claims :
        (j : Key)
        → key_eq k j ≡ false
        → key_eq (temporary_key k) j ≡ false
        → after.pvc j ≡ before.pvc j
    pub other_volumes :
        (n : String) → (claim.spec.volume_name == n) ≡ false → after.pv n ≡ before.pv n

  -- the last step
  pub record Finished (k : Key) (rm_finalizer : Bool) (before after : Cluster) : Type 0 where
    pub released : Released rm_finalizer (before.pvc k) (after.pvc k)
    pub others : (j : Key) → key_eq k j ≡ false → after.pvc j ≡ before.pvc j
    pub volumes : after.pv ≡ before.pv

  finish-Ensures :
      (k : Key) (rm_finalizer : Bool) (w : C.World)
      → Ensures
          (if not rm_finalizer
            then pure tt
            else wrapping "failed to remove finalizer from terminating PVC: "
                (remove_finalizer_from_pvc C k))
          w
          (λ _ w'. Finished k rm_finalizer (L.view w) (L.view w'))
  finish-Ensures k false w =
      Ensures-pure tt (record { released = refl; others = λ _ _. refl; volumes = refl })
  finish-Ensures k true w = Ensures-wrapping _ (
      Ensures-weaken (remove_finalizer_from_pvc-Ensures C L k w) λ _ w' h. record {
        released = released_of ((L.view w).pvc k) _ h.unguarded;
        others = h.only.others;
        volumes = h.only.volumes;
      })

  -- the volume that was read is the claim's
  pub volume_of :
      (k : Key) (c : Cluster) (pvc : Pvc) (pv : Pv)
      → c.pvc k ≡ some pvc
      → Bound C L k c pv
      → (c.pv pvc.spec.volume_name ≡ some pv) × (pv.name ≡ pvc.spec.volume_name)
  volume_of k c pvc pv stored b =
      let same : pvc ≡ b.claim = some_inj (sym stored ∙ b.stored) in
      (rw same b.volume, rw same b.named)

  -- the steps together
  made_by :
      (k : Key) (rm_finalizer : Bool) (c0 c1 c2 c3 : Cluster) (pvc : Pvc) (pv : Pv)
      → c0.pvc k ≡ some pvc
      → c0.pv pvc.spec.volume_name ≡ some pv
      → pv.name ≡ pvc.spec.volume_name
      → HeldBy C L (temporary_pvc k pvc pv) c0 c1
      → PointsAt (temporary_key k) pv.name c1 c2
      → Finished k rm_finalizer c2 c3
      → TemporaryMade k rm_finalizer c0 c3
  unfolding temporary_pvc
  made_by k rm c0 c1 c2 c3 pvc pv stored bound named held points finished =
      let same : c2.pvc k ≡ c0.pvc k =
        ap (λ (f : Key → Option Pvc). f k) points.claims
        ∙ held.other_claims k (key_eq-sym k (temporary_key k) (temporary_key_ne k)) in
      record {
        claim = pvc;
        volume = pv;
        stored = stored;
        bound = bound;
        held =
            finished.others (temporary_key k) (temporary_key_ne k)
            ∙ ap (λ (f : Key → Option Pvc). f (temporary_key k)) points.claims
            ∙ held.held;
        refers =
            rw (sym named)
              (rw (ap (λ (f : String → Option Pv). f pv.name) finished.volumes) points.refers);
        released = rw same at finished.released;
        other_claims = λ j other other_tmp.
            finished.others j other
            ∙ ap (λ (f : Key → Option Pvc). f j) points.claims
            ∙ held.other_claims j other_tmp;
        other_volumes = λ n other.
            ap (λ (f : String → Option Pv). f n) finished.volumes
            ∙ points.other_volumes n (rw named other)
            ∙ ap (λ (f : String → Option Pv). f n) held.volumes;
      }

  create_temporary-Ensures :
      (k : Key) (rm_finalizer : Bool) (w : C.World)
      → Ensures
          (create_temporary_pvc_from_terminating C k rm_finalizer)
          w
          (λ _ w'. TemporaryMade k rm_finalizer (L.view w) (L.view w'))
  unfolding create_temporary_pvc_from_terminating temporary_pvc
  create_temporary-Ensures k rm w =
      Ensures-bind (Ensures-wrapping _ (Ensures-value (L.get_pvc k w) (λ pvc w' read. read)))
        λ pvc w1 read.
          Ensures-bind (Ensures-wrapping _ (get_pv_from_pvc-Ensures C L k w1)) λ pv w2 got.
            let same : L.view w2 ≡ L.view w = got.0 ∙ read.0 in
            let volume = volume_of k (L.view w) pvc pv read.1 (rw read.0 at got.1) in
            Ensures-bind (L.get_pvc (temporary_key k) w2) λ r w3 seen.
              Ensures-bind
                (create_if_missing-Ensures C L (temporary_pvc k pvc pv) (L.view w) r w3
                  (rw same at seen))
                λ _ w4 held.
                  Ensures-bind
                    (point_volume_at-Ensures C L (temporary_key k) pv w4 (
                      ap (λ n. (L.view w4).pv n) volume.1
                      ∙ ap (λ (f : String → Option Pv). f pvc.spec.volume_name) held.volumes
                      ∙ volume.0))
                    λ _ w5 points. Ensures-weaken (finish-Ensures k rm w5) λ _ w6 finished.
                      made_by k rm (L.view w) (L.view w4) (L.view w5) (L.view w6) pvc pv read.1
                        volume.0 volume.1 held points finished

  -- On a lawful cluster, where CreateTemporaryPVCFromTerminating returns normally: the claim was
  -- there and bound; the temporary claim is there, the one that was there before or else the one
  -- made from the claim's labels, annotations and spec; the volume is there and refers to the
  -- temporary claim; the claim itself is as before, or lacks the protection finalizer if that was
  -- to be removed; no other claim and no other volume has changed.
  pub create_temporary-made :
      (k : Key) (rm_finalizer : Bool) (w w' : C.World)
      → create_temporary_pvc_from_terminating C k rm_finalizer w ≡ (ok tt, w')
      → TemporaryMade k rm_finalizer (L.view w) (L.view w')
  create_temporary-made k rm w w' returned = Ensures-at (create_temporary-Ensures k rm w) returned
