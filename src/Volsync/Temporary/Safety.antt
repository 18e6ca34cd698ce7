-- ===== src/Volsync/Temporary/Safety.antt =====
-- However CreateTemporaryPVCFromTerminating ends, the claim or its temporary claim is there.
use mock_storage_operator.Prelude.{
  ◌≡◌, refl, sym, ◌∙◌, ◌⊎◌, inl, inr, Bool, true, false, not, if◌then◌else◌,
}
use mock_storage_operator.Exec.{Reply, value, error, pure, wrapping}
use mock_storage_operator.Exec.Preserves.{
  Preserves, Preserves-attempt, Preserves-pure, Preserves-then, Preserves-wrapping, preserves_rules,
}
use mock_storage_operator.Exec.Ends.{
  Ends-always, Ends-Ensures, Ends-wrapping, Ends-Preserves, Ends-keeps, Ends-bind,
}
use mock_storage_operator.Objects.{Key, Pvc, Pv}
use mock_storage_operator.Client.{Client}
use mock_storage_operator.Client.Laws.{Cluster, IsLawful}
use mock_storage_operator.Client.Settling.{IsSettling}
use mock_storage_operator.Volsync.Claims.{remove_finalizer_from_pvc}
use mock_storage_operator.Volsync.Claims.Effects.{claim-same}
use mock_storage_operator.Volsync.Claims.Kept.{
  IsStored-some, IsStored-same, Claim, update_pv-Claim, get_pvc-same, get_pv_from_pvc-same,
  create_pvc-Claim, remove_finalizer_from_pvc-Claim,
}
use mock_storage_operator.Volsync.Temporary.{
  temporary_key, temporary_pvc, create_if_missing, point_volume_at,
  create_temporary_pvc_from_terminating,
}
use mock_storage_operator.Volsync.Temporary.Effects.{temporary_key_ne, create_if_missing-Ensures}

module _ (C : Client) (L : IsLawful C) (S : IsSettling C L) (k : Key) where
  -- one of the two claims is there
  pub record IsHeld (w : C.World) : Type 0 where
    pub held : Claim C L S k w ⊎ Claim C L S (temporary_key k) w

  abbrev pub by_claim : (w : C.World) → Claim C L S k w → IsHeld w
  by_claim w h = record { held = inl h }

  abbrev pub by_temporary : (w : C.World) → Claim C L S (temporary_key k) w → IsHeld w
  by_temporary w h = record { held = inr h }

  pub create_pvc-IsHeld : (p : Pvc) → Preserves IsHeld (C.create_pvc p)
  create_pvc-IsHeld p = record {
    after = λ w h. elim (h.held) [
      | inl claim ↦ by_claim _ ((create_pvc-Claim C L S k p).after w claim)
      | inr tmp ↦ by_temporary _ ((create_pvc-Claim C L S (temporary_key k) p).after w tmp)
    ];
  }

  create_if_missing-IsHeld :
      (made : Pvc) (r : Reply Pvc) → Preserves IsHeld (create_if_missing C made r)
  unfolding create_if_missing
  create_if_missing-IsHeld made (value existing) = search preserves_rules
  create_if_missing-IsHeld made (error e) = search (preserves_rules, create_pvc-IsHeld)

  point_volume_at-Claim :
      (pv : Pv) → Preserves (Claim C L S (temporary_key k)) (point_volume_at C (temporary_key k) pv)
  unfolding point_volume_at
  point_volume_at-Claim pv = search (preserves_rules, update_pv-Claim C L S (temporary_key k))

  finish-Claim :
      (rm_finalizer : Bool)
      → Preserves (Claim C L S (temporary_key k)) (
          if not rm_finalizer
          then pure tt
          else wrapping "failed to remove finalizer from terminating PVC: "
              (remove_finalizer_from_pvc C k))
  finish-Claim false = Preserves-pure tt
  finish-Claim true =
      Preserves-wrapping _ _
        (remove_finalizer_from_pvc-Claim C L S (temporary_key k) k (temporary_key_ne k))

  there :
      (before : Cluster) (w w' : C.World)
      → L.view w ≡ before
      → Claim C L S k w
      → L.view w' ≡ before
      → IsHeld w'
  there before w w' same h same' =
      by_claim w'
        (IsStored-same _ _ (claim-same k before _ same ∙ sym (claim-same k before _ same')) h)

  -- On a lawful cluster where a call, however it ends, is done or not done: if the claim is there,
  -- then however CreateTemporaryPVCFromTerminating ends, with an error of any call or without, the
  -- claim is there or the temporary claim is.
  pub create_temporary_pvc_from_terminating-IsHeld :
      (rm_finalizer : Bool) (w : C.World)
      → Claim C L S k w
      → IsHeld (create_temporary_pvc_from_terminating C k rm_finalizer w).1
  unfolding create_temporary_pvc_from_terminating temporary_pvc
  create_temporary_pvc_from_terminating-IsHeld rm w h =
      let held = λ (t : C.World) (e : L.view t ≡ L.view w). there (L.view w) w t refl h e in
      Ends-always (
        Ends-bind (Ends-wrapping _ (Ends-keeps (get_pvc-same C L S (L.view w) k) refl held))
          λ pvc w1 same1.
            Ends-bind
              (Ends-wrapping _ (Ends-keeps (get_pv_from_pvc-same C L S (L.view w) k) same1 held))
              λ pv w2 same2.
                Ends-bind
                  (Ends-Ensures {P = λ t. L.view t ≡ L.view w} (L.get_pvc (temporary_key k) w2)
                    ((Preserves-attempt _ (get_pvc-same C L S (L.view w) (temporary_key k))).after
                      w2 same2)
                    held)
                  λ r w3 (seen, same3).
                    Ends-bind
                      (Ends-Ensures {P = IsHeld}
                        (create_if_missing-Ensures C L (temporary_pvc k pvc pv) (L.view w2) r w3
                          seen)
                        ((create_if_missing-IsHeld (temporary_pvc k pvc pv) r).after w3
                          (held w3 same3))
                        (λ _ h'. h'))
                      λ _ w4 (made, _).
                        Ends-Preserves
                          (Preserves-then _ _ (point_volume_at-Claim pv) (finish-Claim rm))
                          (IsStored-some _ _ made.held) by_temporary)
