-- ===== src/Controller/Secondary/Waiting.antt =====
-- The errors of the final sync that the secondary reconciler takes for "wait".
use Prim.Native.Char.{code}
use text.Mathlib.TextLemmas.{cons-append, append_cancel_left, append_cancel_right}
use mock_storage_operator.Prelude.{
  ℕ, ◌≡◌, refl, sym, arith, ap, ◌∙◌, Bool, true, false, inl, inr, String, ◌<>◌, ◌==◌, eq_iff,
  Bool-cases,
}
use mock_storage_operator.Exec.{errorf, error_text}
use mock_storage_operator.Controller.Secondary.Phases.{is_waiting}

unfoldable first_code : String → ℕ
first_code String.[] = 0
first_code (String.◌∷◌ c s) = code c

not_waiting_for_pvcs :
    (rest : String) → (("PVC " <> rest) == "waiting for PVCs to terminate") ≡ false
unfolding first_code
not_waiting_for_pvcs rest =
    elim (Bool-cases (("PVC " <> rest) == "waiting for PVCs to terminate")) [
      | inl same ↦
          let codes : 80 ≡ 119 =
            ap first_code (sym (cons-append "P" "VC " rest) ∙ (eq_iff _ _).0 same) in
          absurd (omega (arith, codes))
      | inr other ↦ other
    ]

not_both : {b : Bool} → b ≡ true → b ≡ false → ⊥
not_both e f = cc

not_still_in_use :
    (name : String)
    → (name == "") ≡ false
    → (("PVC " <> (name <> " still in use")) == "PVC  still in use") ≡ false
not_still_in_use name named =
    elim (Bool-cases (("PVC " <> (name <> " still in use")) == "PVC  still in use")) [
      | inl same ↦
          let empty : name ≡ "" = append_cancel_right name "" " still in use" (
            append_cancel_left "PVC " (name <> " still in use") ("" <> " still in use")
              ((eq_iff _ _).0 same)) in
          absurd (not_both ((eq_iff name "").1 empty) named)
      | inr other ↦ other
    ]

-- The secondary reconciler does not take the error of ProcessFinalSync for a claim that is still in
-- use for one that means "wait", whatever the claim's name is, as long as it is not empty.
pub in_use-not_waiting :
    (name : String)
    → (name == "") ≡ false
    → is_waiting (errorf ("PVC " <> (name <> " still in use"))) ≡ false
unfolding is_waiting error_text
in_use-not_waiting name named = rw (not_waiting_for_pvcs, not_still_in_use name named) refl
