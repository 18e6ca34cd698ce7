-- ===== src/Volsync/Cleanup/Unprotected.antt =====
-- What RemoveFinalizersFromPVCsByLabel has done to a lawful cluster when it returns normally.
use mathlib.Core.Path.{subst}
use mock_storage_operator.Prelude.{◌≡◌, refl, sym, ap, ◌∙◌, true, false, some, Bool-cases, inl, inr}
use mock_storage_operator.Exec.Ensures.{Ensures, Ensures-weaken, Ensures-wrapping, Ensures-bind}
use mock_storage_operator.Exec.Loops.{IsStep, for_each-All}
use mock_storage_operator.Objects.{Key, key_of, Pvc}
use mock_storage_operator.Client.{Client}
use mock_storage_operator.Client.Laws.{Cluster, IsLawful, key_eq, key_eq_sound}
use mock_storage_operator.Client.Listing.{IsListing, matches}
use mock_storage_operator.Volsync.{VsHandler, owned_anywhere, pvc_finalizer_name}
use mock_storage_operator.Volsync.Claims.Effects.{Unguarded, remove_finalizer_from_pvc-Ensures}
use mock_storage_operator.Volsync.Cleanup.{
  unprotect_listed_pvc, remove_finalizers_from_pvcs_by_label,
}
use mock_storage_operator.Volsync.Cleanup.Listed.{All-lists}

module _ (C : Client) (L : IsLawful C) where
  -- the claim, as far as it is there, lacks the protection finalizer
  pub record Lacks (k : Key) (cluster : Cluster) : Type 0 where
    pub lacks :
        (p : Pvc)
        → cluster.pvc k ≡ some p
        → C.contains_finalizer p.finalizers pvc_finalizer_name ≡ false

  -- claims that lack it go on to do so, and no source or destination changes
  pub record StaysLacking (before after : Cluster) : Type 0 where
    pub sources : after.rs ≡ before.rs
    pub destinations : after.rd ≡ before.rd
    pub claims : (k : Key) → Lacks k before → Lacks k after

  Lacks-same :
      (k : Key) (before after : Cluster)
      → after.pvc k ≡ before.pvc k
      → Lacks k before
      → Lacks k after
  Lacks-same k before after same h = record { lacks = λ p stored. h.lacks p (sym same ∙ stored) }

  StaysLacking-same : {before after : Cluster} → after ≡ before → StaysLacking before after
  StaysLacking-same {before} {after} e = record {
    sources = ap (λ (c : Cluster). c.rs) e;
    destinations = ap (λ (c : Cluster). c.rd) e;
    claims = λ k h. Lacks-same k before after (ap (λ (c : Cluster). c.pvc k) e) h;
  }

  StaysLacking-then : {a b c : Cluster} → StaysLacking a b → StaysLacking b c → StaysLacking a c
  StaysLacking-then first second = record {
    sources = second.sources ∙ first.sources;
    destinations = second.destinations ∙ first.destinations;
    claims = λ k h. second.claims k (first.claims k h);
  }

  abbrev ClaimDone : Pvc → C.World → Type 0
  ClaimDone pvc w = Lacks (key_of pvc.meta) (L.view w)

  claims-IsStep : IsStep ClaimDone (λ w w'. StaysLacking (L.view w) (L.view w'))
  claims-IsStep = record {
    none_done = λ w. StaysLacking-same refl;
    one_after_another = λ a b c first second. StaysLacking-then first second;
    stays_done = λ pvc a b step h. step.claims (key_of pvc.meta) h;
  }

  Unguarded-step :
      (j : Key) (before after : Cluster)
      → Unguarded C L j before after
      → Lacks j after × StaysLacking before after
  Unguarded-step j before after un =
      let done : Lacks j after = record { lacks = un.unguarded } in
      (
        done,
        record {
          sources = un.only.sources;
          destinations = un.only.destinations;
          claims = λ k h. elim (Bool-cases (key_eq j k)) [
            | inl same ↦ subst (λ q. Lacks q after) (key_eq_sound j k same) done
            | inr other ↦ Lacks-same k before after (un.only.others k other) h
          ];
        },
      )

  unprotect_listed_pvc-Ensures :
      (pvc : Pvc) (w : C.World)
      → Ensures
          (unprotect_listed_pvc C pvc)
          w
          (λ _ w'. ClaimDone pvc w' × StaysLacking (L.view w) (L.view w'))
  unfolding unprotect_listed_pvc
  unprotect_listed_pvc-Ensures pvc w = Ensures-wrapping _ (
      Ensures-weaken (remove_finalizer_from_pvc-Ensures C L (key_of pvc.meta) w)
        (λ _ w' un. Unguarded-step (key_of pvc.meta) (L.view w) (L.view w') un))

module _ (C : Client) (L : IsLawful C) (I : IsListing C L) (v : VsHandler) where
  -- the claims with the owner's label, in any namespace, are no longer protected
  pub record ClaimsReleased (before after : Cluster) : Type 0 where
    pub released :
        (k : Key) (p : Pvc)
        → before.pvc k ≡ some p
        → matches (owned_anywhere v) p.meta ≡ true
        → Lacks C L k after
    pub step : StaysLacking C L before after

  pub remove_finalizers_by_label-Ensures :
      (w : C.World)
      → Ensures
          (remove_finalizers_from_pvcs_by_label C v)
          w
          (λ _ w'. ClaimsReleased (L.view w) (L.view w'))
  unfolding remove_finalizers_from_pvcs_by_label
  remove_finalizers_by_label-Ensures w =
      Ensures-bind (Ensures-wrapping _ (I.list_pvcs (owned_anywhere v) w refl)) λ items w1 listed.
        Ensures-weaken
          (for_each-All (claims-IsStep C L) (unprotect_listed_pvc C)
            (unprotect_listed_pvc-Ensures C L) items w1)
          λ _ w' (all, step). record {
            released = λ k p stored owned.
                All-lists (λ (x : Pvc). x.meta) (λ j. Lacks C L j (L.view w')) items k all
                  (listed.1.listed k p stored owned);
            step = StaysLacking-then C L (StaysLacking-same C L listed.0) step;
          }
