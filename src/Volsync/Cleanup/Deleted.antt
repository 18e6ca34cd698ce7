-- ===== src/Volsync/Cleanup/Deleted.antt =====
-- What DeletePVCsByLabel has done to a lawful cluster when it returns normally. It goes on when the
-- removal of a finalizer has failed, so the proof needs to know what a failed call leaves.
use mathlib.Core.Path.{subst}
use mock_storage_operator.Prelude.{
  ℕ, ◌≡◌, ◌≢◌, refl, sym, ap, ◌∙◌, true, not, String, Option, none, some, List, [], ◌∷◌, Bool-cases,
  inl, inr,
}
use mock_storage_operator.Exec.{Reply, value, error, is_not_found, attempt, Exec}
use mock_storage_operator.Exec.Ensures.{
  Ensures, Ensures-pure, Ensures-fail, Ensures-if, Ensures-weaken, Ensures-wrapping, Ensures-bind,
  Ensures-true,
}
use mock_storage_operator.Exec.Preserves.{Preserves, Preserves-attempt, preserves_rules}
use mock_storage_operator.Exec.Ends.{
  Ends, Ends-always, Ends-Ensures, Ends-pure, Ends-fail, Ends-if, Ends-wrapping, Ends-bind,
  Ensures-Preserves,
}
use mock_storage_operator.Exec.Loops.{IsStep, for_each-All}
use mock_storage_operator.Objects.{
  Key, key_of, Pvc, Pv, ReclaimPolicy, reclaim_retain, reclaim_delete, reclaim_recycle,
}
use mock_storage_operator.Client.{Client}
use mock_storage_operator.Client.Laws.{
  Cluster, IsLawful, Read, Deleted, key_eq, key_eq_sound, put, after_update, unless_released,
  deleted_pvc,
}
use mock_storage_operator.Client.Settling.{IsSettling}
use mock_storage_operator.Client.Listing.{IsListing, matches}
use mock_storage_operator.Volsync.{VsHandler, owned_anywhere, pvc_finalizer_name}
use mock_storage_operator.Volsync.Claims.{remove_finalizer_from, remove_finalizer_from_pvc}
use mock_storage_operator.Volsync.Claims.Effects.{key_eq_refl, key_of_read, claim-same}
use mock_storage_operator.Volsync.Claims.Kept.{settled}
use mock_storage_operator.Volsync.Restore.Effects.{Going, deleted_pvc-Going}
use mock_storage_operator.Volsync.Cleanup.{
  release_retained, release_volume, release_bound_volume, gone_or_fail, delete_listed_pvc,
  delete_pvcs_by_label,
}
use mock_storage_operator.Volsync.Cleanup.Listed.{All-lists}

-- claims that are going stay so, and no source or destination changes
pub record ClaimsStep (before after : Cluster) : Type 0 where
  pub sources : after.rs ≡ before.rs
  pub destinations : after.rd ≡ before.rd
  pub claims : (k : Key) → Going (before.pvc k) → Going (after.pvc k)

pub ClaimsStep-same : {before after : Cluster} → after ≡ before → ClaimsStep before after
ClaimsStep-same {before} {after} e = record {
  sources = ap (λ (c : Cluster). c.rs) e;
  destinations = ap (λ (c : Cluster). c.rd) e;
  claims = λ k h. rw (ap (λ (c : Cluster). c.pvc k) e) h;
}

ClaimsStep-then : {a b c : Cluster} → ClaimsStep a b → ClaimsStep b c → ClaimsStep a c
ClaimsStep-then first second = record {
  sources = second.sources ∙ first.sources;
  destinations = second.destinations ∙ first.destinations;
  claims = λ k h. second.claims k (first.claims k h);
}

-- a write of one claim
ClaimsStep-put :
    (k : Key) (o : Option Pvc) (before : Cluster)
    → (Going (before.pvc k) → Going o)
    → ClaimsStep before (record before { pvc = put k o before.pvc })
ClaimsStep-put k o before going = record {
  sources = refl;
  destinations = refl;
  claims = λ j h. elim (Bool-cases (key_eq k j)) [
    | inl same ↦ rw same (going (subst (λ i. Going (before.pvc i)) (sym (key_eq_sound k j same)) h))
    | inr other ↦ rw other h
  ];
}

unless_released-Going :
    (p : Pvc) (mark : Option ℕ) (fs : List String)
    → p.deletion_timestamp ≢ none
    → Going (unless_released mark fs p)
unless_released-Going p none fs going = going
unless_released-Going p (some t) [] going = tt
unless_released-Going p (some t) (f ∷ fs) going = going

Going-some : (o : Option Pvc) (q : Pvc) → o ≡ some q → Going o → q.deletion_timestamp ≢ none
Going-some o q e h = rw e at h

module _ (C : Client) (L : IsLawful C) (S : IsSettling C L) (c : Cluster) where
  -- the steps from `c` on
  record Since (w : C.World) : Type 0 where
    step : ClaimsStep c (L.view w)

  Since-then : (w w' : C.World) → Since w → ClaimsStep (L.view w) (L.view w') → Since w'
  Since-then w w' h step = record { step = ClaimsStep-then h.step step }

  get_pvc-Since : (k : Key) → Preserves Since (C.get_pvc k)
  get_pvc-Since k = record { after = λ w h. Since-then w _ h (ClaimsStep-same (S.get_pvc k w)) }

  get_pv-Since : (n : String) → Preserves Since (C.get_pv n)
  get_pv-Since n = record { after = λ w h. Since-then w _ h (ClaimsStep-same (S.get_pv n w)) }

  update_pv-Since : (v : Pv) → Preserves Since (C.update_pv v)
  update_pv-Since v = record {
    after = λ w h. Since-then w _ h (
        settled (ClaimsStep (L.view w)) (S.update_pv v w) (ClaimsStep-same refl)
          (record { sources = refl; destinations = refl; claims = λ k going. going }));
  }

  -- an update of a claim that keeps its mark
  update_marked-Since :
      (p q : Pvc) (w : C.World)
      → (L.view w).pvc (key_of p.meta) ≡ some q
      → p.deletion_timestamp ≡ q.deletion_timestamp
      → Since w
      → Since (C.update_pvc p w).1
  update_marked-Since p q w stored same h = Since-then w _ h (
      settled (ClaimsStep (L.view w)) (S.update_pvc p w) (ClaimsStep-same refl) (
        ClaimsStep-put (key_of p.meta) (after_update p) (L.view w)
          (λ going. unless_released-Going p _ _ (λ e. Going-some _ q stored going (sym same ∙ e)))))

  remove_finalizer_from-Since :
      (k : Key) (before : Cluster) (r : Reply Pvc) (w : C.World)
      → Read (before.pvc k) before r (L.view w) × Since w
      → Ends (remove_finalizer_from C r) w (λ _ w'. Since w') Since
  unfolding remove_finalizer_from
  remove_finalizer_from-Since k before (error e) w (read, h) =
      Ends-if (is_not_found e) _ _ (λ _. Ends-pure tt h) (λ _. Ends-fail _ h)
  remove_finalizer_from-Since k before (value pvc) w (read, h) =
      let stored : (L.view w).pvc (key_of pvc.meta) ≡ some pvc =
        ap (λ j. (L.view w).pvc j) (key_of_read C L k pvc before w read.0 read.1)
        ∙ claim-same k before (L.view w) read.0
        ∙ read.1 in
      Ends-if (not (C.contains_finalizer pvc.finalizers pvc_finalizer_name)) _ _
        (λ _. Ends-pure tt h)
        (λ _.
          Ends-bind
            (Ends-wrapping _ (
              Ends-Ensures {P = Since} (Ensures-true _ w)
                (update_marked-Since
                  (record pvc {
                    meta = record (pvc.meta) {
                      finalizers = C.remove_finalizer pvc.finalizers pvc_finalizer_name;
                    };
                  })
                  pvc w stored refl h)
                (λ _ h'. h')))
            (λ _ w' h'. Ends-pure tt h'.1))

  remove_finalizer_from_pvc-Since : (k : Key) → Preserves Since (remove_finalizer_from_pvc C k)
  unfolding remove_finalizer_from_pvc
  remove_finalizer_from_pvc-Since k = record {
    after = λ w h. Ends-always (
        Ends-bind
          (Ends-Ensures {P = Since} (L.get_pvc k w)
            ((Preserves-attempt _ (get_pvc-Since k)).after w h) (λ _ h'. h'))
          (λ r w' read. remove_finalizer_from-Since k (L.view w) r w' read));
  }

  release_retained-Since :
      (pvc : Pvc) (pv : Pv) (policy : ReclaimPolicy)
      → Preserves Since (release_retained C pvc pv policy)
  unfolding release_retained
  release_retained-Since pvc pv reclaim_retain = search (preserves_rules, update_pv-Since)
  release_retained-Since pvc pv reclaim_delete = search preserves_rules
  release_retained-Since pvc pv reclaim_recycle = search preserves_rules

  release_volume-Since : (pvc : Pvc) (r : Reply Pv) → Preserves Since (release_volume C pvc r)
  unfolding release_volume
  release_volume-Since pvc (value pv) = release_retained-Since pvc pv pv.reclaim_policy
  release_volume-Since pvc (error e) = search preserves_rules

  release_bound_volume-Since : (pvc : Pvc) → Preserves Since (release_bound_volume C pvc)
  unfolding release_bound_volume
  release_bound_volume-Since pvc = search (preserves_rules, get_pv-Since, release_volume-Since)

module _ (C : Client) (L : IsLawful C) (S : IsSettling C L) where
  abbrev ClaimDone : Pvc → C.World → Type 0
  ClaimDone pvc w = Going ((L.view w).pvc (key_of pvc.meta))

  -- a step that is known by what it preserves
  Preserves-step :
      {A : Type 0} (m : Exec C.World A) (w : C.World)
      → ((c : Cluster) → Preserves (Since C L S c) m)
      → Ensures m w (λ _ w'. ClaimsStep (L.view w) (L.view w'))
  Preserves-step m w keeps =
      Ensures-weaken (Ensures-Preserves (keeps (L.view w)) (record { step = ClaimsStep-same refl }))
        (λ _ w' h. h.step)

  pvc_gone_or_fail :
      (text : String) (pvc : Pvc) (before : Cluster) (r : Reply (Unit {0})) (w : C.World)
      → Deleted
          (before.pvc (key_of pvc.meta))
          before
          (λ t. record before {
            pvc = put (key_of pvc.meta) (deleted_pvc t (before.pvc (key_of pvc.meta))) before.pvc;
          })
          r
          (L.view w)
      → Ensures (gone_or_fail C text r) w (λ _ w'. ClaimDone pvc w' × ClaimsStep before (L.view w'))
  unfolding gone_or_fail
  pvc_gone_or_fail text pvc before (value _) w (t, e) =
      let going = deleted_pvc-Going t (before.pvc (key_of pvc.meta)) in
      Ensures-pure tt (
        rw (ap (λ (c : Cluster). c.pvc (key_of pvc.meta)) e)
            (rw (key_eq_refl (key_of pvc.meta)) going),
        subst (ClaimsStep before) (sym e) (ClaimsStep-put (key_of pvc.meta) _ before (λ _. going)),
      )
  pvc_gone_or_fail text pvc before (error x) w gone =
      Ensures-if (is_not_found x) _ _
        (λ missing. Ensures-pure tt (
          rw (ap (λ (c : Cluster). c.pvc (key_of pvc.meta)) (gone missing).0 ∙ (gone missing).1) tt,
          ClaimsStep-same (gone missing).0,
        ))
        (λ _. Ensures-fail _)

  delete_listed_pvc-Ensures :
      (pvc : Pvc) (w : C.World)
      → Ensures
          (delete_listed_pvc C pvc)
          w
          (λ _ w'. ClaimDone pvc w' × ClaimsStep (L.view w) (L.view w'))
  unfolding delete_listed_pvc
  delete_listed_pvc-Ensures pvc w =
      Ensures-bind
        (Preserves-step (release_bound_volume C pvc) w
          (λ c. release_bound_volume-Since C L S c pvc))
        λ _ w1 one.
          Ensures-bind
            (Preserves-step (attempt (remove_finalizer_from_pvc C (key_of pvc.meta))) w1 (λ c.
              Preserves-attempt _ (remove_finalizer_from_pvc-Since C L S c (key_of pvc.meta))))
            λ _ w2 two. Ensures-bind (L.delete_pvc (key_of pvc.meta) w2) λ r w3 deleted.
              Ensures-weaken (pvc_gone_or_fail _ pvc (L.view w2) r w3 deleted)
                λ _ w4 (done, three). (done, ClaimsStep-then one (ClaimsStep-then two three))

  claims-IsStep : IsStep ClaimDone (λ w w'. ClaimsStep (L.view w) (L.view w'))
  claims-IsStep = record {
    none_done = λ w. ClaimsStep-same refl;
    one_after_another = λ a b c first second. ClaimsStep-then first second;
    stays_done = λ pvc a b step h. step.claims (key_of pvc.meta) h;
  }

module _ (C : Client) (L : IsLawful C) (S : IsSettling C L) (I : IsListing C L)
    (v : VsHandler) where
  -- the claims with the owner's label, in any namespace, are gone or going
  pub record ClaimsDeleted (before after : Cluster) : Type 0 where
    pub deleted :
        (k : Key) (p : Pvc)
        → before.pvc k ≡ some p
        → matches (owned_anywhere v) p.meta ≡ true
        → Going (after.pvc k)
    pub step : ClaimsStep before after

  pub delete_pvcs_by_label-Ensures :
      (w : C.World)
      → Ensures (delete_pvcs_by_label C v) w (λ _ w'. ClaimsDeleted (L.view w) (L.view w'))
  unfolding delete_pvcs_by_label
  delete_pvcs_by_label-Ensures w =
      Ensures-bind (Ensures-wrapping _ (I.list_pvcs (owned_anywhere v) w refl)) λ items w1 listed.
        Ensures-weaken
          (for_each-All (claims-IsStep C L S) (delete_listed_pvc C)
            (delete_listed_pvc-Ensures C L S) items w1)
          λ _ w' (all, step). record {
            deleted = λ k p stored owned.
                All-lists (λ (x : Pvc). x.meta) (λ j. Going ((L.view w').pvc j)) items k all
                  (listed.1.listed k p stored owned);
            step = ClaimsStep-then (ClaimsStep-same listed.0) step;
          }
