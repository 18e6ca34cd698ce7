-- ===== src/Controller/Delete/Complete.antt =====
-- What the clean-up of a deleted VolumeGroupReplication has done when it returns normally.
use mock_storage_operator.Prelude.{Option, ◌≡◌, ap, ◌∙◌, true, false, some}
use mock_storage_operator.Exec.{ok}
use mock_storage_operator.Exec.Ensures.{Ensures, Ensures-at, Ensures-weaken, Ensures-bind}
use mock_storage_operator.Objects.{Key, Pvc, Rs, Rd, Vgr}
use mock_storage_operator.Client.{Client}
use mock_storage_operator.Client.Laws.{Cluster, IsLawful}
use mock_storage_operator.Client.Listing.{IsListing, matches}
use mock_storage_operator.Volsync.{VsHandler, owned_in_namespace, owned_anywhere}
use mock_storage_operator.Volsync.Cleanup.Effects.{RsGoing, RdGoing}
use mock_storage_operator.Volsync.Cleanup.Listed.{
  SourcesCleared, DestinationsCleared, delete_rs_by_label-Ensures, delete_rd_by_label-Ensures,
}
use mock_storage_operator.Volsync.Cleanup.Unprotected.{
  Lacks, ClaimsReleased, remove_finalizers_by_label-Ensures,
}
use mock_storage_operator.Controller.Session.{handler_for}
use mock_storage_operator.Controller.Delete.{clean_up, handle_pvc_deletion}
use mock_storage_operator.Controller.FinalSync.{is_secondary}

module _ (C : Client) (L : IsLawful C) (I : IsListing C L) (vgr : Vgr) where
  abbrev handler : VsHandler
  handler = handler_for vgr ""

  -- what the group leaves behind
  pub record CleanedUp (before after : Cluster) : Type 0 where
    pub sources :
        (k : Key) (r : Rs)
        → before.rs k ≡ some r
        → matches (owned_in_namespace (handler_for vgr "")) r.meta ≡ true
        → RsGoing (after.rs k)
    pub destinations :
        (k : Key) (r : Rd)
        → before.rd k ≡ some r
        → matches (owned_in_namespace (handler_for vgr "")) r.meta ≡ true
        → RdGoing (after.rd k)
    pub claims :
        (k : Key) (p : Pvc)
        → before.pvc k ≡ some p
        → matches (owned_anywhere (handler_for vgr "")) p.meta ≡ true
        → Lacks C L k after

  handle_pvc_deletion-Ensures :
      (w : C.World)
      → is_secondary vgr.replication_state ≡ false
      → Ensures
          (handle_pvc_deletion C vgr handler)
          w
          (λ _ w'. ClaimsReleased C L I handler (L.view w) (L.view w'))
  unfolding handle_pvc_deletion
  handle_pvc_deletion-Ensures w primary =
      rw primary (remove_finalizers_by_label-Ensures C L I handler w)

  cleaned_up :
      (c0 c1 c2 c3 : Cluster)
      → SourcesCleared C L I handler c0 c1
      → DestinationsCleared C L I handler c1 c2
      → ClaimsReleased C L I handler c2 c3
      → CleanedUp c0 c3
  cleaned_up c0 c1 c2 c3 rss rds pvcs = record {
    sources = λ k r stored owned.
        rw (ap (λ (f : Key → Option Rs). f k) (pvcs.step.sources ∙ rds.step.sources))
          (rss.cleared k r stored owned);
    destinations = λ k r stored owned.
        rw (ap (λ (f : Key → Option Rd). f k) pvcs.step.destinations) (
          rds.cleared k r (ap (λ (f : Key → Option Rd). f k) rss.step.destinations ∙ stored) owned);
    claims = λ k p stored owned.
        pvcs.released k p
          (ap (λ (f : Key → Option Pvc). f k) (rds.step.claims ∙ rss.step.claims) ∙ stored) owned;
  }

  -- On a lawful cluster whose lists leave out nothing that matches, where the clean-up of a
  -- VolumeGroupReplication that is not secondary returns normally: the sources and destinations in
  -- its namespace that carry its name as their owner label are gone or being deleted, and the claims
  -- that carry this label, in any namespace, are gone or lack the protection finalizer.
  pub clean_up-CleanedUp :
      (w w' : C.World)
      → is_secondary vgr.replication_state ≡ false
      → clean_up C vgr w ≡ (ok tt, w')
      → CleanedUp (L.view w) (L.view w')
  unfolding clean_up
  clean_up-CleanedUp w w' primary returned =
      Ensures-at {Q = λ _ t. CleanedUp (L.view w) (L.view t)}
        (Ensures-bind (delete_rs_by_label-Ensures C L I handler w) λ _ w1 rss.
          Ensures-bind (delete_rd_by_label-Ensures C L I handler w1) λ _ w2 rds.
            Ensures-weaken (handle_pvc_deletion-Ensures w2 primary)
              (λ _ w3 pvcs. cleaned_up (L.view w) (L.view w1) (L.view w2) (L.view w3) rss rds pvcs))
        returned
