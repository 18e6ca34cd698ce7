-- ===== src/Controller/Delete/Secondary.antt =====
-- What the clean-up of a deleted secondary VolumeGroupReplication has done when it returns normally.
use mock_storage_operator.Prelude.{Option, ◌≡◌, ap, ◌∙◌, true, some}
use mock_storage_operator.Exec.{ok}
use mock_storage_operator.Exec.Ensures.{Ensures, Ensures-at, Ensures-weaken, Ensures-bind}
use mock_storage_operator.Objects.{Key, Pvc, Rs, Rd, Vgr}
use mock_storage_operator.Client.{Client}
use mock_storage_operator.Client.Laws.{Cluster, IsLawful}
use mock_storage_operator.Client.Settling.{IsSettling}
use mock_storage_operator.Client.Listing.{IsListing, matches}
use mock_storage_operator.Volsync.{VsHandler, owned_in_namespace, owned_anywhere}
use mock_storage_operator.Volsync.Restore.Effects.{Going}
use mock_storage_operator.Volsync.Cleanup.Effects.{RsGoing, RdGoing}
use mock_storage_operator.Volsync.Cleanup.Listed.{
  SourcesCleared, DestinationsCleared, delete_rs_by_label-Ensures, delete_rd_by_label-Ensures,
}
use mock_storage_operator.Volsync.Cleanup.Deleted.{ClaimsDeleted, delete_pvcs_by_label-Ensures}
use mock_storage_operator.Controller.Session.{handler_for}
use mock_storage_operator.Controller.Delete.{clean_up, handle_pvc_deletion}
use mock_storage_operator.Controller.FinalSync.{is_secondary}

-- what a secondary group leaves behind
pub record WipedOut (vgr : Vgr) (before after : Cluster) : Type 0 where
  pub sources :
      (k : Key) (r : Rs)
      → before.rs k ≡ some r
      → matches (owned_in_namespace (handler_for vgr "")) r.meta ≡ true
      → RsGoing (after.rs k)
  pub destinations :
      (k : Key) (r : Rd)
      → before.rd k ≡ some r
      → matches (owned_in_namespace (handler_for vgr "")) r.meta ≡ true
      → RdGoing (after.rd k)
  pub claims :
      (k : Key) (p : Pvc)
      → before.pvc k ≡ some p
      → matches (owned_anywhere (handler_for vgr "")) p.meta ≡ true
      → Going (after.pvc k)

module _ (C : Client) (L : IsLawful C) (S : IsSettling C L) (I : IsListing C L) (vgr : Vgr) where
  abbrev handler : VsHandler
  handler = handler_for vgr ""

  handle_pvc_deletion-Ensures :
      (w : C.World)
      → is_secondary vgr.replication_state ≡ true
      → Ensures
          (handle_pvc_deletion C vgr handler)
          w
          (λ _ w'. ClaimsDeleted C L S I handler (L.view w) (L.view w'))
  unfolding handle_pvc_deletion
  handle_pvc_deletion-Ensures w secondary =
      rw secondary (delete_pvcs_by_label-Ensures C L S I handler w)

  wiped_out :
      (c0 c1 c2 c3 : Cluster)
      → SourcesCleared C L I handler c0 c1
      → DestinationsCleared C L I handler c1 c2
      → ClaimsDeleted C L S I handler c2 c3
      → WipedOut vgr c0 c3
  wiped_out c0 c1 c2 c3 rss rds pvcs = record {
    sources = λ k r stored owned.
        rw (ap (λ (f : Key → Option Rs). f k) (pvcs.step.sources ∙ rds.step.sources))
          (rss.cleared k r stored owned);
    destinations = λ k r stored owned.
        rw (ap (λ (f : Key → Option Rd). f k) pvcs.step.destinations) (
          rds.cleared k r (ap (λ (f : Key → Option Rd). f k) rss.step.destinations ∙ stored) owned);
    claims = λ k p stored owned.
        pvcs.deleted k p
          (ap (λ (f : Key → Option Pvc). f k) (rds.step.claims ∙ rss.step.claims) ∙ stored) owned;
  }

  -- On a lawful cluster where a failed call either did what it was asked or did nothing, and whose
  -- lists leave out nothing that matches, where the clean-up of a secondary VolumeGroupReplication
  -- returns normally: the sources and destinations in its namespace that carry its name as their
  -- owner label, and the claims that carry this label in any namespace, are gone or being deleted.
  pub clean_up-WipedOut :
      (w w' : C.World)
      → is_secondary vgr.replication_state ≡ true
      → clean_up C vgr w ≡ (ok tt, w')
      → WipedOut vgr (L.view w) (L.view w')
  unfolding clean_up
  clean_up-WipedOut w w' secondary returned =
      Ensures-at {Q = λ _ t. WipedOut vgr (L.view w) (L.view t)}
        (Ensures-bind (delete_rs_by_label-Ensures C L I handler w) λ _ w1 rss.
          Ensures-bind (delete_rd_by_label-Ensures C L I handler w1) λ _ w2 rds.
            Ensures-weaken (handle_pvc_deletion-Ensures w2 secondary)
              (λ _ w3 pvcs. wiped_out (L.view w) (L.view w1) (L.view w2) (L.view w3) rss rds pvcs))
        returned
