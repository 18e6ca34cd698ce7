-- ===== src/Controller/Delete/Guard.antt =====
-- The finalizer of a VolumeGroupReplication that is being deleted guards the clean-up.
use mock_storage_operator.Prelude.{◌≡◌, refl, sym, ap, ◌∙◌, Bool, true, false}
use mock_storage_operator.Exec.{
  Exec, Outcome, ok, err, panic, Reply, value, error, is_not_found, reply_of, pure, attempt, ◌>>=◌,
}
use mock_storage_operator.Exec.Ensures.{
  Post, Ensures, Ensures-at, Ensures-self, Ensures-bind, Ensures-weaken, Ensures-if, Ensures-pure,
  Ensures-fail,
}
use mock_storage_operator.Objects.{Vgr}
use mock_storage_operator.Client.{Client}
use mock_storage_operator.Client.Laws.{Cluster, IsLawful}
use mock_storage_operator.Client.Settling.{IsSettling}
use mock_storage_operator.Client.Listing.{IsListing}
use mock_storage_operator.Controller.Session.{Session, Result, no_requeue, on_world, modify_vgr}
use mock_storage_operator.Controller.FinalSync.{is_secondary}
use mock_storage_operator.Controller.Delete.{
  clean_up, released, finalizer_removed, remove_vgr_finalizer, reconcile,
}
use mock_storage_operator.Controller.Delete.Complete.{CleanedUp, clean_up-CleanedUp}
use mock_storage_operator.Controller.Delete.Secondary.{WipedOut, clean_up-WipedOut}

module _ {W A : Type 0} where
  Post-on_world :
      (Q : A → W → Type 0) (s : Session W) (r : Outcome A) (w : W)
      → Post Q (r, w)
      → Post (λ a (t : Session W). Q a t.world × (t.vgr ≡ s.vgr)) (r, record s { world = w })
  Post-on_world Q s (ok a) w h = (h, refl)
  Post-on_world Q s (err e) w h = tt
  Post-on_world Q s panic w h = tt

  Ensures-on_world :
      {m : Exec W A} {s : Session W} {Q : A → W → Type 0}
      → Ensures m s.world Q
      → Ensures (on_world m) s (λ a t. Q a t.world × (t.vgr ≡ s.vgr))
  unfolding on_world
  Ensures-on_world {m} {s} {Q} h = record {
    holds = Post-on_world Q s (m s.world).0 (m s.world).1 h.holds;
  }

  Post-attempt :
      (m : Exec W A) (s : Session W) (r : Outcome A) (w : W)
      → attempt m s.world ≡ (reply_of r, w)
      → Post
          (λ a (t : Session W). attempt m s.world ≡ (ok a, t.world))
          (reply_of r, record s { world = w })
  Post-attempt m s (ok a) w e = e
  Post-attempt m s (err x) w e = e
  Post-attempt m s panic w e = tt

  Ensures-attempt :
      (m : Exec W A) (s : Session W)
      → Ensures (attempt (on_world m)) s (λ r t. attempt m s.world ≡ (ok r, t.world))
  unfolding on_world ◌>>=◌
  Ensures-attempt m s = record { holds = Post-attempt m s (m s.world).0 (m s.world).1 refl }

-- the update was made, or the object is gone
abbrev pub IsSettled : Reply Vgr → Type 0
IsSettled (value stored) = Unit {0}
IsSettled (error e) = is_not_found e ≡ true

module _ (C : Client) where
  finalizer_removed-Ensures :
      (r : Reply Vgr) (s : Session C.World)
      → Ensures (finalizer_removed C r) s (λ _ t. IsSettled r × (t.world ≡ s.world))
  unfolding finalizer_removed modify_vgr
  finalizer_removed-Ensures (value stored) s = record { holds = (tt, refl) }
  finalizer_removed-Ensures (error e) s =
      Ensures-if (is_not_found e) _ _ (λ gone. Ensures-pure tt (gone, refl)) (λ _. Ensures-fail e)

  -- the VGR without its finalizer was sent from this world, and the reply settled it
  pub record Released (vgr : Vgr) (before after : C.World) : Type 0 where
    pub reply : Reply Vgr
    pub sent : attempt (C.update_vgr (released C vgr)) before ≡ (ok reply, after)
    pub settled : IsSettled reply

  remove_vgr_finalizer-Ensures :
      (s : Session C.World)
      → Ensures (remove_vgr_finalizer C) s (λ _ t. Released s.vgr s.world t.world)
  unfolding remove_vgr_finalizer modify_vgr ◌>>=◌
  remove_vgr_finalizer-Ensures s =
      let unguarded : Session C.World = record s { vgr = released C s.vgr } in
      let updated : Ensures
          (attempt (on_world (C.update_vgr unguarded.vgr)) >>= finalizer_removed C) unguarded
          (λ _ t. Released s.vgr s.world t.world) =
        Ensures-bind (Ensures-attempt (C.update_vgr unguarded.vgr) unguarded) λ r t sent.
          Ensures-weaken (finalizer_removed-Ensures r t) λ _ u (settled, same). record {
            reply = r;
            sent = sent ∙ ap (λ w. (ok r, w)) (sym same);
            settled = settled;
          } in
      record { holds = updated.holds }

module _ (C : Client) (L : IsLawful C) (S : IsSettling C L) (I : IsListing C L) where
  -- what the clean-up has done, by whether the group is secondary
  abbrev pub Left : Bool → Vgr → Cluster → Cluster → Type 0
  Left true vgr = WipedOut vgr
  Left false vgr = CleanedUp C L I vgr

  clean_up-Left :
      (b : Bool) (vgr : Vgr) (w w' : C.World)
      → is_secondary vgr.replication_state ≡ b
      → clean_up C vgr w ≡ (ok tt, w')
      → Left b vgr (L.view w) (L.view w')
  clean_up-Left true vgr w w' state returned = clean_up-WipedOut C L S I vgr w w' state returned
  clean_up-Left false vgr w w' state returned = clean_up-CleanedUp C L I vgr w w' state returned

  -- a world where all is cleaned up, from which the finalizer's removal was sent
  pub record Finished (vgr : Vgr) (before after : C.World) : Type 0 where
    pub world : C.World
    pub left : Left (is_secondary vgr.replication_state) vgr (L.view before) (L.view world)
    pub released : Released C vgr world after

  reconcile-Ensures :
      (s : Session C.World)
      → Ensures (reconcile C) s (λ result t. (result ≡ no_requeue) × Finished s.vgr s.world t.world)
  unfolding reconcile ◌>>=◌
  reconcile-Ensures s = record { holds = run.holds }
    where
      run :
          Ensures
            (on_world (clean_up C s.vgr) >>= λ _. (remove_vgr_finalizer C >>= λ _. pure no_requeue))
            s
            (λ result t. (result ≡ no_requeue) × Finished s.vgr s.world t.world)
      run =
          Ensures-bind (Ensures-on_world (Ensures-self (clean_up C s.vgr) s.world))
            λ _ t (cleaned, same). Ensures-bind (remove_vgr_finalizer-Ensures C t) λ _ u done.
              Ensures-pure no_requeue (
                refl,
                record {
                  world = t.world;
                  left = clean_up-Left _ s.vgr s.world t.world refl cleaned;
                  released = rw same at done;
                },
              )

  -- On a lawful cluster where a failed call either did what it was asked or did nothing, and whose
  -- lists leave out nothing that matches, where the reconciler of a VolumeGroupReplication that is
  -- being deleted returns normally: it does not ask for a requeue, and it sent the object without its
  -- finalizer from a world where the sources and destinations in its namespace with its owner
  -- label are gone or being deleted, and the claims with this label in any namespace are so for a
  -- secondary, and for another gone or without the protection finalizer; the reply was a success or
  -- not found, and nothing was called after it.
  pub reconcile-Finished :
      (s s' : Session C.World) (result : Result)
      → reconcile C s ≡ (ok result, s')
      → (result ≡ no_requeue) × Finished s.vgr s.world s'.world
  reconcile-Finished s s' result returned = Ensures-at (reconcile-Ensures s) returned
