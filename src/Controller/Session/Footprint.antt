-- ===== src/Controller/Session/Footprint.antt =====
-- Invariants of the cluster under a reconciler's steps, and the calls that the steps on the status
-- make.
use mock_storage_operator.Prelude.{Bool, String}
use mock_storage_operator.Exec.{Exec, Outcome, lift, ◌>>=◌}
use mock_storage_operator.Exec.Preserves.{Preserves, preserves_rules, Preserves-bind}
use mock_storage_operator.Objects.{Vgr}
use mock_storage_operator.Client.{Client}
use mock_storage_operator.Client.Footprint.{Reads}
use mock_storage_operator.Controller.Session.{
  Session, on_world, modify_vgr, the_vgr, update_vgr_status,
}
use mock_storage_operator.Controller.Conditions.{set_vgr_condition}

-- an invariant of the cluster, on a reconciler's object
pub record OnWorld {W : Type 0} (P : W → Type 0) (s : Session W) : Type 0 where
  pub at_world : P s.world

module _ {W : Type 0} {P : W → Type 0} where
  pub Preserves-on_world :
      {A : Type 0} (m : Exec W A) → Preserves P m → Preserves (OnWorld P) (on_world m)
  unfolding on_world
  Preserves-on_world m k = record {
    after = λ s h. record { at_world = k.after s.world h.at_world };
  }

  pub Preserves-modify_vgr : (f : Vgr → Vgr) → Preserves (OnWorld P) (modify_vgr f)
  unfolding modify_vgr
  Preserves-modify_vgr f = record { after = λ s h. record { at_world = h.at_world } }

  pub Preserves-the_vgr : Preserves (OnWorld P) the_vgr
  unfolding ◌>>=◌
  Preserves-the_vgr = record { after = λ s h. h }

  pub Preserves-lift : {A : Type 0} (r : Outcome A) → Preserves (OnWorld P) (lift r)
  unfolding ◌>>=◌
  Preserves-lift r = record { after = λ s h. h }

pub ruleset session_rules =
    (preserves_rules, Preserves-on_world, Preserves-modify_vgr, Preserves-the_vgr, Preserves-lift)

module _ (C : Client) {P : C.World → Type 0} where
  pub update_vgr_status-Preserves :
      ((vgr : Vgr) → Preserves P (C.update_vgr_status vgr))
      → Preserves (OnWorld P) (update_vgr_status C)
  unfolding update_vgr_status
  update_vgr_status-Preserves status = search (session_rules, status)

  pub set_vgr_condition-Preserves :
      Reads C P
      → (cond_type : String) (status : Bool) (reason message : String)
      → Preserves (OnWorld P) (set_vgr_condition C cond_type status reason message)
  unfolding set_vgr_condition
  set_vgr_condition-Preserves reads cond_type status reason message =
      Preserves-bind _ _ (Preserves-on_world C.now reads.now) (λ now. Preserves-modify_vgr _)
