-- ===== src/Controller/Session.antt =====
-- internal/controller: a reconciler's object, that is the cluster and the VolumeGroupReplication
-- that it holds in memory (`r.vgr`), which later steps read and the caller writes back.
pub mod Footprint
use mock_storage_operator.Prelude.{ℕ, Bool, false, String}
use mock_storage_operator.Exec.{Exec, gets, ◌>>=◌, ok}
use mock_storage_operator.Objects.{Vgr}
use mock_storage_operator.Client.{Client}
use mock_storage_operator.Volsync.{VsHandler}

pub record Session (W : Type 0) : Type 0 where
  pub world : W
  pub vgr : Vgr

-- a call that leaves the object in memory alone
unfoldable pub on_world : {W A : Type 0} → Exec W A → Exec (Session W) A
on_world m s = let (r, w) = m s.world in (r, record s { world = w })

unfoldable pub modify_vgr : {W : Type 0} → (Vgr → Vgr) → Exec (Session W) (Unit {0})
modify_vgr f s = (ok tt, record s { vgr = f s.vgr })

abbrev pub the_vgr : {W : Type 0} → Exec (Session W) Vgr
the_vgr = gets (λ s. s.vgr)

-- ctrl.Result; the delay in seconds
pub record Result : Type 0 where
  pub requeue : Bool
  pub requeue_after : ℕ

abbrev pub no_requeue : Result
no_requeue = record { requeue = false; requeue_after = 0 }

abbrev pub after_seconds : ℕ → Result
after_seconds n = record { requeue = false; requeue_after = n }

-- requeueInterval
abbrev pub requeue_interval : Result
requeue_interval = after_seconds 30

-- NewVSHandler(ctx, client, logger, vgr, interval)
abbrev pub handler_for : Vgr → String → VsHandler
handler_for vgr interval = record {
  owner = record { namespace = vgr.namespace; name = vgr.name };
  scheduling_interval = interval;
}

module _ (C : Client) where
  -- `r.client.Status().Update(r.ctx, r.vgr)`, which also refreshes the object in memory
  unfoldable pub update_vgr_status : Exec (Session C.World) (Unit {0})
  update_vgr_status = do
    vgr ← the_vgr
    stored ← on_world (C.update_vgr_status vgr)
    modify_vgr (λ _. stored)
