-- ===== src/Tests/Destinations.antt =====
-- The theorem on the calls of the secondary reconciler, applied to a cluster in memory that has no
-- source.
use mock_storage_operator.Prelude.{
  ◌≡◌, refl, sym, ◌∙◌, Bool, true, false, Option, none, some, [], not_some,
}
use mock_storage_operator.Exec.{Exec, Outcome, ok, err, panic}
use mock_storage_operator.Exec.Preserves.{Preserves}
use mock_storage_operator.Objects.{Key, key_of, Pvc, Pv, Rs, Rd, VgrClass}
use mock_storage_operator.Client.Footprint.{Reads, PauseWrites, VolumeWrites, DestinationWrites}
use mock_storage_operator.Client.Laws.{key_eq}
use mock_storage_operator.Volsync.Destination.{fresh_meta}
use mock_storage_operator.Controller.Session.Footprint.{OnWorld}
use mock_storage_operator.Controller.Secondary.{reconcile}
use mock_storage_operator.Controller.Secondary.Footprint.{secondary_reconcile-Preserves}
use mock_storage_operator.Tests.Memory.{
  Memory, memory, create_pvc_at, update_pvc_at, delete_pvc_at, update_pv_at, delete_rs_at,
  store_rd_at, upsert_rd_at, or_given,
}

abbrev NoSource : Memory → Type 0
NoSource w = (k : Key) → w.cluster.rs k ≡ none

kept :
    {A : Type 0} (m : Exec Memory A)
    → ((w : Memory) → NoSource w → NoSource (m w).1)
    → Preserves NoSource m
kept m h = record { after = h }

create_kept :
    (p : Pvc) (w : Memory) (o : Option Pvc) → NoSource w → NoSource (create_pvc_at p w o).1
create_kept p w none h = h
create_kept p w (some q) h = h

update_kept :
    (p : Pvc) (w : Memory) (o : Option Pvc) → NoSource w → NoSource (update_pvc_at p w o).1
update_kept p w none h = h
update_kept p w (some q) h = h

delete_kept :
    (k : Key) (w : Memory) (o : Option Pvc) → NoSource w → NoSource (delete_pvc_at k w o).1
delete_kept k w none h = h
delete_kept k w (some q) h = h

update_pv_kept :
    (v : Pv) (w : Memory) (o : Option Pv) → NoSource w → NoSource (update_pv_at v w o).1
update_pv_kept v w none h = h
update_pv_kept v w (some u) h = h

delete_rs_kept :
    (k : Key) (w : Memory) (o : Option Rs)
    → w.cluster.rs k ≡ o
    → NoSource w
    → NoSource (delete_rs_at k w o).1
delete_rs_kept k w none stored h = h
delete_rs_kept k w (some q) stored h = absurd (not_some (sym (h k) ∙ stored))

store_kept :
    (k : Key) (w : Memory) (r : Rd) (b : Bool) (e : key_eq (key_of r.meta) k ≡ b)
    → NoSource w
    → NoSource (store_rd_at k w r b e).1
store_kept k w r true e h = h
store_kept k w r false e h = h

upsert_kept : (k : Key) (w : Memory) (o : Outcome Rd) → NoSource w → NoSource (upsert_rd_at k w o).1
upsert_kept k w (ok r) h = store_kept k w r _ refl h
upsert_kept k w (err e) h = h
upsert_kept k w panic h = h

reads : Reads memory NoSource
reads = record {
  get_pvc = λ k. kept _ (λ w h. h);
  list_pvcs = λ o. kept _ (λ w h. h);
  get_pv = λ n. kept _ (λ w h. h);
  get_rs = λ k. kept _ (λ w h. h);
  list_rss = λ o. kept _ (λ w h. h);
  get_rd = λ k. kept _ (λ w h. h);
  list_rds = λ o. kept _ (λ w h. h);
  get_secret = λ k. kept _ (λ w h. h);
  list_pods = λ o. kept _ (λ w h. h);
  get_vgr = λ k. kept _ (λ w h. h);
  list_vgrs = λ o. kept _ (λ w h. h);
  get_vgr_class = λ n. kept _ (λ w h. h);
  get_vrg = λ k. kept _ (λ w h. h);
  list_vrgs = λ o. kept _ (λ w h. h);
  now = kept _ (λ w h. h);
}

volume_writes : VolumeWrites memory NoSource
volume_writes = record {
  create_pvc = λ p. kept _ (λ w h. create_kept p w _ h);
  update_pv = λ v. kept _ (λ w h. update_pv_kept v w _ h);
}

destination_writes : DestinationWrites memory NoSource
destination_writes = record {
  delete_rs = λ k. kept _ (λ w h. delete_rs_kept k w _ refl h);
  create_or_update_rd = λ rd f.
      kept _
        (λ w h. upsert_kept (key_of rd.meta) w (f (or_given rd (w.cluster.rd (key_of rd.meta)))) h);
  create_or_update_export = λ e f. kept _ (λ w h. h);
}

pause_writes : PauseWrites memory NoSource
pause_writes = record {
  update_rs = λ rs. kept _ (λ w h. h);
  delete_job = λ k. kept _ (λ w h. h);
  delete_pod = λ k. kept _ (λ w h. h);
}

abbrev class : VgrClass
class = record { meta = fresh_meta "" "class"; provisioner = "mock"; parameters = [] }

secondary_reconcile-Preserves_example : Preserves (OnWorld NoSource) (reconcile memory class)
secondary_reconcile-Preserves_example =
    secondary_reconcile-Preserves memory reads (λ p. kept _ (λ w h. update_kept p w _ h))
      (λ k. kept _ (λ w h. delete_kept k w _ h)) volume_writes destination_writes pause_writes
      (λ vgr. kept _ (λ w h. h)) class
