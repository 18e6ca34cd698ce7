-- ===== src/Client/Footprint.antt =====
-- Which calls of the API server an operation makes. An invariant of the cluster that every read
-- keeps, and every write of a given kind, is kept by an operation that makes no other write; this
-- needs no law of the server, so it holds whatever other controllers do, and on errors too.
use mock_storage_operator.Prelude.{String}
use mock_storage_operator.Exec.{Outcome}
use mock_storage_operator.Exec.Preserves.{Preserves}
use mock_storage_operator.Objects.{Key, Pvc, Pv, Rs, Rd, ServiceExport, ListOptions}
use mock_storage_operator.Client.{Client}

module _ (C : Client) (P : C.World → Type 0) where
  pub record Reads : Type 0 where
    pub get_pvc : (k : Key) → Preserves P (C.get_pvc k)
    pub list_pvcs : (o : ListOptions) → Preserves P (C.list_pvcs o)
    pub get_pv : (name : String) → Preserves P (C.get_pv name)
    pub get_rs : (k : Key) → Preserves P (C.get_rs k)
    pub list_rss : (o : ListOptions) → Preserves P (C.list_rss o)
    pub get_rd : (k : Key) → Preserves P (C.get_rd k)
    pub list_rds : (o : ListOptions) → Preserves P (C.list_rds o)
    pub get_secret : (k : Key) → Preserves P (C.get_secret k)
    pub list_pods : (o : ListOptions) → Preserves P (C.list_pods o)
    pub get_vgr : (k : Key) → Preserves P (C.get_vgr k)
    pub list_vgrs : (o : ListOptions) → Preserves P (C.list_vgrs o)
    pub get_vgr_class : (name : String) → Preserves P (C.get_vgr_class name)
    pub get_vrg : (k : Key) → Preserves P (C.get_vrg k)
    pub list_vrgs : (o : ListOptions) → Preserves P (C.list_vrgs o)
    pub now : Preserves P C.now

  -- the writes that provide the source of a claim, with the update of the claim's metadata
  pub record SourceWrites : Type 0 where
    pub update_pvc : (p : Pvc) → Preserves P (C.update_pvc p)
    pub delete_rd : (k : Key) → Preserves P (C.delete_rd k)
    pub create_or_update_rs :
        (rs : Rs) (f : Rs → Outcome Rs) → Preserves P (C.create_or_update_rs rs f)

  -- the writes that pause sources
  pub record PauseWrites : Type 0 where
    pub update_rs : (rs : Rs) → Preserves P (C.update_rs rs)
    pub delete_job : (k : Key) → Preserves P (C.delete_job k)
    pub delete_pod : (k : Key) → Preserves P (C.delete_pod k)

  -- the writes that provide the destination of a claim
  pub record DestinationWrites : Type 0 where
    pub delete_rs : (k : Key) → Preserves P (C.delete_rs k)
    pub create_or_update_rd :
        (rd : Rd) (f : Rd → Outcome Rd) → Preserves P (C.create_or_update_rd rd f)
    pub create_or_update_export :
        (e : ServiceExport) (f : ServiceExport → Outcome ServiceExport)
        → Preserves P (C.create_or_update_export e f)

  -- the writes that move a volume between a claim and its temporary one
  pub record VolumeWrites : Type 0 where
    pub create_pvc : (p : Pvc) → Preserves P (C.create_pvc p)
    pub update_pv : (pv : Pv) → Preserves P (C.update_pv pv)

  -- the writes of a deletion
  pub record CleanupWrites : Type 0 where
    pub delete_rs : (k : Key) → Preserves P (C.delete_rs k)
    pub delete_rd : (k : Key) → Preserves P (C.delete_rd k)
