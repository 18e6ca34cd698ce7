-- ===== src/Client/Settling.antt =====
-- What a call of the API server leaves in a lawful cluster however it ends: a read leaves it alone,
-- and a write is done or not done, whatever error it reports. Nothing is said of which it is.
use mock_storage_operator.Prelude.{ℕ, ◌≡◌, ◌⊎◌, String, some}
use mock_storage_operator.Objects.{Key, key_of, Pvc, Pv}
use mock_storage_operator.Client.{Client}
use mock_storage_operator.Client.Laws.{IsLawful, put, put_name, after_update, deleted_pvc}

pub record IsSettling (C : Client) (L : IsLawful C) : Type 0 where
  pub get_pvc : (k : Key) (w : C.World) → L.view (C.get_pvc k w).1 ≡ L.view w
  pub get_pv : (n : String) (w : C.World) → L.view (C.get_pv n w).1 ≡ L.view w
  pub create_pvc :
      (p : Pvc) (w : C.World)
      → (L.view (C.create_pvc p w).1 ≡ L.view w)
        ⊎ (L.view (C.create_pvc p w).1
            ≡ record (L.view w) { pvc = put (key_of p.meta) (some (L.admitted p)) (L.view w).pvc })
  pub update_pvc :
      (p : Pvc) (w : C.World)
      → (L.view (C.update_pvc p w).1 ≡ L.view w)
        ⊎ (L.view (C.update_pvc p w).1
            ≡ record (L.view w) { pvc = put (key_of p.meta) (after_update p) (L.view w).pvc })
  pub delete_pvc :
      (k : Key) (w : C.World)
      → (L.view (C.delete_pvc k w).1 ≡ L.view w)
        ⊎ ((t : ℕ) × (L.view (C.delete_pvc k w).1 ≡ record (L.view w) {
          pvc = put k (deleted_pvc t ((L.view w).pvc k)) (L.view w).pvc;
        }))
  pub update_pv :
      (v : Pv) (w : C.World)
      → (L.view (C.update_pv v w).1 ≡ L.view w)
        ⊎ (L.view (C.update_pv v w).1
            ≡ record (L.view w) { pv = put_name v.name (some v) (L.view w).pv })
