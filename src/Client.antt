-- ===== src/Client.antt =====
-- What the operator calls and does not implement: controller-runtime's `client.Client` on a cluster
-- in an unknown state, `controllerutil`, label selectors and the clock. Every call may change the
-- state, since other controllers run meanwhile, and may fail.
pub mod Footprint
pub mod Laws
pub mod Settling
pub mod Listing
use mock_storage_operator.Prelude.{ℕ, Bool, String, List}
use mock_storage_operator.Exec.{Exec, Outcome}
use mock_storage_operator.Objects.{
  Key, Pvc, Pv, Rs, Rd, ServiceExport, Pod, Requirement, LabelSelector, ListOptions, Vrg, Vgr,
  VgrClass,
}

pub record Client : Type 1 where
  pub World : Type 0
  -- reads
  pub get_pvc : Key → Exec World Pvc
  pub list_pvcs : ListOptions → Exec World (List Pvc)
  pub get_pv : String → Exec World Pv
  pub get_rs : Key → Exec World Rs
  pub list_rss : ListOptions → Exec World (List Rs)
  pub get_rd : Key → Exec World Rd
  pub list_rds : ListOptions → Exec World (List Rd)
  pub get_secret : Key → Exec World (Unit {0})
  pub list_pods : ListOptions → Exec World (List Pod)
  pub get_vgr : Key → Exec World Vgr
  pub list_vgrs : ListOptions → Exec World (List Vgr)
  pub get_vgr_class : String → Exec World VgrClass
  pub get_vrg : Key → Exec World Vrg
  pub list_vrgs : ListOptions → Exec World (List Vrg)
  pub now : Exec World ℕ
  -- writes; an update returns the object as the server stored it
  pub create_pvc : Pvc → Exec World Pvc
  pub update_pvc : Pvc → Exec World Pvc
  pub delete_pvc : Key → Exec World (Unit {0})
  pub update_pv : Pv → Exec World Pv
  pub update_rs : Rs → Exec World Rs
  pub delete_rs : Key → Exec World (Unit {0})
  pub delete_rd : Key → Exec World (Unit {0})
  pub delete_job : Key → Exec World (Unit {0})
  pub delete_pod : Key → Exec World (Unit {0})
  pub update_vgr : Vgr → Exec World Vgr
  pub update_vgr_status : Vgr → Exec World Vgr
  -- `ctrlutil.CreateOrUpdate` on an object and a mutate function
  pub create_or_update_rs : Rs → (Rs → Outcome Rs) → Exec World Rs
  pub create_or_update_rd : Rd → (Rd → Outcome Rd) → Exec World Rd
  pub create_or_update_export :
      ServiceExport → (ServiceExport → Outcome ServiceExport) → Exec World ServiceExport
  -- `ctrlutil.ContainsFinalizer`, `AddFinalizer`, `RemoveFinalizer`, on the list of finalizers
  pub contains_finalizer : List String → String → Bool
  pub add_finalizer : List String → String → List String
  pub remove_finalizer : List String → String → List String
  -- `ctrlutil.SetOwnerReference(rd, export, scheme)`
  pub set_owner_reference : Rd → ServiceExport → Outcome ServiceExport
  -- `metav1.LabelSelectorAsSelector` with `Requirements()`, and `labels.NewRequirement` for `=`
  pub label_selector_as_selector : LabelSelector → Outcome (List Requirement)
  pub new_requirement : String → String → Outcome Requirement
