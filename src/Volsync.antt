-- ===== src/Volsync.antt =====
-- internal/volsync/handler.go: the handler of VolSync's objects for one owner, its constants, the
-- names that it gives to objects, and the owner's labels. Its operations are in the modules below.
pub mod Schedule
pub mod Claims
pub mod Temporary
pub mod Restore
pub mod Destination
pub mod Source
pub mod Cleanup
pub mod Secrets
pub mod Owners
pub mod Footprint
use mock_storage_operator.Prelude.{String, ◌<>◌, List, []}
use mock_storage_operator.Prelude.Dict
use mock_storage_operator.Prelude.Dict.{Dict}
use mock_storage_operator.Objects.{Key, ObjectMeta, Requirement, ListOptions}
use mock_storage_operator.Prelude.{◌∷◌, some, none}

-- VGROwnerLabel, VGROwnerNamespaceLabel, PVCFinalizerName, TemporaryPVCAnnotation
abbrev pub vgr_owner_label : String
vgr_owner_label = "volumegroupreplication-owner"

abbrev pub vgr_owner_namespace_label : String
vgr_owner_namespace_label = "volumegroupreplication-owner-namespace"

abbrev pub pvc_finalizer_name : String
pvc_finalizer_name = "mock.storage.io/pvc-protection"

abbrev pub temporary_pvc_annotation : String
temporary_pvc_annotation = "volumegroupreplication.ramendr.openshift.io/temporary-pvc"

-- VsHandler; of the owner only the name and the namespace are read
pub record VsHandler : Type 0 where
  pub owner : Key
  pub scheduling_interval : String

-- addVGROwnerLabel
unfoldable pub add_vgr_owner_label : Key → ObjectMeta → ObjectMeta
add_vgr_owner_label owner m = record m {
  labels =
      Dict.insert vgr_owner_namespace_label owner.namespace
        (Dict.insert vgr_owner_label owner.name m.labels);
}

-- getReplicationDestinationName
unfoldable pub get_replication_destination_name : String → String
get_replication_destination_name pvc_name = pvc_name

-- GetReplicationSourceName
unfoldable pub get_replication_source_name : String → String
get_replication_source_name pvc_name = pvc_name

-- getLocalServiceNameForRD
unfoldable pub get_local_service_name_for_rd : String → String
get_local_service_name_for_rd rd_name = "volsync-rsync-tls-dst-" <> rd_name

-- GetRemoteServiceNameForRDFromPVCName
unfoldable pub get_remote_service_name_for_rd_from_pvc_name : String → String → String
unfolding get_replication_destination_name get_local_service_name_for_rd
get_remote_service_name_for_rd_from_pvc_name pvc_name rd_namespace =
    get_local_service_name_for_rd (get_replication_destination_name pvc_name)
    <> ("." <> (rd_namespace <> ".svc.clusterset.local"))

-- the options of `listByOwner`, and those of the lists over every namespace
abbrev pub owned_in_namespace : VsHandler → ListOptions
owned_in_namespace v = record {
  in_namespace = some v.owner.namespace;
  matching_labels = (vgr_owner_label, v.owner.name) ∷ [];
  selector = [];
}

abbrev pub owned_anywhere : VsHandler → ListOptions
owned_anywhere v = record {
  in_namespace = none;
  matching_labels = (vgr_owner_label, v.owner.name) ∷ [];
  selector = [];
}
