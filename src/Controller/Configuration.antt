-- ===== src/Controller/Configuration.antt =====
-- internal/controller: getConfiguration of the primary and of the secondary reconciler, and
-- getPVCConfiguration, which read the parameters of the class and the claim's own settings.
pub mod Intervals
use mock_storage_operator.Prelude.{not, ◌&&◌, String, ◌==◌, Option, none, some, List, if◌then◌else◌}
use mock_storage_operator.Prelude.Dict
use mock_storage_operator.Prelude.Dict.{Dict}
use mock_storage_operator.Objects.{Quantity, Pvc}

-- `value := fallback; if v := parameters[key]; v != "" { value = v }`
unfoldable pub parameter : String → String → Dict → String
parameter key fallback parameters =
    if Dict.index key parameters == "" then fallback else Dict.index key parameters

-- PrimaryConfig
pub record PrimaryConfig : Type 0 where
  pub scheduling_interval : String
  pub storage_class_name : String
  pub psk_secret_name : String
  pub volume_snapshot_class_name : Option String

-- PrimaryReconciler.getConfiguration, on the class's parameters
unfoldable pub primary_configuration : Dict → PrimaryConfig
unfolding parameter
primary_configuration parameters = record {
  scheduling_interval =
      if not (Dict.index "schedulingInterval" parameters == "")
        && not (Dict.index "schedulingInterval" parameters == "0m")
      then Dict.index "schedulingInterval" parameters
      else "5m";
  storage_class_name = parameter "storageClassName" "standard" parameters;
  psk_secret_name = parameter "pskSecretName" "volsync-rsync-tls-secret" parameters;
  volume_snapshot_class_name =
      if Dict.index "volumeSnapshotClassName" parameters == ""
      then none
      else some (Dict.index "volumeSnapshotClassName" parameters);
}

-- SecondaryConfig
pub record SecondaryConfig : Type 0 where
  pub scheduling_interval : String
  pub storage_class_name : String
  pub capacity : String
  pub psk_secret_name : String
  pub service_type : String

-- `if interval == "0m" { interval = "5m" }`
unfoldable pub not_zero_minutes : String → String
not_zero_minutes interval = if interval == "0m" then "5m" else interval

-- SecondaryReconciler.getConfiguration, on the class's parameters
unfoldable pub secondary_configuration : Dict → SecondaryConfig
unfolding parameter not_zero_minutes
secondary_configuration parameters = record {
  scheduling_interval = not_zero_minutes (
      if not (Dict.index "schedulingInterval" parameters == "")
      then Dict.index "schedulingInterval" parameters
      else parameter "schedule" "5m" parameters);
  storage_class_name = parameter "storageClassName" "standard" parameters;
  capacity = parameter "capacity" "1Gi" parameters;
  psk_secret_name = parameter "pskSecretName" "volsync-rsync-tls-secret" parameters;
  service_type = "ClusterIP";
}

-- PVCConfig
pub record PvcConfig : Type 0 where
  pub scheduling_interval : String
  pub consistency_group : String
  pub capacity : Quantity
  pub storage_class_name : String
  pub access_modes : List String
  pub psk_secret_name : String
  pub service_type : String

-- the zero `resource.Quantity`, where the claim requests no storage
abbrev pub quantity_or_zero : Option Quantity → Quantity
quantity_or_zero none = "0"
quantity_or_zero (some quantity) = quantity

abbrev pub text_or_empty : Option String → String
text_or_empty none = ""
text_or_empty (some text) = text

-- getPVCConfiguration
unfoldable pub pvc_configuration : Pvc → SecondaryConfig → PvcConfig
unfolding parameter
pvc_configuration pvc config = record {
  scheduling_interval =
      parameter "replication.storage.openshift.io/scheduling-interval" config.scheduling_interval
        pvc.annotations;
  consistency_group = Dict.index "ramendr.openshift.io/consistency-group" pvc.labels;
  capacity = quantity_or_zero (Dict.lookup "storage" pvc.spec.requests);
  storage_class_name = text_or_empty pvc.spec.storage_class_name;
  access_modes = pvc.spec.access_modes;
  psk_secret_name = config.psk_secret_name;
  service_type = config.service_type;
}
