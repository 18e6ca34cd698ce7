-- ===== src/Objects.antt =====
-- The objects of the API server, with the fields that internal/controller and internal/volsync read
-- or write. Their Go types come from other repositories (k8s.io/api, VolSync, csi-addons, Ramen);
-- only the shape is taken, one Boolean or text for each field, and a pointer is an `Option`.
use mock_storage_operator.Prelude.{ℕ, Bool, String, Option, List}
use mock_storage_operator.Prelude.Dict.{Dict}

-- `types.NamespacedName`; a cluster-scoped object has the empty namespace
pub record Key : Type 0 where
  pub namespace : String
  pub name : String

-- `metav1.ObjectMeta`. A time is its nanoseconds, and 0 is Go's zero time.
pub record ObjectMeta : Type 0 where
  pub name : String
  pub namespace : String
  pub labels : Dict
  pub annotations : Dict
  pub finalizers : List String
  pub deletion_timestamp : Option ℕ

abbrev pub key_of : ObjectMeta → Key
key_of m = record { namespace = m.namespace; name = m.name }

-- `resource.Quantity`, by the text that it prints
abbrev pub Quantity : Type 0
Quantity = String

pub data PvcPhase : Type 0 where
  claim_pending claim_bound claim_lost : PvcPhase

pub data Operator : Type 0 where
  equals not_equals is_in not_in exists does_not_exist : Operator

-- `labels.Requirement`
pub record Requirement : Type 0 where
  pub label : String
  pub operator : Operator
  pub values : List String

-- `metav1.LabelSelector`
pub record LabelSelector : Type 0 where
  pub match_labels : Dict
  pub match_expressions : List Requirement

-- `corev1.TypedObjectReference`, and `corev1.TypedLocalObjectReference` with no namespace
pub record TypedReference : Type 0 where
  pub api_group : Option String
  pub kind : String
  pub name : String
  pub namespace : Option String

-- `corev1.PersistentVolumeClaimSpec`
pub record PvcSpec : Type 0 where
  pub access_modes : List String
  pub requests : Dict
  pub limits : Dict
  pub storage_class_name : Option String
  pub volume_mode : Option String
  pub volume_name : String
  pub selector : Option LabelSelector
  pub data_source : Option TypedReference
  pub data_source_ref : Option TypedReference
  pub volume_attributes_class_name : Option String

pub record Pvc : Type 0 where
  pub meta : ObjectMeta
  pub open meta use *
  pub spec : PvcSpec
  pub phase : PvcPhase

-- `corev1.ObjectReference`
pub record ObjectReference : Type 0 where
  pub kind : String
  pub namespace : String
  pub name : String
  pub api_version : String
  pub uid : String
  pub resource_version : String

pub data ReclaimPolicy : Type 0 where
  reclaim_retain reclaim_delete reclaim_recycle : ReclaimPolicy

pub record Pv : Type 0 where
  pub name : String
  pub reclaim_policy : ReclaimPolicy
  pub claim_ref : Option ObjectReference

pub record RsTrigger : Type 0 where
  pub schedule : Option String
  pub manual : String

pub record RsRsyncTls : Type 0 where
  pub key_secret : Option String
  pub address : Option String
  pub copy_method : String
  pub storage_class_name : Option String
  pub access_modes : List String

pub record RsSpec : Type 0 where
  pub source_pvc : String
  pub paused : Bool
  pub trigger : Option RsTrigger
  pub rsync_tls : Option RsRsyncTls

pub record RsStatus : Type 0 where
  pub last_manual_sync : String
  pub last_sync_time : Option ℕ

-- `volsyncv1alpha1.ReplicationSource`
pub record Rs : Type 0 where
  pub meta : ObjectMeta
  pub open meta use *
  pub spec : RsSpec
  pub status : Option RsStatus

pub record RdRsyncTls : Type 0 where
  pub service_type : Option String
  pub key_secret : Option String
  pub copy_method : String
  pub capacity : Option Quantity
  pub storage_class_name : Option String
  pub access_modes : List String
  pub destination_pvc : Option String

pub record RdRsyncTlsStatus : Type 0 where
  pub address : Option String
  pub key_secret : Option String

pub record RdStatus : Type 0 where
  pub rsync_tls : Option RdRsyncTlsStatus

-- `volsyncv1alpha1.ReplicationDestination`; its spec is the rsync-tls mover's
pub record Rd : Type 0 where
  pub meta : ObjectMeta
  pub open meta use *
  pub rsync_tls : Option RdRsyncTls
  pub status : Option RdStatus

-- Submariner's ServiceExport, an unstructured object; the owners are keys of destinations
pub record ServiceExport : Type 0 where
  pub meta : ObjectMeta
  pub open meta use *
  pub owners : List Key

-- A volume names the claim that it mounts, if it mounts one.
pub record Pod : Type 0 where
  pub meta : ObjectMeta
  pub open meta use *
  pub volumes : List (Option String)

-- `client.InNamespace`, `client.MatchingLabels` and `client.MatchingLabelsSelector`
pub record ListOptions : Type 0 where
  pub in_namespace : Option String
  pub matching_labels : Dict
  pub selector : List Requirement

pub data ReplicationState : Type 0 where
  primary secondary : ReplicationState
  other_replication : String → ReplicationState

pub data State : Type 0 where
  primary_state secondary_state unknown_state : State

pub data VrgAction : Type 0 where
  failover relocate : VrgAction
  other_action : String → VrgAction

-- Ramen's `VolumeReplicationGroup`
pub record Vrg : Type 0 where
  pub meta : ObjectMeta
  pub open meta use *
  pub action : VrgAction
  pub replication_state : ReplicationState
  pub state : State

-- `metav1.Condition`
pub record Condition : Type 0 where
  pub cond_type : String
  pub status : Bool
  pub reason : String
  pub message : String
  pub last_transition_time : ℕ
  pub observed_generation : ℕ

pub record VgrStatus : Type 0 where
  pub state : State
  pub conditions : List Condition
  pub pvc_refs : List String
  pub last_sync_time : Option ℕ
  pub observed_generation : ℕ

-- `volrep.VolumeGroupReplication`
pub record Vgr : Type 0 where
  pub meta : ObjectMeta
  pub open meta use *
  pub generation : ℕ
  pub class_name : String
  pub replication_state : ReplicationState
  pub selector : Option LabelSelector
  pub status : VgrStatus

-- `volrep.VolumeGroupReplicationClass`
pub record VgrClass : Type 0 where
  pub meta : ObjectMeta
  pub open meta use *
  pub provisioner : String
  pub parameters : Dict
