-- ===== src/Memory/Cluster.antt =====
-- apis/cluster/v1alpha1/cluster_types.go, the structs in memory: a map or a slice is an address, or nil.
use provider_stackrox.Base.{String, Bool, Option}
use provider_stackrox.Memory.Heap.{Addr}
use provider_stackrox.Memory.Foreign.{MemTypes}

pub record SensorDeployment : Type 0 where
  pub app_namespace : String
  pub app_namespace_id : String
  pub app_service_account_id : String
  pub default_namespace_id : String
  pub k8s_node_name : String
  pub system_namespace_id : String

pub record ClusterParameters : Type 0 where
  pub admission_controller : Bool
  pub admission_controller_events : Bool
  pub admission_controller_updates : Bool
  pub central_api_endpoint : String
  pub collection_method : String
  pub collector_image : String
  pub labels : Option Addr
  pub main_image : String
  pub name : String
  pub slim_collector : Bool
  pub tolerations : Bool
  pub type : String

pub record ClusterObservation : Type 0 where
  pub admission_controller : Bool
  pub admission_controller_events : Bool
  pub admission_controller_updates : Bool
  pub central_api_endpoint : String
  pub collection_method : String
  pub collector_image : String
  pub id : String
  pub init_bundle_id : String
  pub labels : Option Addr
  pub main_image : String
  pub managed_by : String
  pub most_recent_sensor : SensorDeployment
  pub name : String
  pub slim_collector : Bool
  pub tolerations : Bool
  pub type : String

pub record ClusterSpec (T : MemTypes) : Type 0 where
  pub resource_spec : T.ResourceSpec
  pub for_provider : ClusterParameters

pub record ClusterStatus (T : MemTypes) : Type 0 where
  pub resource_status : T.ResourceStatus
  pub at_provider : ClusterObservation

pub record Cluster (T : MemTypes) : Type 0 where
  pub type_meta : T.TypeMeta
  pub object_meta : T.ObjectMeta
  pub spec : ClusterSpec T
  pub status : ClusterStatus T

pub record ClusterList (T : MemTypes) : Type 0 where
  pub type_meta : T.TypeMeta
  pub list_meta : T.ListMeta
  pub items : Option Addr
