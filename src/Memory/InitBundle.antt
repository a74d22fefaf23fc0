-- ===== src/Memory/InitBundle.antt =====
-- apis/initbundle/v1alpha1/initbundle_types.go, the structs in memory: a map or a slice is an
-- address, or nil.
use provider_stackrox.Base.{String, Option}
use provider_stackrox.Memory.Heap.{Addr}
use provider_stackrox.Memory.Foreign.{MemTypes}

pub record ImpactedCluster : Type 0 where
  pub id : String
  pub name : String

pub record User : Type 0 where
  pub attributes : Option Addr
  pub auth_provider_id : String
  pub id : String

pub record InitBundleParameters : Type 0 where
  pub name : String

pub record InitBundleObservation (T : MemTypes) : Type 0 where
  pub created_at : T.Time
  pub created_by : User
  pub expires_at : T.Time
  pub id : String
  pub impacted_clusters : Option Addr
  pub name : String

pub record InitBundleSpec (T : MemTypes) : Type 0 where
  pub resource_spec : T.ResourceSpec
  pub for_provider : InitBundleParameters

pub record InitBundleStatus (T : MemTypes) : Type 0 where
  pub resource_status : T.ResourceStatus
  pub at_provider : InitBundleObservation T

pub record InitBundle (T : MemTypes) : Type 0 where
  pub type_meta : T.TypeMeta
  pub object_meta : T.ObjectMeta
  pub spec : InitBundleSpec T
  pub status : InitBundleStatus T

pub record InitBundleList (T : MemTypes) : Type 0 where
  pub type_meta : T.TypeMeta
  pub list_meta : T.ListMeta
  pub items : Option Addr
