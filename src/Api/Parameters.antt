-- ===== src/Api/Parameters.antt =====
-- The configurable fields of the two kinds of resource: `ClusterParameters` of
-- apis/cluster/v1alpha1/cluster_types.go and `InitBundleParameters` of
-- apis/initbundle/v1alpha1/initbundle_types.go, with the comparison that go-cmp makes of them.
use provider_stackrox.Base.{String, ◌≡◌, ◌↔◌, Bool, ◌⊎◌}
use provider_stackrox.Base.GoMap.{GoMap, SameMap}

pub record ClusterParameters : Type 0 where
  pub admission_controller : Bool
  pub admission_controller_events : Bool
  pub admission_controller_updates : Bool
  pub central_api_endpoint : String
  pub collection_method : String
  pub collector_image : String
  pub labels : GoMap String
  pub main_image : String
  pub name : String
  pub slim_collector : Bool
  pub tolerations : Bool
  pub type : String

-- Equality of parameters when nil and empty maps count as one.
pub record SameParameters (p q : ClusterParameters) : Type 0 where
  pub admission_controller : p.admission_controller ≡ q.admission_controller
  pub admission_controller_events : p.admission_controller_events ≡ q.admission_controller_events
  pub admission_controller_updates : p.admission_controller_updates ≡ q.admission_controller_updates
  pub central_api_endpoint : p.central_api_endpoint ≡ q.central_api_endpoint
  pub collection_method : p.collection_method ≡ q.collection_method
  pub collector_image : p.collector_image ≡ q.collector_image
  pub labels : SameMap p.labels q.labels
  pub main_image : p.main_image ≡ q.main_image
  pub name : p.name ≡ q.name
  pub slim_collector : p.slim_collector ≡ q.slim_collector
  pub tolerations : p.tolerations ≡ q.tolerations
  pub type : p.type ≡ q.type

-- The values that the kubebuilder markers admit.
abbrev pub IsCollectionMethod : String → Type 0
IsCollectionMethod s =
    (s ≡ "UNSET_COLLECTION") ⊎ (s ≡ "NO_COLLECTION") ⊎ (s ≡ "KERNEL_MODULE") ⊎ (s ≡ "EBPF")

abbrev pub IsClusterType : String → Type 0
IsClusterType s =
    (s ≡ "GENERIC_CLUSTER")
    ⊎ (s ≡ "KUBERNETES_CLUSTER")
    ⊎ (s ≡ "OPENSHIFT_CLUSTER")
    ⊎ (s ≡ "OPENSHIFT4_CLUSTER")

pub record InitBundleParameters : Type 0 where
  pub name : String

-- github.com/google/go-cmp with cmpopts.EquateEmpty(): the texts of the differences.
pub record CmpLib : Type 0 where
  pub diff_clusters : ClusterParameters → ClusterParameters → String
  pub diff_bundles : InitBundleParameters → InitBundleParameters → String

-- `Diff` returns the empty text exactly if the values are equal.
pub record IsCmp (C : CmpLib) : Type 0 where
  pub diff_clusters_empty :
      (p q : ClusterParameters) → (C.diff_clusters p q ≡ "") ↔ SameParameters p q
  pub diff_bundles_empty : (p q : InitBundleParameters) → (C.diff_bundles p q ≡ "") ↔ (p ≡ q)
