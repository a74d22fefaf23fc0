-- ===== src/Cluster/Kept.antt =====
-- cluster.go: the request of generateCluster beside the cluster that Central makes of it.
use provider_stackrox.Base.{
  not, ℤ, String, ◌≡◌, ◌≢◌, refl, sym, ◌∙◌, ap, pos, Option-cases, arith, eq_iff, get_or, inl, inr,
}
use provider_stackrox.Base.GoMap.{SameMap, get}
use provider_stackrox.Deps.{Deps}
use provider_stackrox.Deps.Storage.{EnumMaps, IsEnum, IsStorage, ClusterView, view}
use provider_stackrox.Api.Parameters.{ClusterParameters, IsCollectionMethod, IsClusterType}
use provider_stackrox.Cluster.Convert.{enum_name, enum_value, assign_parameters}
use provider_stackrox.Cluster.Drift.{IsAdmitted, DeclaresNames, Shows}
use provider_stackrox.Cluster.Roundtrip.{enum_name-value, view-assign_parameters}

-- A cluster has what the request says in the twelve fields that a resource configures; nil and empty
-- labels count as one.
pub record Keeps (D : Deps) (req c : D.StorageCluster) : Type 0 where
  pub admission_controller : D.get_admission_controller c ≡ D.get_admission_controller req
  pub admission_controller_events :
      D.get_admission_controller_events c ≡ D.get_admission_controller_events req
  pub admission_controller_updates :
      D.get_admission_controller_updates c ≡ D.get_admission_controller_updates req
  pub central_api_endpoint : D.get_central_api_endpoint c ≡ D.get_central_api_endpoint req
  pub collection_method : D.get_collection_method c ≡ D.get_collection_method req
  pub collector_image : D.get_collector_image c ≡ D.get_collector_image req
  pub labels : SameMap (D.get_labels c) (D.get_labels req)
  pub main_image : D.get_main_image c ≡ D.get_main_image req
  pub name : D.get_name c ≡ D.get_name req
  pub slim_collector : D.get_slim_collector c ≡ D.get_slim_collector req
  pub tolerations :
      D.get_disabled (D.get_tolerations_config c) ≡ D.get_disabled (D.get_tolerations_config req)
  pub type : D.get_cluster_type c ≡ D.get_cluster_type req

-- The name of a number is a name other than the empty one, which is no constant.
enum_value_unique :
    (m : EnumMaps)
    → IsEnum m
    → (s : String) → s ≢ ""
    → (n : ℤ) → enum_name m n ≡ s
    → n ≡ enum_value m s
enum_value_unique m law s named n e = elim (Option-cases (m.name n)) [
  | inl h ↦ absurd (named (sym e ∙ rw (h, get_or) refl))
  | inr (t, h) ↦
      let t_is_s : t ≡ s = sym (rw (h, get_or) refl) ∙ e in
      sym (ap (λ o. get_or o (pos 0)) (ap m.value (sym t_is_s) ∙ law.value-name t n h))
]

method_named : (s : String) → IsCollectionMethod s → s ≢ ""
method_named s h = ground (
  arith,
  eq_iff "UNSET_COLLECTION" "",
  eq_iff "NO_COLLECTION" "",
  eq_iff "KERNEL_MODULE" "",
  eq_iff "EBPF" "",
)

type_named : (s : String) → IsClusterType s → s ≢ ""
type_named s h = ground (
  arith,
  eq_iff "GENERIC_CLUSTER" "",
  eq_iff "KUBERNETES_CLUSTER" "",
  eq_iff "OPENSHIFT_CLUSTER" "",
  eq_iff "OPENSHIFT4_CLUSTER" "",
)

module _ (D : Deps) (L : IsStorage D.storage) (N : DeclaresNames D) (p : ClusterParameters)
    (base c : D.StorageCluster) (a : IsAdmitted p) where
  pub Keeps-Shows : Keeps D (assign_parameters D p base) c → Shows D p c
  unfolding view
  Keeps-Shows h =
      let at = view-assign_parameters D L p base in
      record {
        admission_controller =
            h.admission_controller ∙ ap (λ (v : ClusterView D.storage). v.admission_controller) at;
        admission_controller_events =
            h.admission_controller_events
            ∙ ap (λ (v : ClusterView D.storage). v.admission_controller_events) at;
        admission_controller_updates =
            h.admission_controller_updates
            ∙ ap (λ (v : ClusterView D.storage). v.admission_controller_updates) at;
        central_api_endpoint =
            h.central_api_endpoint ∙ ap (λ (v : ClusterView D.storage). v.central_api_endpoint) at;
        collection_method =
            ap (enum_name D.collection_methods)
              (h.collection_method ∙ ap (λ (v : ClusterView D.storage). v.collection_method) at)
            ∙ enum_name-value D.collection_methods L.collection_methods-IsEnum p.collection_method
                (N.collection_methods p.collection_method a.collection_method);
        collector_image =
            h.collector_image ∙ ap (λ (v : ClusterView D.storage). v.collector_image) at;
        labels = λ key. h.labels key ∙ ap (λ (v : ClusterView D.storage). get v.labels key) at;
        main_image = h.main_image ∙ ap (λ (v : ClusterView D.storage). v.main_image) at;
        name = h.name ∙ ap (λ (v : ClusterView D.storage). v.name) at;
        slim_collector = h.slim_collector ∙ ap (λ (v : ClusterView D.storage). v.slim_collector) at;
        tolerations =
            h.tolerations
            ∙ ap (λ (v : ClusterView D.storage). D.get_disabled v.tolerations_config) at
            ∙ L.disabled-tolerations (not p.tolerations);
        type =
            ap (enum_name D.cluster_types)
              (h.type ∙ ap (λ (v : ClusterView D.storage). v.cluster_type) at)
            ∙ enum_name-value D.cluster_types L.cluster_types-IsEnum p.type
                (N.cluster_types p.type a.type);
      }

  pub Shows-Keeps : Shows D p c → Keeps D (assign_parameters D p base) c
  unfolding view
  Shows-Keeps h =
      let at = view-assign_parameters D L p base in
      record {
        admission_controller =
            h.admission_controller
            ∙ sym (ap (λ (v : ClusterView D.storage). v.admission_controller) at);
        admission_controller_events =
            h.admission_controller_events
            ∙ sym (ap (λ (v : ClusterView D.storage). v.admission_controller_events) at);
        admission_controller_updates =
            h.admission_controller_updates
            ∙ sym (ap (λ (v : ClusterView D.storage). v.admission_controller_updates) at);
        central_api_endpoint =
            h.central_api_endpoint
            ∙ sym (ap (λ (v : ClusterView D.storage). v.central_api_endpoint) at);
        collection_method =
            enum_value_unique D.collection_methods L.collection_methods-IsEnum p.collection_method
              (method_named p.collection_method a.collection_method) (D.get_collection_method c)
              h.collection_method
            ∙ sym (ap (λ (v : ClusterView D.storage). v.collection_method) at);
        collector_image =
            h.collector_image ∙ sym (ap (λ (v : ClusterView D.storage). v.collector_image) at);
        labels =
            λ key. h.labels key ∙ sym (ap (λ (v : ClusterView D.storage). get v.labels key) at);
        main_image = h.main_image ∙ sym (ap (λ (v : ClusterView D.storage). v.main_image) at);
        name = h.name ∙ sym (ap (λ (v : ClusterView D.storage). v.name) at);
        slim_collector =
            h.slim_collector ∙ sym (ap (λ (v : ClusterView D.storage). v.slim_collector) at);
        tolerations =
            h.tolerations
            ∙ sym (
                ap (λ (v : ClusterView D.storage). D.get_disabled v.tolerations_config) at
                ∙ L.disabled-tolerations (not p.tolerations));
        type =
            enum_value_unique D.cluster_types L.cluster_types-IsEnum p.type
              (type_named p.type a.type) (D.get_cluster_type c) h.type
            ∙ sym (ap (λ (v : ClusterView D.storage). v.cluster_type) at);
      }
