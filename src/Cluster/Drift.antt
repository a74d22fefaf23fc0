-- ===== src/Cluster/Drift.antt =====
-- cluster.go: what isUpToDate compares, and when a request of the provider is shown as up to date.
use mathlib.Core.Bool.{not-not}
use provider_stackrox.Base.GoMap.{SameMap}
use provider_stackrox.Base.{
  not, String, ◌≡◌, ◌≢◌, ◌↔◌, refl, sym, ◌∙◌, ap, pos, true, none, arith, eq_iff, get_or,
}
use provider_stackrox.Deps.{Deps}
use provider_stackrox.Deps.Storage.{EnumMaps, IsEnum}
use provider_stackrox.Api.Parameters.{
  ClusterParameters, SameParameters, IsCmp, IsCollectionMethod, IsClusterType,
}
use provider_stackrox.Api.Cluster.{Cluster}
use provider_stackrox.Cluster.Convert.{enum_name, enum_value, observed_parameters, is_up_to_date}
use provider_stackrox.Cluster.Roundtrip.{Known}

pub SameParameters-refl : (p : ClusterParameters) → SameParameters p p
SameParameters-refl p = record {
  admission_controller = refl;
  admission_controller_events = refl;
  admission_controller_updates = refl;
  central_api_endpoint = refl;
  collection_method = refl;
  collector_image = refl;
  labels = λ key. refl;
  main_image = refl;
  name = refl;
  slim_collector = refl;
  tolerations = refl;
  type = refl;
}

-- The parameters hold values that the markers of the two enumerations admit.
pub record IsAdmitted (p : ClusterParameters) : Type 0 where
  pub collection_method : IsCollectionMethod p.collection_method
  pub type : IsClusterType p.type

-- Central's API declares the constants that the markers name.
pub record DeclaresNames (D : Deps) : Type 0 where
  pub collection_methods : (s : String) → IsCollectionMethod s → Known D.collection_methods s
  pub cluster_types : (s : String) → IsClusterType s → Known D.cluster_types s

-- An unknown name becomes zero, which reads back as another name.
pub enum_name-unknown :
    (m : EnumMaps) → IsEnum m → (s : String) → m.value s ≡ none → enum_name m (enum_value m s) ≢ s
enum_name-unknown m law s e h =
    cc (law.value-name law.zero_name (pos 0) law.name_zero, ap m.value (zero_reads ∙ h), e)
  where
    zero_reads : law.zero_name ≡ enum_name m (enum_value m s)
    zero_reads = rw (e, get_or) (rw law.name_zero)

module _ (D : Deps) where
  -- A cluster of Central shows the parameters, field by field.
  pub record Shows (p : ClusterParameters) (c : D.StorageCluster) : Type 0 where
    pub admission_controller : D.get_admission_controller c ≡ p.admission_controller
    pub admission_controller_events :
        D.get_admission_controller_events c ≡ p.admission_controller_events
    pub admission_controller_updates :
        D.get_admission_controller_updates c ≡ p.admission_controller_updates
    pub central_api_endpoint : D.get_central_api_endpoint c ≡ p.central_api_endpoint
    pub collection_method :
        get_or (D.collection_methods.name (D.get_collection_method c)) "" ≡ p.collection_method
    pub collector_image : D.get_collector_image c ≡ p.collector_image
    pub labels : SameMap (D.get_labels c) p.labels
    pub main_image : D.get_main_image c ≡ p.main_image
    pub name : D.get_name c ≡ p.name
    pub slim_collector : D.get_slim_collector c ≡ p.slim_collector
    pub tolerations : D.get_disabled (D.get_tolerations_config c) ≡ not p.tolerations
    pub type : get_or (D.cluster_types.name (D.get_cluster_type c)) "" ≡ p.type

  pub Shows-SameParameters :
      (p : ClusterParameters) (c : D.StorageCluster)
      → Shows p c
      → SameParameters p (observed_parameters D c)
  unfolding observed_parameters
  Shows-SameParameters p c h = record {
    admission_controller = sym h.admission_controller;
    admission_controller_events = sym h.admission_controller_events;
    admission_controller_updates = sym h.admission_controller_updates;
    central_api_endpoint = sym h.central_api_endpoint;
    collection_method = sym h.collection_method;
    collector_image = sym h.collector_image;
    labels = λ key. sym (h.labels key);
    main_image = sym h.main_image;
    name = sym h.name;
    slim_collector = sym h.slim_collector;
    tolerations = sym (ap not h.tolerations ∙ not-not p.tolerations);
    type = sym h.type;
  }

  SameParameters-Shows :
      (p : ClusterParameters) (c : D.StorageCluster)
      → SameParameters p (observed_parameters D c)
      → Shows p c
  unfolding observed_parameters
  SameParameters-Shows p c h = record {
    admission_controller = sym h.admission_controller;
    admission_controller_events = sym h.admission_controller_events;
    admission_controller_updates = sym h.admission_controller_updates;
    central_api_endpoint = sym h.central_api_endpoint;
    collection_method = sym h.collection_method;
    collector_image = sym h.collector_image;
    labels = λ key. sym (h.labels key);
    main_image = sym h.main_image;
    name = sym h.name;
    slim_collector = sym h.slim_collector;
    tolerations =
        sym (ap not h.tolerations ∙ not-not (D.get_disabled (D.get_tolerations_config c)));
    type = sym h.type;
  }

  pub Shows-observed_parameters :
      (p : ClusterParameters) (c : D.StorageCluster) → observed_parameters D c ≡ p → Shows p c
  Shows-observed_parameters p c e = SameParameters-Shows p c (rw e (SameParameters-refl p))

module _ (D : Deps) (C : IsCmp D.cmp) where
  no_drift :
      (cr : Cluster D) (c : D.StorageCluster)
      → ((is_up_to_date D cr c).0 ≡ true)
        ↔ SameParameters cr.spec.for_provider (observed_parameters D c)
  unfolding is_up_to_date
  no_drift cr c = ground (
    arith,
    eq_iff (D.diff_clusters cr.spec.for_provider (observed_parameters D c)) "",
    C.diff_clusters_empty cr.spec.for_provider (observed_parameters D c),
  )

  -- isUpToDate reports no drift exactly if each of the twelve parameters is what Central's cluster
  -- has in the field of that name: the enumerations by the names of the numbers that it has (the
  -- empty name if there is none), the labels key by key, so that nil and empty labels count as one,
  -- and the tolerations as the negation of the field Disabled.
  pub is_up_to_date_iff :
      (cr : Cluster D) (c : D.StorageCluster)
      → ((is_up_to_date D cr c).0 ≡ true) ↔ Shows D cr.spec.for_provider c
  is_up_to_date_iff cr c = (
    λ e. SameParameters-Shows D cr.spec.for_provider c ((no_drift cr c).0 e),
    λ h. (no_drift cr c).1 (Shows-SameParameters D cr.spec.for_provider c h),
  )

  pub is_up_to_date_same :
      (cr : Cluster D) (c : D.StorageCluster)
      → SameParameters cr.spec.for_provider (observed_parameters D c)
      → is_up_to_date D cr c ≡ (true, "")
  unfolding is_up_to_date
  is_up_to_date_same cr c h = ground (
    arith,
    eq_iff (D.diff_clusters cr.spec.for_provider (observed_parameters D c)) "",
    C.diff_clusters_empty cr.spec.for_provider (observed_parameters D c),
  )
