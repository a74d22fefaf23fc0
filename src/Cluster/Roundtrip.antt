-- ===== src/Cluster/Roundtrip.antt =====
-- cluster.go: generateCluster against what isUpToDate and generateObservation read back.
use mathlib.Core.Bool.{not-not}
use provider_stackrox.Base.{String, Option, none, ap, ◌≡◌, refl, ◌∙◌, ℤ, not, some, get_or}
use provider_stackrox.Deps.{Deps}
use provider_stackrox.Deps.Storage.{EnumMaps, IsEnum, IsStorage, ClusterView, view}
use provider_stackrox.Api.Parameters.{ClusterParameters}
use provider_stackrox.Api.Cluster.{SensorDeployment, ClusterObservation}
use provider_stackrox.Cluster.Convert.{
  enum_name, enum_value, assign_parameters, generate_cluster, generate_sensor, generate_observation,
  observed_parameters,
}

-- The name is a constant of the enumeration.
abbrev pub Known : EnumMaps → String → Type 0
Known m s = (n : ℤ) × (m.value s ≡ some n)

pub enum_name-value :
    (m : EnumMaps) → IsEnum m → (s : String) → Known m s → enum_name m (enum_value m s) ≡ s
enum_name-value m law s (n, e) = rw (e, get_or) (rw (law.name-value s n e))

module _ (D : Deps) (L : IsStorage D.storage) where
  -- The view of the message after the twelve assignments.
  pub view-assign_parameters :
      (p : ClusterParameters) (base : D.StorageCluster)
      → view D.storage (assign_parameters D p base) ≡ record (view D.storage base) {
        admission_controller = p.admission_controller;
        admission_controller_events = p.admission_controller_events;
        admission_controller_updates = p.admission_controller_updates;
        central_api_endpoint = p.central_api_endpoint;
        collection_method = enum_value D.collection_methods p.collection_method;
        collector_image = p.collector_image;
        labels = p.labels;
        main_image = p.main_image;
        name = p.name;
        slim_collector = p.slim_collector;
        tolerations_config = some (D.tolerations_config_of (not p.tolerations));
        cluster_type = enum_value D.cluster_types p.type;
      }
  unfolding assign_parameters
  view-assign_parameters p base = simp (
    L.view-set_admission_controller, L.view-set_admission_controller_events,
    L.view-set_admission_controller_updates, L.view-set_central_api_endpoint,
    L.view-set_collection_method, L.view-set_collector_image, L.view-set_labels,
    L.view-set_main_image, L.view-set_name, L.view-set_slim_collector,
    L.view-set_tolerations_config, L.view-set_cluster_type,
  )

  -- What isUpToDate reads of a message, from its view.
  abbrev read_view : ClusterView D.storage → ClusterParameters
  read_view v = record {
    admission_controller = v.admission_controller;
    admission_controller_events = v.admission_controller_events;
    admission_controller_updates = v.admission_controller_updates;
    central_api_endpoint = v.central_api_endpoint;
    collection_method = enum_name D.collection_methods v.collection_method;
    collector_image = v.collector_image;
    labels = v.labels;
    main_image = v.main_image;
    name = v.name;
    slim_collector = v.slim_collector;
    tolerations = not (D.get_disabled v.tolerations_config);
    type = enum_name D.cluster_types v.cluster_type;
  }

  pub observed_parameters-view :
      (c : D.StorageCluster) → observed_parameters D c ≡ read_view (view D.storage c)
  unfolding observed_parameters view
  observed_parameters-view c = refl

  pub observed_parameters-assign_parameters :
      (p : ClusterParameters) (base : D.StorageCluster)
      → Known D.collection_methods p.collection_method
      → Known D.cluster_types p.type
      → observed_parameters D (assign_parameters D p base) ≡ p
  observed_parameters-assign_parameters p base km kt =
      observed_parameters-view (assign_parameters D p base)
      ∙ rw view-assign_parameters (
          rw (
            enum_name-value D.collection_methods L.collection_methods-IsEnum p.collection_method km,
            enum_name-value D.cluster_types L.cluster_types-IsEnum p.type kt,
            L.disabled-tolerations,
            not-not,
          ))

  -- The request is its base, or an empty cluster where there is none, with the twelve fields that
  -- the parameters configure; the identifier, the manager, the sensor and all fields that the
  -- provider never names are the base's.
  pub view-generate_cluster :
      (p : ClusterParameters) (base : Option D.StorageCluster)
      → view D.storage (generate_cluster D p base)
        ≡ record (view D.storage (get_or base D.empty_cluster)) {
          admission_controller = p.admission_controller;
          admission_controller_events = p.admission_controller_events;
          admission_controller_updates = p.admission_controller_updates;
          central_api_endpoint = p.central_api_endpoint;
          collection_method = enum_value D.collection_methods p.collection_method;
          collector_image = p.collector_image;
          labels = p.labels;
          main_image = p.main_image;
          name = p.name;
          slim_collector = p.slim_collector;
          tolerations_config = some (D.tolerations_config_of (not p.tolerations));
          cluster_type = enum_value D.cluster_types p.type;
        }
  unfolding generate_cluster
  view-generate_cluster p none = view-assign_parameters p D.empty_cluster
  view-generate_cluster p (some base) = view-assign_parameters p base

  -- A request that is made from an earlier request is the one that is made from the base of that:
  -- nothing of the earlier parameters is left in it.
  pub later_parameters_win :
      (p q : ClusterParameters) (base : D.StorageCluster)
      → view D.storage (generate_cluster D q (some (generate_cluster D p (some base))))
        ≡ view D.storage (generate_cluster D q (some base))
  later_parameters_win p q base = simp view-generate_cluster

  -- The observation that generateObservation makes of a message, from its view.
  abbrev observe_view : ClusterView D.storage → SensorDeployment → ClusterObservation
  observe_view v s = record {
    admission_controller = v.admission_controller;
    admission_controller_events = v.admission_controller_events;
    admission_controller_updates = v.admission_controller_updates;
    central_api_endpoint = v.central_api_endpoint;
    collection_method = enum_name D.collection_methods v.collection_method;
    collector_image = v.collector_image;
    id = v.id;
    init_bundle_id = "";
    labels = v.labels;
    main_image = v.main_image;
    managed_by = enum_name D.manager_types v.managed_by;
    most_recent_sensor = s;
    name = v.name;
    slim_collector = v.slim_collector;
    tolerations = not (D.get_disabled v.tolerations_config);
    type = enum_name D.cluster_types v.cluster_type;
  }

  generate_observation-view :
      (c : D.StorageCluster)
      → generate_observation D c ≡ observe_view (view D.storage c) (generate_sensor D c)
  unfolding generate_observation view
  generate_observation-view c = refl

  generate_sensor-assign_parameters :
      (p : ClusterParameters) (base : D.StorageCluster)
      → generate_sensor D (assign_parameters D p base) ≡ generate_sensor D base
  unfolding generate_sensor view
  generate_sensor-assign_parameters p base =
      rw (
        ap (λ (v : ClusterView D.storage). v.most_recent_sensor_id) (view-assign_parameters p base))

  -- Where Central's API declares both enumerators, the observation of a request shows the
  -- parameters as the user wrote them, and for the rest what an observation of its base shows.
  pub generate_observation-generate_cluster :
      (p : ClusterParameters) (base : D.StorageCluster)
      → Known D.collection_methods p.collection_method
      → Known D.cluster_types p.type
      → generate_observation D (generate_cluster D p (some base))
        ≡ record (generate_observation D base) {
          admission_controller = p.admission_controller;
          admission_controller_events = p.admission_controller_events;
          admission_controller_updates = p.admission_controller_updates;
          central_api_endpoint = p.central_api_endpoint;
          collection_method = p.collection_method;
          collector_image = p.collector_image;
          labels = p.labels;
          main_image = p.main_image;
          name = p.name;
          slim_collector = p.slim_collector;
          tolerations = p.tolerations;
          type = p.type;
        }
  unfolding generate_cluster
  generate_observation-generate_cluster p base km kt =
      rw (generate_observation-view (assign_parameters D p base), generate_observation-view base)
        (rw (view-assign_parameters p base, generate_sensor-assign_parameters p base)
          (rw (
            enum_name-value D.collection_methods L.collection_methods-IsEnum p.collection_method km,
            enum_name-value D.cluster_types L.cluster_types-IsEnum p.type kt,
            L.disabled-tolerations,
            not-not,
          )))
