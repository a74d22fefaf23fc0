-- ===== src/Cluster/Convert.antt =====
-- pkg/controller/cluster/cluster.go: the translations between a Cluster resource and Central's
-- storage.Cluster, and their comparison.
use provider_stackrox.Base.{
  String, ◌<>◌, ℤ, pos, Bool, true, false, not, Option, none, some, ◌==◌, if◌then◌else◌, get_or,
}
use provider_stackrox.Deps.{Deps}
use provider_stackrox.Deps.Storage.{EnumMaps}
use provider_stackrox.Api.Parameters.{ClusterParameters}
use provider_stackrox.Api.Cluster.{Cluster, ClusterObservation, SensorDeployment}

-- `Enum_name[int32(n)]` and `Enum(Enum_value[s])`: a missing key reads as the zero value.
abbrev pub enum_name : EnumMaps → ℤ → String
enum_name m n = get_or (m.name n) ""

abbrev pub enum_value : EnumMaps → String → ℤ
enum_value m s = get_or (m.value s) (pos 0)

module _ (D : Deps) where
  unfoldable pub generate_sensor : D.StorageCluster → SensorDeployment
  generate_sensor in_ =
      let s = D.get_most_recent_sensor_id in_ in
      record {
        app_namespace = D.get_app_namespace s;
        app_namespace_id = D.get_app_namespace_id s;
        app_service_account_id = D.get_app_serviceaccount_id s;
        default_namespace_id = D.get_default_namespace_id s;
        k8s_node_name = D.get_k8s_node_name s;
        system_namespace_id = D.get_system_namespace_id s;
      }

  unfoldable pub generate_observation : D.StorageCluster → ClusterObservation
  generate_observation in_ = record {
    admission_controller = D.get_admission_controller in_;
    admission_controller_events = D.get_admission_controller_events in_;
    admission_controller_updates = D.get_admission_controller_updates in_;
    central_api_endpoint = D.get_central_api_endpoint in_;
    collection_method = enum_name D.collection_methods (D.get_collection_method in_);
    collector_image = D.get_collector_image in_;
    id = D.get_id in_;
    init_bundle_id = "";
    labels = D.get_labels in_;
    main_image = D.get_main_image in_;
    managed_by = enum_name D.manager_types (D.get_managed_by in_);
    most_recent_sensor = generate_sensor in_;
    name = D.get_name in_;
    slim_collector = D.get_slim_collector in_;
    tolerations = not (D.get_disabled (D.get_tolerations_config in_));
    type = enum_name D.cluster_types (D.get_cluster_type in_);
  }

  -- The twelve assignments of generateCluster, in their order.
  unfoldable pub assign_parameters : ClusterParameters → D.StorageCluster → D.StorageCluster
  assign_parameters in_ base =
      let b1 = D.set_admission_controller base in_.admission_controller in
      let b2 = D.set_admission_controller_events b1 in_.admission_controller_events in
      let b3 = D.set_admission_controller_updates b2 in_.admission_controller_updates in
      let b4 = D.set_central_api_endpoint b3 in_.central_api_endpoint in
      let b5 = D.set_collection_method b4 (enum_value D.collection_methods in_.collection_method) in
      let b6 = D.set_collector_image b5 in_.collector_image in
      let b7 = D.set_labels b6 in_.labels in
      let b8 = D.set_main_image b7 in_.main_image in
      let b9 = D.set_name b8 in_.name in
      let b10 = D.set_slim_collector b9 in_.slim_collector in
      let tolerations = D.tolerations_config_of (not in_.tolerations) in
      let b11 = D.set_tolerations_config b10 (some tolerations) in
      D.set_cluster_type b11 (enum_value D.cluster_types in_.type)

  -- A nil base is replaced by an empty cluster.
  unfoldable pub generate_cluster : ClusterParameters → Option D.StorageCluster → D.StorageCluster
  generate_cluster in_ none = assign_parameters in_ D.empty_cluster
  generate_cluster in_ (some base) = assign_parameters in_ base

  unfoldable pub observed_parameters : D.StorageCluster → ClusterParameters
  observed_parameters observed = record {
    admission_controller = D.get_admission_controller observed;
    admission_controller_events = D.get_admission_controller_events observed;
    admission_controller_updates = D.get_admission_controller_updates observed;
    central_api_endpoint = D.get_central_api_endpoint observed;
    collection_method = enum_name D.collection_methods (D.get_collection_method observed);
    collector_image = D.get_collector_image observed;
    labels = D.get_labels observed;
    main_image = D.get_main_image observed;
    name = D.get_name observed;
    slim_collector = D.get_slim_collector observed;
    tolerations = not (D.get_disabled (D.get_tolerations_config observed));
    type = enum_name D.cluster_types (D.get_cluster_type observed);
  }

  unfoldable pub is_up_to_date : Cluster D → D.StorageCluster → Bool × String
  is_up_to_date in_ observed =
      let diff = D.diff_clusters in_.spec.for_provider (observed_parameters observed) in
      if not (diff == "") then (false, "Observed difference in cluster\n" <> diff) else (true, "")
