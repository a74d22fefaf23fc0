-- ===== src/Deps/Storage.antt =====
-- github.com/stackrox/rox/generated/storage: the message `Cluster` by its getters and the writes to
-- its fields, and the enumerations by their maps of names and values.
use provider_stackrox.Base.{String, ◌≡◌, ℤ, pos, Bool, false, Option, none, some}
use provider_stackrox.Base.GoMap.{GoMap}

-- `<Enum>_name` and `<Enum>_value`; `none` where the map has no such key
pub record EnumMaps : Type 0 where
  pub name : ℤ → Option String
  pub value : String → Option ℤ

-- No two constants share a number, as protobuf demands unless `allow_alias` is set.
pub record IsEnum (m : EnumMaps) : Type 0 where
  pub name-value : (s : String) (n : ℤ) → m.value s ≡ some n → m.name n ≡ some s
  pub value-name : (s : String) (n : ℤ) → m.name n ≡ some s → m.value s ≡ some n
  -- proto3: the first constant is zero
  pub zero_name : String
  pub name_zero : m.name (pos 0) ≡ some zero_name

pub record StorageLib : Type 1 where
  pub collection_methods : EnumMaps
  pub manager_types : EnumMaps
  pub cluster_types : EnumMaps
  pub TolerationsConfig : Type 0
  -- GetDisabled, also of nil, and &TolerationsConfig{Disabled: b}
  pub get_disabled : Option TolerationsConfig → Bool
  pub tolerations_config_of : Bool → TolerationsConfig
  -- the sensor's deployment, with the getters' zero values for nil
  pub SensorId : Type 0
  pub get_app_namespace : SensorId → String
  pub get_app_namespace_id : SensorId → String
  pub get_app_serviceaccount_id : SensorId → String
  pub get_default_namespace_id : SensorId → String
  pub get_k8s_node_name : SensorId → String
  pub get_system_namespace_id : SensorId → String
  -- &storage.Cluster{}
  pub StorageCluster : Type 0
  pub empty_cluster : StorageCluster
  pub get_id : StorageCluster → String
  pub get_managed_by : StorageCluster → ℤ
  pub get_most_recent_sensor_id : StorageCluster → SensorId
  -- the fields that the provider never names
  pub Rest : Type 0
  pub rest_of : StorageCluster → Rest
  pub get_admission_controller : StorageCluster → Bool
  pub get_admission_controller_events : StorageCluster → Bool
  pub get_admission_controller_updates : StorageCluster → Bool
  pub get_central_api_endpoint : StorageCluster → String
  pub get_collection_method : StorageCluster → ℤ
  pub get_collector_image : StorageCluster → String
  pub get_labels : StorageCluster → GoMap String
  pub get_main_image : StorageCluster → String
  pub get_name : StorageCluster → String
  pub get_slim_collector : StorageCluster → Bool
  pub get_tolerations_config : StorageCluster → Option TolerationsConfig
  pub get_cluster_type : StorageCluster → ℤ
  -- the writes to the fields
  pub set_admission_controller : StorageCluster → Bool → StorageCluster
  pub set_admission_controller_events : StorageCluster → Bool → StorageCluster
  pub set_admission_controller_updates : StorageCluster → Bool → StorageCluster
  pub set_central_api_endpoint : StorageCluster → String → StorageCluster
  pub set_collection_method : StorageCluster → ℤ → StorageCluster
  pub set_collector_image : StorageCluster → String → StorageCluster
  pub set_labels : StorageCluster → GoMap String → StorageCluster
  pub set_main_image : StorageCluster → String → StorageCluster
  pub set_name : StorageCluster → String → StorageCluster
  pub set_slim_collector : StorageCluster → Bool → StorageCluster
  pub set_tolerations_config : StorageCluster → Option TolerationsConfig → StorageCluster
  pub set_cluster_type : StorageCluster → ℤ → StorageCluster

-- What the getters show of a cluster, the unnamed fields included.
pub record ClusterView (S : StorageLib) : Type 0 where
  pub admission_controller : Bool
  pub admission_controller_events : Bool
  pub admission_controller_updates : Bool
  pub central_api_endpoint : String
  pub collection_method : ℤ
  pub collector_image : String
  pub labels : GoMap String
  pub main_image : String
  pub name : String
  pub slim_collector : Bool
  pub tolerations_config : Option S.TolerationsConfig
  pub cluster_type : ℤ
  pub id : String
  pub managed_by : ℤ
  pub most_recent_sensor_id : S.SensorId
  pub rest : S.Rest

unfoldable pub view : (S : StorageLib) → S.StorageCluster → ClusterView S
view S c = record {
  admission_controller = S.get_admission_controller c;
  admission_controller_events = S.get_admission_controller_events c;
  admission_controller_updates = S.get_admission_controller_updates c;
  central_api_endpoint = S.get_central_api_endpoint c;
  collection_method = S.get_collection_method c;
  collector_image = S.get_collector_image c;
  labels = S.get_labels c;
  main_image = S.get_main_image c;
  name = S.get_name c;
  slim_collector = S.get_slim_collector c;
  tolerations_config = S.get_tolerations_config c;
  cluster_type = S.get_cluster_type c;
  id = S.get_id c;
  managed_by = S.get_managed_by c;
  most_recent_sensor_id = S.get_most_recent_sensor_id c;
  rest = S.rest_of c;
}

-- A write to a field changes that field alone.
pub record IsStorage (S : StorageLib) : Type 0 where
  pub collection_methods-IsEnum : IsEnum S.collection_methods
  pub manager_types-IsEnum : IsEnum S.manager_types
  pub cluster_types-IsEnum : IsEnum S.cluster_types
  pub disabled-nil : S.get_disabled none ≡ false
  pub disabled-tolerations : (b : Bool) → S.get_disabled (some (S.tolerations_config_of b)) ≡ b
  pub view-set_admission_controller :
      (c : S.StorageCluster) (v : Bool)
      → view S (S.set_admission_controller c v) ≡ record (view S c) { admission_controller = v }
  pub view-set_admission_controller_events :
      (c : S.StorageCluster) (v : Bool)
      → view S (S.set_admission_controller_events c v)
        ≡ record (view S c) { admission_controller_events = v }
  pub view-set_admission_controller_updates :
      (c : S.StorageCluster) (v : Bool)
      → view S (S.set_admission_controller_updates c v)
        ≡ record (view S c) { admission_controller_updates = v }
  pub view-set_central_api_endpoint :
      (c : S.StorageCluster) (v : String)
      → view S (S.set_central_api_endpoint c v) ≡ record (view S c) { central_api_endpoint = v }
  pub view-set_collection_method :
      (c : S.StorageCluster) (v : ℤ)
      → view S (S.set_collection_method c v) ≡ record (view S c) { collection_method = v }
  pub view-set_collector_image :
      (c : S.StorageCluster) (v : String)
      → view S (S.set_collector_image c v) ≡ record (view S c) { collector_image = v }
  pub view-set_labels :
      (c : S.StorageCluster) (v : GoMap String)
      → view S (S.set_labels c v) ≡ record (view S c) { labels = v }
  pub view-set_main_image :
      (c : S.StorageCluster) (v : String)
      → view S (S.set_main_image c v) ≡ record (view S c) { main_image = v }
  pub view-set_name :
      (c : S.StorageCluster) (v : String) → view S (S.set_name c v) ≡ record (view S c) { name = v }
  pub view-set_slim_collector :
      (c : S.StorageCluster) (v : Bool)
      → view S (S.set_slim_collector c v) ≡ record (view S c) { slim_collector = v }
  pub view-set_tolerations_config :
      (c : S.StorageCluster) (v : Option S.TolerationsConfig)
      → view S (S.set_tolerations_config c v) ≡ record (view S c) { tolerations_config = v }
  pub view-set_cluster_type :
      (c : S.StorageCluster) (v : ℤ)
      → view S (S.set_cluster_type c v) ≡ record (view S c) { cluster_type = v }
