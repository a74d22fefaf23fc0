-- ===== src/Api/Cluster.antt =====
-- apis/cluster/v1alpha1/cluster_types.go, with the methods of zz_generated.managed.go that the
-- controller calls.
use provider_stackrox.Base.{String, Bool, Option, [], ◌∷◌}
use provider_stackrox.Base.GoMap.{GoMap}
use provider_stackrox.Deps.{Deps}
use provider_stackrox.Api.Parameters.{ClusterParameters}

pub record SensorDeployment : Type 0 where
  pub app_namespace : String
  pub app_namespace_id : String
  pub app_service_account_id : String
  pub default_namespace_id : String
  pub k8s_node_name : String
  pub system_namespace_id : String

pub record ClusterObservation : Type 0 where
  pub admission_controller : Bool
  pub admission_controller_events : Bool
  pub admission_controller_updates : Bool
  pub central_api_endpoint : String
  pub collection_method : String
  pub collector_image : String
  pub id : String
  pub init_bundle_id : String
  pub labels : GoMap String
  pub main_image : String
  pub managed_by : String
  pub most_recent_sensor : SensorDeployment
  pub name : String
  pub slim_collector : Bool
  pub tolerations : Bool
  pub type : String

-- A ClusterSpec has the embedded xpv1.ResourceSpec and the parameters.
pub record ClusterSpec (D : Deps) : Type 0 where
  pub resource_spec : D.ResourceSpec
  pub for_provider : ClusterParameters

pub record ClusterStatus (D : Deps) : Type 0 where
  pub resource_status : D.ResourceStatus
  pub at_provider : ClusterObservation

pub record Cluster (D : Deps) : Type 0 where
  pub type_meta : D.TypeMeta
  pub object_meta : D.ObjectMeta
  pub spec : ClusterSpec D
  pub status : ClusterStatus D

module _ (D : Deps) where
  unfoldable pub get_condition : Cluster D → D.ConditionType → D.Condition
  get_condition mg ct = D.get_condition mg.status.resource_status ct

  unfoldable pub get_provider_config_reference : Cluster D → Option D.Reference
  get_provider_config_reference mg = D.provider_config_reference mg.spec.resource_spec

  -- SetConditions, called with one condition
  unfoldable pub set_conditions : Cluster D → D.Condition → Cluster D
  set_conditions mg c = record mg {
    status = record (mg.status) {
      resource_status = D.set_conditions mg.status.resource_status (c ∷ []);
    };
  }

  -- mg.Status.AtProvider = o
  unfoldable pub set_at_provider : Cluster D → ClusterObservation → Cluster D
  set_at_provider mg o = record mg { status = record (mg.status) { at_provider = o } }

  -- meta.SetExternalName(mg, name)
  unfoldable pub set_external_name : Cluster D → String → Cluster D
  set_external_name mg name = record mg { object_meta = D.set_external_name mg.object_meta name }
