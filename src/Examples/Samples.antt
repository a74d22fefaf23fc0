-- ===== src/Examples/Samples.antt =====
-- Resources and clusters that the examples share.
use provider_stackrox.Base.{pos, true, false, none, some, []}
use provider_stackrox.Api.Parameters.{ClusterParameters}
use provider_stackrox.Api.Cluster.{Cluster}
use provider_stackrox.Api.InitBundle.{InitBundle}
use provider_stackrox.Examples.World.{referring}
use provider_stackrox.Examples.Toy.{Stored, Bundle, Condition, empty, toy}

abbrev pub params : ClusterParameters
params = record {
  admission_controller = true;
  admission_controller_events = false;
  admission_controller_updates = false;
  central_api_endpoint = "central:443";
  collection_method = "EBPF";
  collector_image = "collector";
  labels = none;
  main_image = "main";
  name = "prod";
  slim_collector = true;
  tolerations = true;
  type = "OPENSHIFT4_CLUSTER";
}

-- A condition that was set before the present.
abbrev pub earlier : Condition
earlier = record { state = 1; time = 5 }

abbrev pub resource : ClusterParameters → Cluster toy
resource p = record {
  type_meta = "Cluster";
  object_meta = "";
  spec = record { resource_spec = referring (some "default"); for_provider = p };
  status = record {
    resource_status = earlier;
    at_provider = record {
      admission_controller = false;
      admission_controller_events = false;
      admission_controller_updates = false;
      central_api_endpoint = "";
      collection_method = "";
      collector_image = "";
      id = "c1";
      init_bundle_id = "";
      labels = none;
      main_image = "";
      managed_by = "";
      most_recent_sensor = record {
        app_namespace = "";
        app_namespace_id = "";
        app_service_account_id = "";
        default_namespace_id = "";
        k8s_node_name = "";
        system_namespace_id = "";
      };
      name = "";
      slim_collector = false;
      tolerations = false;
      type = "";
    };
  };
}

abbrev pub prod : Cluster toy
prod = resource params

-- Two clusters of Central; the second one has the resource's name and differs from it.
abbrev pub dev_cluster : Stored
dev_cluster = record empty { id = "c0"; name = "dev"; rest = "sick" }

abbrev pub prod_cluster : Stored
prod_cluster = record empty {
  id = "c1";
  name = "prod";
  collector_image = "old";
  managed_by = pos 1;
  rest = "healthy";
}

abbrev pub bundle : InitBundle toy
bundle = record {
  type_meta = "InitBundle";
  object_meta = "";
  spec = record {
    resource_spec = referring (some "default");
    for_provider = record { name = "b" };
  };
  status = record {
    resource_status = earlier;
    at_provider = record {
      created_at = (pos 0, pos 0);
      created_by = record { attributes = none; auth_provider_id = ""; id = "" };
      expires_at = (pos 0, pos 0);
      id = "b1";
      impacted_clusters = none;
      name = "";
    };
  };
}

abbrev pub stored_bundle : Bundle
stored_bundle = record { id = "b1"; name = "b"; attributes = []; impacted = [] }
