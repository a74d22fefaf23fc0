-- ===== src/Examples/Toy.antt =====
-- A small model of everything outside the repository: Central in memory, with a connection that
-- may be down.
use Prim.Native.Nat.{ℕ, ◌+◌}
use provider_stackrox.Base.{
  String, ℤ, pos, Bool, false, ◌&&◌, none, some, [], ◌∷◌, ◌++◌, ◌==◌, if◌then◌else◌,
}
use provider_stackrox.Base.Named.{replace_id, remove_id}
use provider_stackrox.Deps.{Deps}
use provider_stackrox.Examples.Maps.{cmp_lib}
use provider_stackrox.Examples.World.{ResourceSpec}
pub use provider_stackrox.Examples.World.{
  Stored, Bundle, World, Condition, at, last, num_eq, method_name, method_value, manager_name,
  manager_value, type_name, type_value, remove_all, wrap_text, answer, changed, assigned,
  made_bundle, world, empty,
}

abbrev pub toy : Deps
toy = record {
  errors = record {
    Error = String;
    message = λ e. e;
    new_error = λ text. text;
    wrap = wrap_text;
    with_stack = λ e. e;
  };
  runtime = record {
    World = World;
    TypeMeta = String;
    ObjectMeta = String;
    Time = ℤ × ℤ;
    new_time = λ s n. (s, n);
    ResourceSpec = ResourceSpec;
    Reference = String;
    provider_config_reference = λ s. s.provider_config_reference;
    reference_name = λ r. r;
    ResourceStatus = Condition;
    Condition = Condition;
    ConditionType = Unit {0};
    type_ready = tt;
    available = at 0;
    creating = at 1;
    deleting = at 2;
    get_condition = λ s _. s;
    set_conditions = last;
    condition_eq = λ a b. num_eq a.state b.state && num_eq a.time b.time;
    set_external_name = λ m name. name;
    external_name = λ m. m;
    OtherManaged = Unit {0};
    Bytes = String;
    to_string = λ b. b;
    CredentialsSource = String;
    CommonCredentialSelectors = String;
    ProviderConfigStatus = Unit {0};
  };
  storage = record {
    collection_methods = record { name = method_name; value = method_value };
    manager_types = record { name = manager_name; value = manager_value };
    cluster_types = record { name = type_name; value = type_value };
    TolerationsConfig = Bool;
    get_disabled = λ c. elim c [ none ↦ false | some b ↦ b ];
    tolerations_config_of = λ b. b;
    SensorId = String;
    get_app_namespace = λ s. s;
    get_app_namespace_id = λ s. s;
    get_app_serviceaccount_id = λ s. s;
    get_default_namespace_id = λ s. s;
    get_k8s_node_name = λ s. s;
    get_system_namespace_id = λ s. s;
    StorageCluster = Stored;
    empty_cluster = empty;
    get_id = λ c. c.id;
    get_managed_by = λ c. c.managed_by;
    get_most_recent_sensor_id = λ c. c.most_recent_sensor_id;
    Rest = String;
    rest_of = λ c. c.rest;
    get_admission_controller = λ c. c.admission_controller;
    get_admission_controller_events = λ c. c.admission_controller_events;
    get_admission_controller_updates = λ c. c.admission_controller_updates;
    get_central_api_endpoint = λ c. c.central_api_endpoint;
    get_collection_method = λ c. c.collection_method;
    get_collector_image = λ c. c.collector_image;
    get_labels = λ c. c.labels;
    get_main_image = λ c. c.main_image;
    get_name = λ c. c.name;
    get_slim_collector = λ c. c.slim_collector;
    get_tolerations_config = λ c. c.tolerations_config;
    get_cluster_type = λ c. c.cluster_type;
    set_admission_controller = λ c v. record c { admission_controller = v };
    set_admission_controller_events = λ c v. record c { admission_controller_events = v };
    set_admission_controller_updates = λ c v. record c { admission_controller_updates = v };
    set_central_api_endpoint = λ c v. record c { central_api_endpoint = v };
    set_collection_method = λ c v. record c { collection_method = v };
    set_collector_image = λ c v. record c { collector_image = v };
    set_labels = λ c v. record c { labels = v };
    set_main_image = λ c v. record c { main_image = v };
    set_name = λ c v. record c { name = v };
    set_slim_collector = λ c v. record c { slim_collector = v };
    set_tolerations_config = λ c v. record c { tolerations_config = v };
    set_cluster_type = λ c v. record c { cluster_type = v };
  };
  bundle_messages = record {
    InitBundleMeta = Bundle;
    Creator = Bundle;
    Timestamp = ℕ;
    bundle_id = λ b. b.id;
    bundle_name = λ b. b.name;
    created_by = λ b. b;
    created_at = λ b. 100;
    expires_at = λ b. 200;
    creator_id = λ b. "admin";
    auth_provider_id = λ b. "basic";
    creator_attributes = λ b. b.attributes;
    impacted_clusters_of = λ b. b.impacted;
    seconds = λ t. pos t;
    nanos = λ t. pos 0;
  };
  network = record {
    ClientConn = ℕ;
    Creds = String;
    Subject = Unit {0};
    Interceptors = ℤ × ℤ;
    parse_endpoint = λ endpoint.
        if endpoint == "" then ("", "", "", some "no endpoint") else (endpoint, "", "443", none);
    per_rpc_credentials = λ token. token;
    central_subject = tt;
    retry_interceptors = λ backoff attempts. (backoff, attempts);
    grpc_connection = λ s endpoint name creds retry w.
        answer w none (some w.next) (record w { opened = w.next ∷ w.opened; next = w.next + 1 });
    close_conn = λ c w. (none, record w { closed = c ∷ w.closed });
  };
  clusters = record {
    get_clusters = λ c w. answer w [] w.clusters w;
    post_cluster = λ c req w.
        changed w none (some (assigned req w))
          (record w { clusters = w.clusters ++ (assigned req w ∷ []) });
    put_cluster = λ c req w.
        changed w none (some req) (record w { clusters = replace_id (λ x. x.id) req w.clusters });
    delete_cluster = λ c id w.
        let (_, err, w') =
          changed w tt tt (record w { clusters = remove_id (λ x. x.id) id w.clusters }) in
        (err, w');
  };
  cluster_init = record {
    get_init_bundles = λ c w. answer w [] w.bundles w;
    generate_init_bundle = λ c name w. if w.down then (none, "", "", some "unavailable", w) else (
      some (made_bundle name w),
      "helm",
      "kubectl",
      none,
      record w { bundles = w.bundles ++ (made_bundle name w ∷ []) },
    );
    revoke_init_bundle = λ c ids w.
        if w.down
        then (some "unavailable", w)
        else (none, record w { bundles = remove_all ids w.bundles });
  };
  cmp = cmp_lib;
}
