-- ===== src/Setup.antt =====
-- The set-up of the controllers: pkg/controller/stackrox.go, pkg/controller/config/config.go, and
-- Setup of the Cluster and of the InitBundle controller.
pub mod Order
pub mod Registered
use provider_stackrox.Base.{String, ℤ, Option, none, some, List, [], ◌∷◌, ◌++◌, if◌then◌else◌}
use provider_stackrox.Deps.{Deps}
use provider_stackrox.Deps.Manager.{ManagerLib}
use provider_stackrox.Deps.Scheme.{GroupVersionKind}
use provider_stackrox.Api.Kinds.{
  ApiType, provider_config_type, provider_config_usage_type, cluster_type, init_bundle_type,
  provider_config_metadata, provider_config_usage_list_metadata, store_config_metadata,
  cluster_metadata, init_bundle_metadata,
}

-- features.EnableAlphaExternalSecretStores
abbrev pub external_secret_stores : String
external_secret_stores = "EnableAlphaExternalSecretStores"

module _ (D : Deps) (L : ManagerLib D.World D.Error) where
  -- controller.Options
  pub record Options : Type 0 where
    pub logger : L.Logger
    pub max_concurrent_reconciles : ℤ
    pub poll_interval : ℤ
    pub global_rate_limiter : L.RateLimiter
    pub features : L.Flags

  -- A call of managed.NewAPISecretPublisher or of connection.NewDetailsManager.
  pub data Publisher : Type 0 where
    api_secret_publisher : L.Client → L.Scheme → Publisher
    details_manager : L.Client → GroupVersionKind → Publisher

  -- The fields of a new connector.
  pub record NewConnector : Type 0 where
    pub kube : L.Client
    pub usage : L.Tracker

  -- Which option hands the connector to the reconciler.
  pub data Connecting : Type 0 where
    with_external_connecter : NewConnector → Connecting
    with_external_connect_disconnecter : NewConnector → Connecting

  -- A call of providerconfig.NewReconciler or of managed.NewReconciler.
  pub data Reconciler : Type 0 where
    provider_config_reconciler :
        (config usage_list : GroupVersionKind) → L.Logger → L.Recorder → Reconciler
    managed_reconciler :
        GroupVersionKind → Connecting → L.Logger → L.Recorder → List Publisher → Reconciler

  -- A call of Watches: the type of the source and the handler.
  pub data Watch : Type 0 where
    enqueue_request_for_provider_config : ApiType → Watch

  -- What the calls of ctrl.NewControllerManagedBy collect; `reconciler` is limited by
  -- `rate_limiter`.
  pub record Controller : Type 0 where
    pub name : String
    pub options : Options
    pub for_type : ApiType
    pub watches : List Watch
    pub reconciler : Reconciler
    pub rate_limiter : L.RateLimiter

  abbrev pub new_connector : L.Manager → NewConnector
  new_connector mgr = record {
    kube = L.get_client mgr;
    usage = L.usage_tracker (L.get_client mgr) provider_config_usage_type;
  }

  unfoldable pub publishers : L.Manager → Options → List Publisher
  publishers mgr o =
      let cps = api_secret_publisher (L.get_client mgr) (L.get_scheme mgr) ∷ [] in
      if L.enabled o.features external_secret_stores
      then cps
        ++ (details_manager (L.get_client mgr) (store_config_metadata L.schemes).group_version_kind
            ∷ [])
      else cps

  unfoldable pub config_controller : L.Manager → Options → Controller
  config_controller mgr o =
      let name =
        L.provider_config_controller_name (provider_config_metadata L.schemes).group_kind in
      record {
        name = name;
        options = o;
        for_type = provider_config_type;
        watches = enqueue_request_for_provider_config provider_config_usage_type ∷ [];
        reconciler =
            provider_config_reconciler (provider_config_metadata L.schemes).group_version_kind
              (provider_config_usage_list_metadata L.schemes).group_version_kind
              (L.with_values o.logger "controller" name) (L.api_recorder_for mgr name);
        rate_limiter = o.global_rate_limiter;
      }

  unfoldable pub cluster_controller : L.Manager → Options → Controller
  cluster_controller mgr o =
      let name = L.managed_controller_name (cluster_metadata L.schemes).group_kind in
      record {
        name = name;
        options = o;
        for_type = cluster_type;
        watches = [];
        reconciler =
            managed_reconciler (cluster_metadata L.schemes).group_version_kind
              (with_external_connecter (new_connector mgr))
              (L.with_values o.logger "controller" name) (L.api_recorder_for mgr name)
              (publishers mgr o);
        rate_limiter = o.global_rate_limiter;
      }

  unfoldable pub init_bundle_controller : L.Manager → Options → Controller
  init_bundle_controller mgr o =
      let name = L.managed_controller_name (init_bundle_metadata L.schemes).group_kind in
      record {
        name = name;
        options = o;
        for_type = init_bundle_type;
        watches = [];
        reconciler =
            managed_reconciler (init_bundle_metadata L.schemes).group_version_kind
              (with_external_connect_disconnecter (new_connector mgr))
              (L.with_values o.logger "controller" name) (L.api_recorder_for mgr name)
              (publishers mgr o);
        rate_limiter = o.global_rate_limiter;
      }

  -- `complete` is Complete of the builder, which adds the controller to the manager.
  module _ (complete : L.Manager → Controller → D.World → Option D.Error × D.World) where
    -- The loop of Setup over the controllers' set-ups.
    unfoldable pub run_setups :
        List (L.Manager → Options → Controller)
        → L.Manager
        → Options
        → D.World
        → Option D.Error × D.World
    run_setups [] mgr o w = (none, w)
    run_setups (build ∷ rest) mgr o w =
        let (err, w') = complete mgr (build mgr o) w in
        elim err [ some e ↦ (some e, w') | none ↦ run_setups rest mgr o w' ]

    unfoldable pub setup : L.Manager → Options → D.World → Option D.Error × D.World
    unfolding run_setups
    setup = run_setups (config_controller ∷ cluster_controller ∷ init_bundle_controller ∷ [])
