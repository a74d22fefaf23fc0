-- ===== src/Api/Kinds.antt =====
-- The groups, versions and kinds of the types: the groupversion_info.go files, the variables and
-- the init functions of the types' files, and apis/stackrox.go.
use provider_stackrox.Base.{String, ◌<>◌, Option, List, [], ◌∷◌, ◌++◌}
use provider_stackrox.Deps.Scheme.{GroupVersion, GroupVersionKind, with_kind, SchemeLib}

-- The struct types that have a kind.
pub data ApiType : Type 0 where
  provider_config_type provider_config_list_type : ApiType
  provider_config_usage_type provider_config_usage_list_type : ApiType
  store_config_type store_config_list_type : ApiType
  cluster_type cluster_list_type : ApiType
  init_bundle_type init_bundle_list_type : ApiType

-- reflect.TypeOf(T{}).Name()
abbrev pub type_name : ApiType → String
type_name provider_config_type = "ProviderConfig"
type_name provider_config_list_type = "ProviderConfigList"
type_name provider_config_usage_type = "ProviderConfigUsage"
type_name provider_config_usage_list_type = "ProviderConfigUsageList"
type_name store_config_type = "StoreConfig"
type_name store_config_list_type = "StoreConfigList"
type_name cluster_type = "Cluster"
type_name cluster_list_type = "ClusterList"
type_name init_bundle_type = "InitBundle"
type_name init_bundle_list_type = "InitBundleList"

abbrev pub stackrox_version : GroupVersion
stackrox_version = record { group = "stackrox.crossplane.io"; version = "v1alpha1" }

abbrev pub cluster_version : GroupVersion
cluster_version = record { group = "cluster.stackrox.crossplane.io"; version = "v1alpha1" }

abbrev pub init_bundle_version : GroupVersion
init_bundle_version = record { group = "initbundle.stackrox.crossplane.io"; version = "v1alpha1" }

-- The four variables that a file declares for a type: TKind, TGroupKind, TKindAPIVersion and
-- TGroupVersionKind.
pub record TypeMetadata : Type 0 where
  pub kind : String
  pub group_kind : String
  pub kind_api_version : String
  pub group_version_kind : GroupVersionKind

module _ {World Error : Type 0} (S : SchemeLib World Error ApiType) where
  abbrev pub type_metadata : GroupVersion → ApiType → TypeMetadata
  type_metadata gv t = record {
    kind = type_name t;
    group_kind = S.group_kind_string (record { group = gv.group; kind = type_name t });
    kind_api_version = type_name t <> ("." <> S.group_version_string gv);
    group_version_kind = with_kind gv (type_name t);
  }

  abbrev pub provider_config_metadata : TypeMetadata
  provider_config_metadata = type_metadata stackrox_version provider_config_type

  abbrev pub provider_config_usage_metadata : TypeMetadata
  provider_config_usage_metadata = type_metadata stackrox_version provider_config_usage_type

  abbrev pub provider_config_usage_list_metadata : TypeMetadata
  provider_config_usage_list_metadata =
      type_metadata stackrox_version provider_config_usage_list_type

  abbrev pub store_config_metadata : TypeMetadata
  store_config_metadata = type_metadata stackrox_version store_config_type

  abbrev pub cluster_metadata : TypeMetadata
  cluster_metadata = type_metadata cluster_version cluster_type

  abbrev pub init_bundle_metadata : TypeMetadata
  init_bundle_metadata = type_metadata init_bundle_version init_bundle_type

  -- The init functions, each from the builder that it finds to the one that it leaves.
  unfoldable pub init_provider_config : S.Builder → S.Builder
  init_provider_config b = S.register b (provider_config_type ∷ provider_config_list_type ∷ [])

  unfoldable pub init_provider_config_usage : S.Builder → S.Builder
  init_provider_config_usage b =
      S.register b (provider_config_usage_type ∷ provider_config_usage_list_type ∷ [])

  unfoldable pub init_store_config : S.Builder → S.Builder
  init_store_config b = S.register b (store_config_type ∷ store_config_list_type ∷ [])

  unfoldable pub init_cluster : S.Builder → S.Builder
  init_cluster b = S.register b (cluster_type ∷ cluster_list_type ∷ [])

  unfoldable pub init_init_bundle : S.Builder → S.Builder
  init_init_bundle b = S.register b (init_bundle_type ∷ init_bundle_list_type ∷ [])

  abbrev new_stackrox_builder : S.Builder
  new_stackrox_builder = S.builder stackrox_version

  abbrev new_cluster_builder : S.Builder
  new_cluster_builder = S.builder cluster_version

  abbrev new_init_bundle_builder : S.Builder
  new_init_bundle_builder = S.builder init_bundle_version

  -- SchemeBuilder of each package once it is initialised. The init functions of a package run in
  -- the order of their files' names.
  abbrev pub stackrox_builder : S.Builder
  stackrox_builder =
      init_store_config (init_provider_config_usage (init_provider_config new_stackrox_builder))

  abbrev pub cluster_builder : S.Builder
  cluster_builder = init_cluster new_cluster_builder

  abbrev pub init_bundle_builder : S.Builder
  init_bundle_builder = init_init_bundle new_init_bundle_builder

  -- init of apis/stackrox.go, which appends to AddToSchemes
  unfoldable pub init_stackrox :
      List (S.Scheme → World → Option Error × World)
      → List (S.Scheme → World → Option Error × World)
  init_stackrox add_to_schemes =
      add_to_schemes
      ++ (S.add_to_scheme stackrox_builder
          ∷ S.add_to_scheme cluster_builder
          ∷ S.add_to_scheme init_bundle_builder
          ∷ [])

  abbrev pub add_to_schemes : List (S.Scheme → World → Option Error × World)
  add_to_schemes = init_stackrox []

  unfoldable pub add_to_scheme : S.Scheme → World → Option Error × World
  add_to_scheme s w = S.apply_all add_to_schemes s w
