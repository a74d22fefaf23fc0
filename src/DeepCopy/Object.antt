-- ===== src/DeepCopy/Object.antt =====
-- The types that are a runtime.Object, and their methods DeepCopyObject.
use provider_stackrox.Base.{Option, some}
use provider_stackrox.Memory.Heap.{Heap}
use provider_stackrox.Memory.Foreign.{MemTypes}
use provider_stackrox.Memory.Cluster.{Cluster, ClusterList}
use provider_stackrox.Memory.InitBundle.{InitBundle, InitBundleList}
use provider_stackrox.Memory.Config.{
  ProviderConfig, ProviderConfigList, ProviderConfigUsage, ProviderConfigUsageList, StoreConfig,
  StoreConfigList,
}
use provider_stackrox.Memory.Cell.{Cell}
use provider_stackrox.Memory.Libraries.{MemLib}
use provider_stackrox.DeepCopy.{as_object}
use provider_stackrox.DeepCopy.Cluster.{deep_copy_cluster, deep_copy_cluster_list}
use provider_stackrox.DeepCopy.InitBundle.{deep_copy_init_bundle, deep_copy_init_bundle_list}
use provider_stackrox.DeepCopy.Config.{
  deep_copy_provider_config, deep_copy_provider_config_list, deep_copy_provider_config_usage,
  deep_copy_provider_config_usage_list, deep_copy_store_config, deep_copy_store_config_list,
}

-- An object of the provider behind the interface runtime.Object.
pub data Object (T : MemTypes) : Type 0 where
  cluster : Cluster T → Object T
  cluster_list : ClusterList T → Object T
  init_bundle : InitBundle T → Object T
  init_bundle_list : InitBundleList T → Object T
  provider_config : ProviderConfig T → Object T
  provider_config_list : ProviderConfigList T → Object T
  provider_config_usage : ProviderConfigUsage T → Object T
  provider_config_usage_list : ProviderConfigUsageList T → Object T
  store_config : StoreConfig T → Object T
  store_config_list : StoreConfigList T → Object T

module _ {T : MemTypes} (L : MemLib T) where
  unfoldable pub deep_copy_object_cluster :
      Option (Cluster T) → Heap (Cell T) → Option (Object T) × Heap (Cell T)
  deep_copy_object_cluster in_ h = as_object Object.cluster (deep_copy_cluster L in_ h)

  unfoldable pub deep_copy_object_cluster_list :
      Option (ClusterList T) → Heap (Cell T) → Option (Object T) × Heap (Cell T)
  deep_copy_object_cluster_list in_ h =
      as_object Object.cluster_list (deep_copy_cluster_list L in_ h)

  unfoldable pub deep_copy_object_init_bundle :
      Option (InitBundle T) → Heap (Cell T) → Option (Object T) × Heap (Cell T)
  deep_copy_object_init_bundle in_ h = as_object Object.init_bundle (deep_copy_init_bundle L in_ h)

  unfoldable pub deep_copy_object_init_bundle_list :
      Option (InitBundleList T) → Heap (Cell T) → Option (Object T) × Heap (Cell T)
  deep_copy_object_init_bundle_list in_ h =
      as_object Object.init_bundle_list (deep_copy_init_bundle_list L in_ h)

  unfoldable pub deep_copy_object_provider_config :
      Option (ProviderConfig T) → Heap (Cell T) → Option (Object T) × Heap (Cell T)
  deep_copy_object_provider_config in_ h =
      as_object Object.provider_config (deep_copy_provider_config L in_ h)

  unfoldable pub deep_copy_object_provider_config_list :
      Option (ProviderConfigList T) → Heap (Cell T) → Option (Object T) × Heap (Cell T)
  deep_copy_object_provider_config_list in_ h =
      as_object Object.provider_config_list (deep_copy_provider_config_list L in_ h)

  unfoldable pub deep_copy_object_provider_config_usage :
      Option (ProviderConfigUsage T) → Heap (Cell T) → Option (Object T) × Heap (Cell T)
  deep_copy_object_provider_config_usage in_ h =
      as_object Object.provider_config_usage (deep_copy_provider_config_usage L in_ h)

  unfoldable pub deep_copy_object_provider_config_usage_list :
      Option (ProviderConfigUsageList T) → Heap (Cell T) → Option (Object T) × Heap (Cell T)
  deep_copy_object_provider_config_usage_list in_ h =
      as_object Object.provider_config_usage_list (deep_copy_provider_config_usage_list L in_ h)

  unfoldable pub deep_copy_object_store_config :
      Option (StoreConfig T) → Heap (Cell T) → Option (Object T) × Heap (Cell T)
  deep_copy_object_store_config in_ h =
      as_object Object.store_config (deep_copy_store_config L in_ h)

  unfoldable pub deep_copy_object_store_config_list :
      Option (StoreConfigList T) → Heap (Cell T) → Option (Object T) × Heap (Cell T)
  deep_copy_object_store_config_list in_ h =
      as_object Object.store_config_list (deep_copy_store_config_list L in_ h)

  -- The call of the method on an object that is not nil.
  unfoldable pub deep_copy_object : Object T → Heap (Cell T) → Option (Object T) × Heap (Cell T)
  unfolding deep_copy_object_cluster deep_copy_object_cluster_list deep_copy_object_init_bundle
      deep_copy_object_init_bundle_list deep_copy_object_provider_config
      deep_copy_object_provider_config_list deep_copy_object_provider_config_usage
      deep_copy_object_provider_config_usage_list deep_copy_object_store_config
      deep_copy_object_store_config_list
  deep_copy_object (cluster x) = deep_copy_object_cluster (some x)
  deep_copy_object (cluster_list x) = deep_copy_object_cluster_list (some x)
  deep_copy_object (init_bundle x) = deep_copy_object_init_bundle (some x)
  deep_copy_object (init_bundle_list x) = deep_copy_object_init_bundle_list (some x)
  deep_copy_object (provider_config x) = deep_copy_object_provider_config (some x)
  deep_copy_object (provider_config_list x) = deep_copy_object_provider_config_list (some x)
  deep_copy_object (provider_config_usage x) = deep_copy_object_provider_config_usage (some x)
  deep_copy_object (provider_config_usage_list x) =
      deep_copy_object_provider_config_usage_list (some x)
  deep_copy_object (store_config x) = deep_copy_object_store_config (some x)
  deep_copy_object (store_config_list x) = deep_copy_object_store_config_list (some x)
