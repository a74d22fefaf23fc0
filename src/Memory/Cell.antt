-- ===== src/Memory/Cell.antt =====
-- What a cell holds: the entries of a map, the array of a slice, or what is a library's.
use provider_stackrox.Base.{Option, none, some, List, [], refl}
use provider_stackrox.Memory.Strings.{Strings}
use provider_stackrox.Memory.Cells.{Slot, IsSlot}
use provider_stackrox.Memory.Foreign.{MemTypes}
use provider_stackrox.Memory.Cluster.{Cluster}
use provider_stackrox.Memory.InitBundle.{ImpactedCluster, InitBundle}
use provider_stackrox.Memory.Config.{ProviderConfig, ProviderConfigUsage, StoreConfig}

pub data Cell (T : MemTypes) : Type 0 where
  string_map : Strings → Cell T
  impacted_cluster_array : List ImpactedCluster → Cell T
  cluster_array : List (Cluster T) → Cell T
  init_bundle_array : List (InitBundle T) → Cell T
  provider_config_array : List (ProviderConfig T) → Cell T
  provider_config_usage_array : List (ProviderConfigUsage T) → Cell T
  store_config_array : List (StoreConfig T) → Cell T
  foreign : T.Content → Cell T

module _ {T : MemTypes} where
  abbrev take_string_map : Cell T → Option Strings
  take_string_map (string_map x) = some x
  take_string_map _ = none

  abbrev pub strings_slot : Slot (Cell T) Strings
  strings_slot = record { put = string_map; take = take_string_map; missing = [] }

  abbrev take_impacted_cluster_array : Cell T → Option (List ImpactedCluster)
  take_impacted_cluster_array (impacted_cluster_array x) = some x
  take_impacted_cluster_array _ = none

  abbrev pub impacted_clusters_slot : Slot (Cell T) (List ImpactedCluster)
  impacted_clusters_slot = record {
    put = impacted_cluster_array;
    take = take_impacted_cluster_array;
    missing = [];
  }

  abbrev take_cluster_array : Cell T → Option (List (Cluster T))
  take_cluster_array (cluster_array x) = some x
  take_cluster_array _ = none

  abbrev pub clusters_slot : Slot (Cell T) (List (Cluster T))
  clusters_slot = record { put = cluster_array; take = take_cluster_array; missing = [] }

  abbrev take_init_bundle_array : Cell T → Option (List (InitBundle T))
  take_init_bundle_array (init_bundle_array x) = some x
  take_init_bundle_array _ = none

  abbrev pub init_bundles_slot : Slot (Cell T) (List (InitBundle T))
  init_bundles_slot = record {
    put = init_bundle_array;
    take = take_init_bundle_array;
    missing = [];
  }

  abbrev take_provider_config_array : Cell T → Option (List (ProviderConfig T))
  take_provider_config_array (provider_config_array x) = some x
  take_provider_config_array _ = none

  abbrev pub provider_configs_slot : Slot (Cell T) (List (ProviderConfig T))
  provider_configs_slot = record {
    put = provider_config_array;
    take = take_provider_config_array;
    missing = [];
  }

  abbrev take_provider_config_usage_array : Cell T → Option (List (ProviderConfigUsage T))
  take_provider_config_usage_array (provider_config_usage_array x) = some x
  take_provider_config_usage_array _ = none

  abbrev pub provider_config_usages_slot : Slot (Cell T) (List (ProviderConfigUsage T))
  provider_config_usages_slot = record {
    put = provider_config_usage_array;
    take = take_provider_config_usage_array;
    missing = [];
  }

  abbrev take_store_config_array : Cell T → Option (List (StoreConfig T))
  take_store_config_array (store_config_array x) = some x
  take_store_config_array _ = none

  abbrev pub store_configs_slot : Slot (Cell T) (List (StoreConfig T))
  store_configs_slot = record {
    put = store_config_array;
    take = take_store_config_array;
    missing = [];
  }

module _ (T : MemTypes) where
  pub strings_slot-IsSlot : IsSlot (strings_slot {T = T})
  strings_slot-IsSlot x = refl

  pub impacted_clusters_slot-IsSlot : IsSlot (impacted_clusters_slot {T = T})
  impacted_clusters_slot-IsSlot x = refl

  pub clusters_slot-IsSlot : IsSlot (clusters_slot {T = T})
  clusters_slot-IsSlot x = refl

  pub init_bundles_slot-IsSlot : IsSlot (init_bundles_slot {T = T})
  init_bundles_slot-IsSlot x = refl

  pub provider_configs_slot-IsSlot : IsSlot (provider_configs_slot {T = T})
  provider_configs_slot-IsSlot x = refl

  pub provider_config_usages_slot-IsSlot : IsSlot (provider_config_usages_slot {T = T})
  provider_config_usages_slot-IsSlot x = refl

  pub store_configs_slot-IsSlot : IsSlot (store_configs_slot {T = T})
  store_configs_slot-IsSlot x = refl
