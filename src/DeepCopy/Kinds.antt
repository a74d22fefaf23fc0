-- ===== src/DeepCopy/Kinds.antt =====
-- Every runtime.Object of the provider: how it lies in memory, and that DeepCopyObject makes a deep
-- copy of it.
use provider_stackrox.Base.{List, ap}
use provider_stackrox.Memory.Heap.{Heap, Addr}
use provider_stackrox.Memory.Layout.{Layout, IsLocal}
use provider_stackrox.Memory.Foreign.{MemTypes}
use provider_stackrox.Memory.Cell.{Cell}
use provider_stackrox.Memory.Libraries.{MemLib, IsMemLib}
use provider_stackrox.DeepCopy.Values.{
  ClusterValue, ClusterListValue, InitBundleValue, InitBundleListValue, ProviderConfigValue,
  ProviderConfigListValue, ProviderConfigUsageValue, ProviderConfigUsageListValue, StoreConfigValue,
  StoreConfigListValue,
}
use provider_stackrox.DeepCopy.ClusterLaws.{
  cluster_copier, cluster_copier-IsDeep, cluster_list_copier, cluster_list_copier-IsDeep,
}
use provider_stackrox.DeepCopy.InitBundleLaws.{
  init_bundle_copier, init_bundle_copier-IsDeep, init_bundle_list_copier,
  init_bundle_list_copier-IsDeep,
}
use provider_stackrox.DeepCopy.ProviderConfigLaws.{
  provider_config_copier, provider_config_copier-IsDeep, provider_config_list_copier,
  provider_config_list_copier-IsDeep, provider_config_usage_copier,
  provider_config_usage_copier-IsDeep, provider_config_usage_list_copier,
  provider_config_usage_list_copier-IsDeep,
}
use provider_stackrox.DeepCopy.StoreConfigLaws.{
  store_config_copier, store_config_copier-IsDeep, store_config_list_copier,
  store_config_list_copier-IsDeep,
}
use provider_stackrox.DeepCopy.Object.{
  Object, cluster, cluster_list, init_bundle, init_bundle_list, provider_config,
  provider_config_list, provider_config_usage, provider_config_usage_list, store_config,
  store_config_list,
}

pub data ObjectValue (T : MemTypes) : Type 0 where
  cluster_value : ClusterValue T → ObjectValue T
  cluster_list_value : ClusterListValue T → ObjectValue T
  init_bundle_value : InitBundleValue T → ObjectValue T
  init_bundle_list_value : InitBundleListValue T → ObjectValue T
  provider_config_value : ProviderConfigValue T → ObjectValue T
  provider_config_list_value : ProviderConfigListValue T → ObjectValue T
  provider_config_usage_value : ProviderConfigUsageValue T → ObjectValue T
  provider_config_usage_list_value : ProviderConfigUsageListValue T → ObjectValue T
  store_config_value : StoreConfigValue T → ObjectValue T
  store_config_list_value : StoreConfigListValue T → ObjectValue T

module _ {T : MemTypes} (L : MemLib T) where
  unfoldable pub object_view : Object T → Heap (Cell T) → ObjectValue T
  object_view (cluster x) h = cluster_value ((cluster_copier L).layout.view x h)
  object_view (cluster_list x) h = cluster_list_value ((cluster_list_copier L).layout.view x h)
  object_view (init_bundle x) h = init_bundle_value ((init_bundle_copier L).layout.view x h)
  object_view (init_bundle_list x) h =
      init_bundle_list_value ((init_bundle_list_copier L).layout.view x h)
  object_view (provider_config x) h =
      provider_config_value ((provider_config_copier L).layout.view x h)
  object_view (provider_config_list x) h =
      provider_config_list_value ((provider_config_list_copier L).layout.view x h)
  object_view (provider_config_usage x) h =
      provider_config_usage_value ((provider_config_usage_copier L).layout.view x h)
  object_view (provider_config_usage_list x) h =
      provider_config_usage_list_value ((provider_config_usage_list_copier L).layout.view x h)
  object_view (store_config x) h = store_config_value ((store_config_copier L).layout.view x h)
  object_view (store_config_list x) h =
      store_config_list_value ((store_config_list_copier L).layout.view x h)

  unfoldable pub object_refs : Object T → Heap (Cell T) → List Addr
  object_refs (cluster x) h = (cluster_copier L).layout.refs x h
  object_refs (cluster_list x) h = (cluster_list_copier L).layout.refs x h
  object_refs (init_bundle x) h = (init_bundle_copier L).layout.refs x h
  object_refs (init_bundle_list x) h = (init_bundle_list_copier L).layout.refs x h
  object_refs (provider_config x) h = (provider_config_copier L).layout.refs x h
  object_refs (provider_config_list x) h = (provider_config_list_copier L).layout.refs x h
  object_refs (provider_config_usage x) h = (provider_config_usage_copier L).layout.refs x h
  object_refs (provider_config_usage_list x) h =
      (provider_config_usage_list_copier L).layout.refs x h
  object_refs (store_config x) h = (store_config_copier L).layout.refs x h
  object_refs (store_config_list x) h = (store_config_list_copier L).layout.refs x h

  abbrev pub object_layout : Layout (Cell T) (Object T) (ObjectValue T)
  object_layout = record { view = object_view; refs = object_refs }

  module _ (W : IsMemLib L) where
    pub object_layout-IsLocal : IsLocal object_layout
    unfolding object_view object_refs
    object_layout-IsLocal (cluster x) h h' agree =
        let p = (cluster_copier-IsDeep L W).is_local x h h' agree in (ap cluster_value p.0, p.1)
    object_layout-IsLocal (cluster_list x) h h' agree =
        let p = (cluster_list_copier-IsDeep L W).is_local x h h' agree in
        (ap cluster_list_value p.0, p.1)
    object_layout-IsLocal (init_bundle x) h h' agree =
        let p = (init_bundle_copier-IsDeep L W).is_local x h h' agree in
        (ap init_bundle_value p.0, p.1)
    object_layout-IsLocal (init_bundle_list x) h h' agree =
        let p = (init_bundle_list_copier-IsDeep L W).is_local x h h' agree in
        (ap init_bundle_list_value p.0, p.1)
    object_layout-IsLocal (provider_config x) h h' agree =
        let p = (provider_config_copier-IsDeep L W).is_local x h h' agree in
        (ap provider_config_value p.0, p.1)
    object_layout-IsLocal (provider_config_list x) h h' agree =
        let p = (provider_config_list_copier-IsDeep L W).is_local x h h' agree in
        (ap provider_config_list_value p.0, p.1)
    object_layout-IsLocal (provider_config_usage x) h h' agree =
        let p = (provider_config_usage_copier-IsDeep L W).is_local x h h' agree in
        (ap provider_config_usage_value p.0, p.1)
    object_layout-IsLocal (provider_config_usage_list x) h h' agree =
        let p = (provider_config_usage_list_copier-IsDeep L W).is_local x h h' agree in
        (ap provider_config_usage_list_value p.0, p.1)
    object_layout-IsLocal (store_config x) h h' agree =
        let p = (store_config_copier-IsDeep L W).is_local x h h' agree in
        (ap store_config_value p.0, p.1)
    object_layout-IsLocal (store_config_list x) h h' agree =
        let p = (store_config_list_copier-IsDeep L W).is_local x h h' agree in
        (ap store_config_list_value p.0, p.1)
