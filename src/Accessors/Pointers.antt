-- ===== src/Accessors/Pointers.antt =====
-- GetItems of the three lists, against the items as they lie in memory.
use provider_stackrox.Memory.Heap.{Heap}
use provider_stackrox.Memory.Foreign.{MemTypes}
use provider_stackrox.Memory.Cell.{
  Cell, clusters_slot, init_bundles_slot, provider_config_usages_slot, clusters_slot-IsSlot,
  init_bundles_slot-IsSlot, provider_config_usages_slot-IsSlot,
}
use provider_stackrox.Memory.Cluster.{ClusterList}
use provider_stackrox.Memory.InitBundle.{InitBundleList}
use provider_stackrox.Memory.Config.{ProviderConfigUsageList}
use provider_stackrox.Memory.Items.{PointsToItems, get_items-PointsToItems}
use provider_stackrox.Accessors.Items.{
  cluster_items, init_bundle_items, provider_config_usage_items,
}

-- GetItems of a ClusterList, of an InitBundleList and of a ProviderConfigUsageList each return one
-- pointer for each item, in their order, and none for a nil slice: the pointer at an index points to
-- the item at that index in the list's own array, a read through it gives this item, and a write
-- through it replaces this item in the list, and no other.
pub items-PointsToItems :
    (T : MemTypes) (clusters : ClusterList T) (bundles : InitBundleList T)
    (usages : ProviderConfigUsageList T) (h : Heap (Cell T))
    → PointsToItems clusters_slot clusters.items h (cluster_items clusters h)
      × PointsToItems init_bundles_slot bundles.items h (init_bundle_items bundles h)
      × PointsToItems provider_config_usages_slot usages.items h
          (provider_config_usage_items usages h)
unfolding cluster_items init_bundle_items provider_config_usage_items
items-PointsToItems T clusters bundles usages h = (
  get_items-PointsToItems clusters_slot (clusters_slot-IsSlot T) clusters.items h,
  get_items-PointsToItems init_bundles_slot (init_bundles_slot-IsSlot T) bundles.items h,
  get_items-PointsToItems provider_config_usages_slot (provider_config_usages_slot-IsSlot T)
      usages.items h,
)
