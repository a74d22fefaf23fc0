-- ===== src/Accessors/Items.antt =====
-- GetItems of apis/cluster/v1alpha1/zz_generated.managedlist.go, of the same file of initbundle, and of
-- apis/v1alpha1/zz_generated.pculist.go: the pointers, without the interface around each.
use provider_stackrox.Base.{List}
use provider_stackrox.Memory.Heap.{Heap}
use provider_stackrox.Memory.Foreign.{MemTypes}
use provider_stackrox.Memory.Cell.{
  Cell, clusters_slot, init_bundles_slot, provider_config_usages_slot,
}
use provider_stackrox.Memory.Cluster.{ClusterList}
use provider_stackrox.Memory.InitBundle.{InitBundleList}
use provider_stackrox.Memory.Config.{ProviderConfigUsageList}
use provider_stackrox.Memory.Items.{Pointer, get_items}

module _ {T : MemTypes} where
  unfoldable pub cluster_items : ClusterList T → Heap (Cell T) → List Pointer
  cluster_items l = get_items clusters_slot l.items

  unfoldable pub init_bundle_items : InitBundleList T → Heap (Cell T) → List Pointer
  init_bundle_items l = get_items init_bundles_slot l.items

  unfoldable pub provider_config_usage_items :
      ProviderConfigUsageList T → Heap (Cell T) → List Pointer
  provider_config_usage_items p = get_items provider_config_usages_slot p.items
