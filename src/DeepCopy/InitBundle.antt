-- ===== src/DeepCopy/InitBundle.antt =====
-- apis/initbundle/v1alpha1/zz_generated.deepcopy.go: for each type, DeepCopyInto and then DeepCopy.
use provider_stackrox.Base.{Option, none, some, []}
use provider_stackrox.Memory.Heap.{Heap, Addr, alloc, write}
use provider_stackrox.Memory.Strings.{copy_strings}
use provider_stackrox.Memory.Cells.{copy_behind, read, copy_items, copy_all}
use provider_stackrox.Memory.Foreign.{MemTypes}
use provider_stackrox.Memory.InitBundle.{
  ImpactedCluster, User, InitBundleParameters, InitBundleObservation, InitBundleSpec,
  InitBundleStatus, InitBundle, InitBundleList,
}
use provider_stackrox.Memory.Cell.{
  Cell, string_map, strings_slot, impacted_clusters_slot, init_bundles_slot,
}
use provider_stackrox.Memory.Libraries.{MemLib}
use provider_stackrox.DeepCopy.{copy_pointer}

module _ {T : MemTypes} (L : MemLib T) where
  unfoldable pub copy_impacted_cluster :
      ImpactedCluster → Heap (Cell T) → ImpactedCluster × Heap (Cell T)
  copy_impacted_cluster in_ h = (in_, h)

  unfoldable pub deep_copy_impacted_cluster :
      Option ImpactedCluster → Heap (Cell T) → Option ImpactedCluster × Heap (Cell T)
  deep_copy_impacted_cluster = copy_pointer copy_impacted_cluster

  unfoldable pub copy_user : User → Heap (Cell T) → User × Heap (Cell T)
  copy_user in_ h =
      let (attributes', h1) = copy_behind strings_slot [] copy_strings in_.attributes h in
      (record in_ { attributes = attributes' }, h1)

  unfoldable pub deep_copy_user : Option User → Heap (Cell T) → Option User × Heap (Cell T)
  deep_copy_user = copy_pointer copy_user

  unfoldable pub copy_init_bundle_parameters :
      InitBundleParameters → Heap (Cell T) → InitBundleParameters × Heap (Cell T)
  copy_init_bundle_parameters in_ h = (in_, h)

  unfoldable pub deep_copy_init_bundle_parameters :
      Option InitBundleParameters → Heap (Cell T) → Option InitBundleParameters × Heap (Cell T)
  deep_copy_init_bundle_parameters = copy_pointer copy_init_bundle_parameters

  unfoldable pub copy_init_bundle_observation :
      InitBundleObservation T → Heap (Cell T) → InitBundleObservation T × Heap (Cell T)
  copy_init_bundle_observation in_ h =
      let (created_at', h1) = L.time.copy_into in_.created_at h in
      let (created_by', h2) = copy_user in_.created_by h1 in
      let (expires_at', h3) = L.time.copy_into in_.expires_at h2 in
      let (impacted_clusters', h4) =
        copy_behind impacted_clusters_slot [] copy_all in_.impacted_clusters h3 in
      (
        record in_ {
          created_at = created_at';
          created_by = created_by';
          expires_at = expires_at';
          impacted_clusters = impacted_clusters';
        },
        h4,
      )

  unfoldable pub deep_copy_init_bundle_observation :
      Option (InitBundleObservation T)
      → Heap (Cell T)
      → Option (InitBundleObservation T) × Heap (Cell T)
  deep_copy_init_bundle_observation = copy_pointer copy_init_bundle_observation

  unfoldable pub copy_init_bundle_spec :
      InitBundleSpec T → Heap (Cell T) → InitBundleSpec T × Heap (Cell T)
  copy_init_bundle_spec in_ h =
      let (resource_spec', h1) = L.resource_spec.copy_into in_.resource_spec h in
      (record in_ { resource_spec = resource_spec' }, h1)

  unfoldable pub deep_copy_init_bundle_spec :
      Option (InitBundleSpec T) → Heap (Cell T) → Option (InitBundleSpec T) × Heap (Cell T)
  deep_copy_init_bundle_spec = copy_pointer copy_init_bundle_spec

  unfoldable pub copy_init_bundle_status :
      InitBundleStatus T → Heap (Cell T) → InitBundleStatus T × Heap (Cell T)
  copy_init_bundle_status in_ h =
      let (resource_status', h1) = L.resource_status.copy_into in_.resource_status h in
      let (at_provider', h2) = copy_init_bundle_observation in_.at_provider h1 in
      (record in_ { resource_status = resource_status'; at_provider = at_provider' }, h2)

  unfoldable pub deep_copy_init_bundle_status :
      Option (InitBundleStatus T) → Heap (Cell T) → Option (InitBundleStatus T) × Heap (Cell T)
  deep_copy_init_bundle_status = copy_pointer copy_init_bundle_status

  unfoldable pub copy_init_bundle : InitBundle T → Heap (Cell T) → InitBundle T × Heap (Cell T)
  copy_init_bundle in_ h =
      let (object_meta', h1) = L.object_meta.copy_into in_.object_meta h in
      let (spec', h2) = copy_init_bundle_spec in_.spec h1 in
      let (status', h3) = copy_init_bundle_status in_.status h2 in
      (record in_ { object_meta = object_meta'; spec = spec'; status = status' }, h3)

  unfoldable pub deep_copy_init_bundle :
      Option (InitBundle T) → Heap (Cell T) → Option (InitBundle T) × Heap (Cell T)
  deep_copy_init_bundle = copy_pointer copy_init_bundle

  unfoldable pub copy_init_bundle_list :
      InitBundleList T → Heap (Cell T) → InitBundleList T × Heap (Cell T)
  copy_init_bundle_list in_ h =
      let (list_meta', h1) = L.list_meta.copy_into in_.list_meta h in
      let (items', h2) =
        copy_behind init_bundles_slot [] (copy_items copy_init_bundle) in_.items h1 in
      (record in_ { list_meta = list_meta'; items = items' }, h2)

  unfoldable pub deep_copy_init_bundle_list :
      Option (InitBundleList T) → Heap (Cell T) → Option (InitBundleList T) × Heap (Cell T)
  deep_copy_init_bundle_list = copy_pointer copy_init_bundle_list

  -- Attributes.DeepCopyInto, with `out` as the address of the new map; it makes one of a nil map too.
  unfoldable pub copy_attributes : Option Addr → Heap (Cell T) → Addr × Heap (Cell T)
  copy_attributes none h = alloc (string_map []) h
  copy_attributes (some a) h =
      let (b, h1) = alloc (string_map []) h in
      let (m, h2) = copy_strings (read strings_slot a h) h1 in (b, write b (string_map m) h2)

  unfoldable pub deep_copy_attributes : Option Addr → Heap (Cell T) → Option Addr × Heap (Cell T)
  deep_copy_attributes none h = (none, h)
  deep_copy_attributes (some a) h = let (b, h') = copy_attributes (some a) h in (some b, h')
