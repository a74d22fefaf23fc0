-- ===== src/DeepCopy/Cluster.antt =====
-- apis/cluster/v1alpha1/zz_generated.deepcopy.go: for each type, DeepCopyInto and then DeepCopy.
use provider_stackrox.Base.{Option, []}
use provider_stackrox.Memory.Heap.{Heap}
use provider_stackrox.Memory.Strings.{copy_strings}
use provider_stackrox.Memory.Cells.{copy_behind, copy_items}
use provider_stackrox.Memory.Foreign.{MemTypes}
use provider_stackrox.Memory.Cluster.{
  SensorDeployment, ClusterParameters, ClusterObservation, ClusterSpec, ClusterStatus, Cluster,
  ClusterList,
}
use provider_stackrox.Memory.Cell.{Cell, strings_slot, clusters_slot}
use provider_stackrox.Memory.Libraries.{MemLib}
use provider_stackrox.DeepCopy.{copy_pointer}

module _ {T : MemTypes} (L : MemLib T) where
  unfoldable pub copy_sensor_deployment :
      SensorDeployment → Heap (Cell T) → SensorDeployment × Heap (Cell T)
  copy_sensor_deployment in_ h = (in_, h)

  unfoldable pub deep_copy_sensor_deployment :
      Option SensorDeployment → Heap (Cell T) → Option SensorDeployment × Heap (Cell T)
  deep_copy_sensor_deployment = copy_pointer copy_sensor_deployment

  unfoldable pub copy_cluster_parameters :
      ClusterParameters → Heap (Cell T) → ClusterParameters × Heap (Cell T)
  copy_cluster_parameters in_ h =
      let (labels', h1) = copy_behind strings_slot [] copy_strings in_.labels h in
      (record in_ { labels = labels' }, h1)

  unfoldable pub deep_copy_cluster_parameters :
      Option ClusterParameters → Heap (Cell T) → Option ClusterParameters × Heap (Cell T)
  deep_copy_cluster_parameters = copy_pointer copy_cluster_parameters

  unfoldable pub copy_cluster_observation :
      ClusterObservation → Heap (Cell T) → ClusterObservation × Heap (Cell T)
  copy_cluster_observation in_ h =
      let (labels', h1) = copy_behind strings_slot [] copy_strings in_.labels h in
      (record in_ { labels = labels' }, h1)

  unfoldable pub deep_copy_cluster_observation :
      Option ClusterObservation → Heap (Cell T) → Option ClusterObservation × Heap (Cell T)
  deep_copy_cluster_observation = copy_pointer copy_cluster_observation

  unfoldable pub copy_cluster_spec : ClusterSpec T → Heap (Cell T) → ClusterSpec T × Heap (Cell T)
  copy_cluster_spec in_ h =
      let (resource_spec', h1) = L.resource_spec.copy_into in_.resource_spec h in
      let (for_provider', h2) = copy_cluster_parameters in_.for_provider h1 in
      (record in_ { resource_spec = resource_spec'; for_provider = for_provider' }, h2)

  unfoldable pub deep_copy_cluster_spec :
      Option (ClusterSpec T) → Heap (Cell T) → Option (ClusterSpec T) × Heap (Cell T)
  deep_copy_cluster_spec = copy_pointer copy_cluster_spec

  unfoldable pub copy_cluster_status :
      ClusterStatus T → Heap (Cell T) → ClusterStatus T × Heap (Cell T)
  copy_cluster_status in_ h =
      let (resource_status', h1) = L.resource_status.copy_into in_.resource_status h in
      let (at_provider', h2) = copy_cluster_observation in_.at_provider h1 in
      (record in_ { resource_status = resource_status'; at_provider = at_provider' }, h2)

  unfoldable pub deep_copy_cluster_status :
      Option (ClusterStatus T) → Heap (Cell T) → Option (ClusterStatus T) × Heap (Cell T)
  deep_copy_cluster_status = copy_pointer copy_cluster_status

  unfoldable pub copy_cluster : Cluster T → Heap (Cell T) → Cluster T × Heap (Cell T)
  copy_cluster in_ h =
      let (object_meta', h1) = L.object_meta.copy_into in_.object_meta h in
      let (spec', h2) = copy_cluster_spec in_.spec h1 in
      let (status', h3) = copy_cluster_status in_.status h2 in
      (record in_ { object_meta = object_meta'; spec = spec'; status = status' }, h3)

  unfoldable pub deep_copy_cluster :
      Option (Cluster T) → Heap (Cell T) → Option (Cluster T) × Heap (Cell T)
  deep_copy_cluster = copy_pointer copy_cluster

  unfoldable pub copy_cluster_list : ClusterList T → Heap (Cell T) → ClusterList T × Heap (Cell T)
  copy_cluster_list in_ h =
      let (list_meta', h1) = L.list_meta.copy_into in_.list_meta h in
      let (items', h2) = copy_behind clusters_slot [] (copy_items copy_cluster) in_.items h1 in
      (record in_ { list_meta = list_meta'; items = items' }, h2)

  unfoldable pub deep_copy_cluster_list :
      Option (ClusterList T) → Heap (Cell T) → Option (ClusterList T) × Heap (Cell T)
  deep_copy_cluster_list = copy_pointer copy_cluster_list
