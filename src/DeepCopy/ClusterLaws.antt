-- ===== src/DeepCopy/ClusterLaws.antt =====
-- apis/cluster/v1alpha1/zz_generated.deepcopy.go: how each type lies in memory, and that its copy is deep.
use provider_stackrox.Base.{none, [], refl}
use provider_stackrox.Memory.Copier.{
  Copier, IsDeep, plain_copier, plain_copier-IsDeep, pair, pair-IsDeep, struct, struct-IsDeep,
  pointer, pointer-IsDeep, elements, elements-IsDeep, strings_copier, strings_copier-IsDeep,
}
use provider_stackrox.Memory.Foreign.{MemTypes}
use provider_stackrox.Memory.Cluster.{
  SensorDeployment, ClusterParameters, ClusterObservation, ClusterSpec, ClusterStatus, Cluster,
  ClusterList,
}
use provider_stackrox.Memory.Cell.{
  Cell, strings_slot, strings_slot-IsSlot, clusters_slot, clusters_slot-IsSlot,
}
use provider_stackrox.Memory.Libraries.{MemLib, IsMemLib}
use provider_stackrox.DeepCopy.Values.{
  ClusterParametersValue, ClusterObservationValue, ClusterSpecValue, ClusterStatusValue,
  ClusterValue, ClusterListValue,
}
use provider_stackrox.DeepCopy.Cluster.{
  copy_sensor_deployment, copy_cluster_parameters, copy_cluster_observation, copy_cluster_spec,
  copy_cluster_status, copy_cluster, copy_cluster_list,
}

module _ {T : MemTypes} (L : MemLib T) where
  abbrev pub sensor_deployment_copier : Copier (Cell T) SensorDeployment SensorDeployment
  sensor_deployment_copier = record {
    layout = plain_copier.layout;
    copy_into = copy_sensor_deployment L;
  }

  abbrev pub cluster_parameters_copier :
      Copier (Cell T) ClusterParameters (ClusterParametersValue T)
  cluster_parameters_copier =
      struct (λ s. s.labels) (λ s v. (record s { labels = none }, v))
        (pointer strings_slot [] strings_copier) (copy_cluster_parameters L)

  abbrev pub cluster_observation_copier :
      Copier (Cell T) ClusterObservation (ClusterObservationValue T)
  cluster_observation_copier =
      struct (λ s. s.labels) (λ s v. (record s { labels = none }, v))
        (pointer strings_slot [] strings_copier) (copy_cluster_observation L)

  abbrev pub cluster_spec_copier : Copier (Cell T) (ClusterSpec T) (ClusterSpecValue T)
  cluster_spec_copier =
      struct (λ s. (s.resource_spec, s.for_provider)) (λ s v. v)
        (pair L.resource_spec cluster_parameters_copier) (copy_cluster_spec L)

  abbrev pub cluster_status_copier : Copier (Cell T) (ClusterStatus T) (ClusterStatusValue T)
  cluster_status_copier =
      struct (λ s. (s.resource_status, s.at_provider)) (λ s v. v)
        (pair L.resource_status cluster_observation_copier) (copy_cluster_status L)

  abbrev pub cluster_copier : Copier (Cell T) (Cluster T) (ClusterValue T)
  cluster_copier =
      struct (λ s. (s.object_meta, (s.spec, s.status))) (λ s v. (s.type_meta, v))
        (pair L.object_meta (pair cluster_spec_copier cluster_status_copier)) (copy_cluster L)

  abbrev pub cluster_list_copier : Copier (Cell T) (ClusterList T) (ClusterListValue T)
  cluster_list_copier =
      struct (λ s. (s.list_meta, s.items)) (λ s v. (s.type_meta, v))
        (pair L.list_meta (pointer clusters_slot [] (elements cluster_copier)))
        (copy_cluster_list L)

  module _ (W : IsMemLib L) where
    pub sensor_deployment_copier-IsDeep : IsDeep sensor_deployment_copier
    unfolding copy_sensor_deployment
    sensor_deployment_copier-IsDeep = plain_copier-IsDeep

    pub cluster_parameters_copier-IsDeep : IsDeep cluster_parameters_copier
    unfolding copy_cluster_parameters
    cluster_parameters_copier-IsDeep =
        struct-IsDeep (λ s. s.labels) (λ s v. (record s { labels = none }, v))
          (copy_cluster_parameters L) (λ s h. refl) (λ s h. refl) (λ s h v. refl)
          (pointer-IsDeep strings_slot [] (strings_slot-IsSlot T) strings_copier-IsDeep)

    pub cluster_observation_copier-IsDeep : IsDeep cluster_observation_copier
    unfolding copy_cluster_observation
    cluster_observation_copier-IsDeep =
        struct-IsDeep (λ s. s.labels) (λ s v. (record s { labels = none }, v))
          (copy_cluster_observation L) (λ s h. refl) (λ s h. refl) (λ s h v. refl)
          (pointer-IsDeep strings_slot [] (strings_slot-IsSlot T) strings_copier-IsDeep)

    pub cluster_spec_copier-IsDeep : IsDeep cluster_spec_copier
    unfolding copy_cluster_spec
    cluster_spec_copier-IsDeep =
        struct-IsDeep (λ s. (s.resource_spec, s.for_provider)) (λ s v. v) (copy_cluster_spec L)
          (λ s h. refl) (λ s h. refl) (λ s h v. refl)
          (pair-IsDeep W.resource_spec-IsDeep cluster_parameters_copier-IsDeep)

    pub cluster_status_copier-IsDeep : IsDeep cluster_status_copier
    unfolding copy_cluster_status
    cluster_status_copier-IsDeep =
        struct-IsDeep (λ s. (s.resource_status, s.at_provider)) (λ s v. v) (copy_cluster_status L)
          (λ s h. refl) (λ s h. refl) (λ s h v. refl)
          (pair-IsDeep W.resource_status-IsDeep cluster_observation_copier-IsDeep)

    pub cluster_copier-IsDeep : IsDeep cluster_copier
    unfolding copy_cluster
    cluster_copier-IsDeep =
        struct-IsDeep (λ s. (s.object_meta, (s.spec, s.status))) (λ s v. (s.type_meta, v))
          (copy_cluster L) (λ s h. refl) (λ s h. refl) (λ s h v. refl)
          (pair-IsDeep W.object_meta-IsDeep
            (pair-IsDeep cluster_spec_copier-IsDeep cluster_status_copier-IsDeep))

    pub cluster_list_copier-IsDeep : IsDeep cluster_list_copier
    unfolding copy_cluster_list
    cluster_list_copier-IsDeep =
        struct-IsDeep (λ s. (s.list_meta, s.items)) (λ s v. (s.type_meta, v)) (copy_cluster_list L)
          (λ s h. refl) (λ s h. refl) (λ s h v. refl)
          (pair-IsDeep W.list_meta-IsDeep (
            pointer-IsDeep clusters_slot [] (clusters_slot-IsSlot T)
              (elements-IsDeep cluster_copier-IsDeep)))
