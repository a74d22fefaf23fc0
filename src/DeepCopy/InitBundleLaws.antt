-- ===== src/DeepCopy/InitBundleLaws.antt =====
-- apis/initbundle/v1alpha1/zz_generated.deepcopy.go: how each type lies in memory, and that its copy is deep.
use provider_stackrox.Base.{none, [], refl}
use provider_stackrox.Memory.Copier.{
  Copier, IsDeep, plain_copier, plain_copier-IsDeep, pair, pair-IsDeep, struct, struct-IsDeep,
  pointer, pointer-IsDeep, elements, elements-IsDeep, all_copier, all_copier-IsDeep, strings_copier,
  strings_copier-IsDeep,
}
use provider_stackrox.Memory.Foreign.{MemTypes}
use provider_stackrox.Memory.InitBundle.{
  ImpactedCluster, User, InitBundleParameters, InitBundleObservation, InitBundleSpec,
  InitBundleStatus, InitBundle, InitBundleList,
}
use provider_stackrox.Memory.Cell.{
  Cell, strings_slot, strings_slot-IsSlot, impacted_clusters_slot, impacted_clusters_slot-IsSlot,
  init_bundles_slot, init_bundles_slot-IsSlot,
}
use provider_stackrox.Memory.Libraries.{MemLib, IsMemLib}
use provider_stackrox.DeepCopy.Values.{
  UserValue, InitBundleObservationValue, InitBundleSpecValue, InitBundleStatusValue,
  InitBundleValue, InitBundleListValue,
}
use provider_stackrox.DeepCopy.InitBundle.{
  copy_impacted_cluster, copy_user, copy_init_bundle_parameters, copy_init_bundle_observation,
  copy_init_bundle_spec, copy_init_bundle_status, copy_init_bundle, copy_init_bundle_list,
}

module _ {T : MemTypes} (L : MemLib T) where
  abbrev pub impacted_cluster_copier : Copier (Cell T) ImpactedCluster ImpactedCluster
  impacted_cluster_copier = record {
    layout = plain_copier.layout;
    copy_into = copy_impacted_cluster L;
  }

  abbrev pub user_copier : Copier (Cell T) User (UserValue T)
  user_copier =
      struct (λ s. s.attributes) (λ s v. (record s { attributes = none }, v))
        (pointer strings_slot [] strings_copier) (copy_user L)

  abbrev pub init_bundle_parameters_copier :
      Copier (Cell T) InitBundleParameters InitBundleParameters
  init_bundle_parameters_copier = record {
    layout = plain_copier.layout;
    copy_into = copy_init_bundle_parameters L;
  }

  abbrev pub init_bundle_observation_copier :
      Copier (Cell T) (InitBundleObservation T) (InitBundleObservationValue T)
  init_bundle_observation_copier =
      struct (λ s. (s.created_at, (s.created_by, (s.expires_at, s.impacted_clusters))))
        (λ s v. (s.id, s.name, v))
        (pair L.time
          (pair user_copier (pair L.time (pointer impacted_clusters_slot [] all_copier))))
        (copy_init_bundle_observation L)

  abbrev pub init_bundle_spec_copier : Copier (Cell T) (InitBundleSpec T) (InitBundleSpecValue T)
  init_bundle_spec_copier =
      struct (λ s. s.resource_spec) (λ s v. (s.for_provider, v)) L.resource_spec
        (copy_init_bundle_spec L)

  abbrev pub init_bundle_status_copier :
      Copier (Cell T) (InitBundleStatus T) (InitBundleStatusValue T)
  init_bundle_status_copier =
      struct (λ s. (s.resource_status, s.at_provider)) (λ s v. v)
        (pair L.resource_status init_bundle_observation_copier) (copy_init_bundle_status L)

  abbrev pub init_bundle_copier : Copier (Cell T) (InitBundle T) (InitBundleValue T)
  init_bundle_copier =
      struct (λ s. (s.object_meta, (s.spec, s.status))) (λ s v. (s.type_meta, v))
        (pair L.object_meta (pair init_bundle_spec_copier init_bundle_status_copier))
        (copy_init_bundle L)

  abbrev pub init_bundle_list_copier : Copier (Cell T) (InitBundleList T) (InitBundleListValue T)
  init_bundle_list_copier =
      struct (λ s. (s.list_meta, s.items)) (λ s v. (s.type_meta, v))
        (pair L.list_meta (pointer init_bundles_slot [] (elements init_bundle_copier)))
        (copy_init_bundle_list L)

  module _ (W : IsMemLib L) where
    pub impacted_cluster_copier-IsDeep : IsDeep impacted_cluster_copier
    unfolding copy_impacted_cluster
    impacted_cluster_copier-IsDeep = plain_copier-IsDeep

    pub user_copier-IsDeep : IsDeep user_copier
    unfolding copy_user
    user_copier-IsDeep =
        struct-IsDeep (λ s. s.attributes) (λ s v. (record s { attributes = none }, v)) (copy_user L)
          (λ s h. refl) (λ s h. refl) (λ s h v. refl)
          (pointer-IsDeep strings_slot [] (strings_slot-IsSlot T) strings_copier-IsDeep)

    pub init_bundle_parameters_copier-IsDeep : IsDeep init_bundle_parameters_copier
    unfolding copy_init_bundle_parameters
    init_bundle_parameters_copier-IsDeep = plain_copier-IsDeep

    pub init_bundle_observation_copier-IsDeep : IsDeep init_bundle_observation_copier
    unfolding copy_init_bundle_observation
    init_bundle_observation_copier-IsDeep =
        struct-IsDeep (λ s. (s.created_at, (s.created_by, (s.expires_at, s.impacted_clusters))))
          (λ s v. (s.id, s.name, v)) (copy_init_bundle_observation L) (λ s h. refl) (λ s h. refl)
          (λ s h v. refl)
          (pair-IsDeep W.time-IsDeep (
            pair-IsDeep user_copier-IsDeep (
              pair-IsDeep W.time-IsDeep (
                pointer-IsDeep impacted_clusters_slot [] (impacted_clusters_slot-IsSlot T)
                  all_copier-IsDeep))))

    pub init_bundle_spec_copier-IsDeep : IsDeep init_bundle_spec_copier
    unfolding copy_init_bundle_spec
    init_bundle_spec_copier-IsDeep =
        struct-IsDeep (λ s. s.resource_spec) (λ s v. (s.for_provider, v)) (copy_init_bundle_spec L)
          (λ s h. refl) (λ s h. refl) (λ s h v. refl) W.resource_spec-IsDeep

    pub init_bundle_status_copier-IsDeep : IsDeep init_bundle_status_copier
    unfolding copy_init_bundle_status
    init_bundle_status_copier-IsDeep =
        struct-IsDeep (λ s. (s.resource_status, s.at_provider)) (λ s v. v)
          (copy_init_bundle_status L) (λ s h. refl) (λ s h. refl) (λ s h v. refl)
          (pair-IsDeep W.resource_status-IsDeep init_bundle_observation_copier-IsDeep)

    pub init_bundle_copier-IsDeep : IsDeep init_bundle_copier
    unfolding copy_init_bundle
    init_bundle_copier-IsDeep =
        struct-IsDeep (λ s. (s.object_meta, (s.spec, s.status))) (λ s v. (s.type_meta, v))
          (copy_init_bundle L) (λ s h. refl) (λ s h. refl) (λ s h v. refl)
          (pair-IsDeep W.object_meta-IsDeep
            (pair-IsDeep init_bundle_spec_copier-IsDeep init_bundle_status_copier-IsDeep))

    pub init_bundle_list_copier-IsDeep : IsDeep init_bundle_list_copier
    unfolding copy_init_bundle_list
    init_bundle_list_copier-IsDeep =
        struct-IsDeep (λ s. (s.list_meta, s.items)) (λ s v. (s.type_meta, v))
          (copy_init_bundle_list L) (λ s h. refl) (λ s h. refl) (λ s h v. refl)
          (pair-IsDeep W.list_meta-IsDeep (
            pointer-IsDeep init_bundles_slot [] (init_bundles_slot-IsSlot T)
              (elements-IsDeep init_bundle_copier-IsDeep)))
