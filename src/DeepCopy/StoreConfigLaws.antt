-- ===== src/DeepCopy/StoreConfigLaws.antt =====
-- apis/v1alpha1/zz_generated.deepcopy.go: how each type lies in memory, and that its copy is deep.
use provider_stackrox.Base.{[], refl}
use provider_stackrox.Memory.Copier.{
  Copier, IsDeep, pair, pair-IsDeep, struct, struct-IsDeep, pointer, pointer-IsDeep, elements,
  elements-IsDeep,
}
use provider_stackrox.Memory.Foreign.{MemTypes}
use provider_stackrox.Memory.Config.{
  StoreConfigSpec, StoreConfigStatus, StoreConfig, StoreConfigList,
}
use provider_stackrox.Memory.Cell.{Cell, store_configs_slot, store_configs_slot-IsSlot}
use provider_stackrox.Memory.Libraries.{MemLib, IsMemLib}
use provider_stackrox.DeepCopy.Values.{
  StoreConfigSpecValue, StoreConfigStatusValue, StoreConfigValue, StoreConfigListValue,
}
use provider_stackrox.DeepCopy.Config.{
  copy_store_config_spec, copy_store_config_status, copy_store_config, copy_store_config_list,
}

module _ {T : MemTypes} (L : MemLib T) where
  abbrev pub store_config_spec_copier : Copier (Cell T) (StoreConfigSpec T) (StoreConfigSpecValue T)
  store_config_spec_copier =
      struct (λ s. s.secret_store_config) (λ s v. v) L.secret_store_config
        (copy_store_config_spec L)

  abbrev pub store_config_status_copier :
      Copier (Cell T) (StoreConfigStatus T) (StoreConfigStatusValue T)
  store_config_status_copier =
      struct (λ s. s.conditioned_status) (λ s v. v) L.conditioned_status
        (copy_store_config_status L)

  abbrev pub store_config_copier : Copier (Cell T) (StoreConfig T) (StoreConfigValue T)
  store_config_copier =
      struct (λ s. (s.object_meta, (s.spec, s.status))) (λ s v. (s.type_meta, v))
        (pair L.object_meta (pair store_config_spec_copier store_config_status_copier))
        (copy_store_config L)

  abbrev pub store_config_list_copier : Copier (Cell T) (StoreConfigList T) (StoreConfigListValue T)
  store_config_list_copier =
      struct (λ s. (s.list_meta, s.items)) (λ s v. (s.type_meta, v))
        (pair L.list_meta (pointer store_configs_slot [] (elements store_config_copier)))
        (copy_store_config_list L)

  module _ (W : IsMemLib L) where
    pub store_config_spec_copier-IsDeep : IsDeep store_config_spec_copier
    unfolding copy_store_config_spec
    store_config_spec_copier-IsDeep =
        struct-IsDeep (λ s. s.secret_store_config) (λ s v. v) (copy_store_config_spec L)
          (λ s h. refl) (λ s h. refl) (λ s h v. refl) W.secret_store_config-IsDeep

    pub store_config_status_copier-IsDeep : IsDeep store_config_status_copier
    unfolding copy_store_config_status
    store_config_status_copier-IsDeep =
        struct-IsDeep (λ s. s.conditioned_status) (λ s v. v) (copy_store_config_status L)
          (λ s h. refl) (λ s h. refl) (λ s h v. refl) W.conditioned_status-IsDeep

    pub store_config_copier-IsDeep : IsDeep store_config_copier
    unfolding copy_store_config
    store_config_copier-IsDeep =
        struct-IsDeep (λ s. (s.object_meta, (s.spec, s.status))) (λ s v. (s.type_meta, v))
          (copy_store_config L) (λ s h. refl) (λ s h. refl) (λ s h v. refl)
          (pair-IsDeep W.object_meta-IsDeep
            (pair-IsDeep store_config_spec_copier-IsDeep store_config_status_copier-IsDeep))

    pub store_config_list_copier-IsDeep : IsDeep store_config_list_copier
    unfolding copy_store_config_list
    store_config_list_copier-IsDeep =
        struct-IsDeep (λ s. (s.list_meta, s.items)) (λ s v. (s.type_meta, v))
          (copy_store_config_list L) (λ s h. refl) (λ s h. refl) (λ s h v. refl)
          (pair-IsDeep W.list_meta-IsDeep (
            pointer-IsDeep store_configs_slot [] (store_configs_slot-IsSlot T)
              (elements-IsDeep store_config_copier-IsDeep)))
