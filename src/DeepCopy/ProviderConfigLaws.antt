-- ===== src/DeepCopy/ProviderConfigLaws.antt =====
-- apis/v1alpha1/zz_generated.deepcopy.go: how each type lies in memory, and that its copy is deep.
use provider_stackrox.Base.{[], refl}
use provider_stackrox.Memory.Copier.{
  Copier, IsDeep, pair, pair-IsDeep, struct, struct-IsDeep, pointer, pointer-IsDeep, elements,
  elements-IsDeep,
}
use provider_stackrox.Memory.Foreign.{MemTypes}
use provider_stackrox.Memory.Config.{
  ProviderCredentials, ProviderConfigSpec, ProviderConfigStatus, ProviderConfig, ProviderConfigList,
  ProviderConfigUsage, ProviderConfigUsageList,
}
use provider_stackrox.Memory.Cell.{
  Cell, provider_configs_slot, provider_configs_slot-IsSlot, provider_config_usages_slot,
  provider_config_usages_slot-IsSlot,
}
use provider_stackrox.Memory.Libraries.{MemLib, IsMemLib}
use provider_stackrox.DeepCopy.Values.{
  ProviderCredentialsValue, ProviderConfigSpecValue, ProviderConfigStatusValue, ProviderConfigValue,
  ProviderConfigListValue, ProviderConfigUsageValue, ProviderConfigUsageListValue,
}
use provider_stackrox.DeepCopy.Config.{
  copy_provider_credentials, copy_provider_config_spec, copy_provider_config_status,
  copy_provider_config, copy_provider_config_list, copy_provider_config_usage,
  copy_provider_config_usage_list,
}

module _ {T : MemTypes} (L : MemLib T) where
  abbrev pub provider_credentials_copier :
      Copier (Cell T) (ProviderCredentials T) (ProviderCredentialsValue T)
  provider_credentials_copier =
      struct (λ s. s.common_credential_selectors) (λ s v. (s.source, v))
        L.common_credential_selectors (copy_provider_credentials L)

  abbrev pub provider_config_spec_copier :
      Copier (Cell T) (ProviderConfigSpec T) (ProviderConfigSpecValue T)
  provider_config_spec_copier =
      struct (λ s. s.credentials) (λ s v. (s.endpoint, v)) provider_credentials_copier
        (copy_provider_config_spec L)

  abbrev pub provider_config_status_copier :
      Copier (Cell T) (ProviderConfigStatus T) (ProviderConfigStatusValue T)
  provider_config_status_copier =
      struct (λ s. s.provider_config_status) (λ s v. v) L.users_status
        (copy_provider_config_status L)

  abbrev pub provider_config_copier : Copier (Cell T) (ProviderConfig T) (ProviderConfigValue T)
  provider_config_copier =
      struct (λ s. (s.object_meta, (s.spec, s.status))) (λ s v. (s.type_meta, v))
        (pair L.object_meta (pair provider_config_spec_copier provider_config_status_copier))
        (copy_provider_config L)

  abbrev pub provider_config_list_copier :
      Copier (Cell T) (ProviderConfigList T) (ProviderConfigListValue T)
  provider_config_list_copier =
      struct (λ s. (s.list_meta, s.items)) (λ s v. (s.type_meta, v))
        (pair L.list_meta (pointer provider_configs_slot [] (elements provider_config_copier)))
        (copy_provider_config_list L)

  abbrev pub provider_config_usage_copier :
      Copier (Cell T) (ProviderConfigUsage T) (ProviderConfigUsageValue T)
  provider_config_usage_copier =
      struct (λ s. (s.object_meta, s.provider_config_usage)) (λ s v. (s.type_meta, v))
        (pair L.object_meta L.usage) (copy_provider_config_usage L)

  abbrev pub provider_config_usage_list_copier :
      Copier (Cell T) (ProviderConfigUsageList T) (ProviderConfigUsageListValue T)
  provider_config_usage_list_copier =
      struct (λ s. (s.list_meta, s.items)) (λ s v. (s.type_meta, v))
        (pair L.list_meta
          (pointer provider_config_usages_slot [] (elements provider_config_usage_copier)))
        (copy_provider_config_usage_list L)

  module _ (W : IsMemLib L) where
    pub provider_credentials_copier-IsDeep : IsDeep provider_credentials_copier
    unfolding copy_provider_credentials
    provider_credentials_copier-IsDeep =
        struct-IsDeep (λ s. s.common_credential_selectors) (λ s v. (s.source, v))
          (copy_provider_credentials L) (λ s h. refl) (λ s h. refl) (λ s h v. refl)
          W.common_credential_selectors-IsDeep

    pub provider_config_spec_copier-IsDeep : IsDeep provider_config_spec_copier
    unfolding copy_provider_config_spec
    provider_config_spec_copier-IsDeep =
        struct-IsDeep (λ s. s.credentials) (λ s v. (s.endpoint, v)) (copy_provider_config_spec L)
          (λ s h. refl) (λ s h. refl) (λ s h v. refl) provider_credentials_copier-IsDeep

    pub provider_config_status_copier-IsDeep : IsDeep provider_config_status_copier
    unfolding copy_provider_config_status
    provider_config_status_copier-IsDeep =
        struct-IsDeep (λ s. s.provider_config_status) (λ s v. v) (copy_provider_config_status L)
          (λ s h. refl) (λ s h. refl) (λ s h v. refl) W.users_status-IsDeep

    pub provider_config_copier-IsDeep : IsDeep provider_config_copier
    unfolding copy_provider_config
    provider_config_copier-IsDeep =
        struct-IsDeep (λ s. (s.object_meta, (s.spec, s.status))) (λ s v. (s.type_meta, v))
          (copy_provider_config L) (λ s h. refl) (λ s h. refl) (λ s h v. refl)
          (pair-IsDeep W.object_meta-IsDeep
            (pair-IsDeep provider_config_spec_copier-IsDeep provider_config_status_copier-IsDeep))

    pub provider_config_list_copier-IsDeep : IsDeep provider_config_list_copier
    unfolding copy_provider_config_list
    provider_config_list_copier-IsDeep =
        struct-IsDeep (λ s. (s.list_meta, s.items)) (λ s v. (s.type_meta, v))
          (copy_provider_config_list L) (λ s h. refl) (λ s h. refl) (λ s h v. refl)
          (pair-IsDeep W.list_meta-IsDeep (
            pointer-IsDeep provider_configs_slot [] (provider_configs_slot-IsSlot T)
              (elements-IsDeep provider_config_copier-IsDeep)))

    pub provider_config_usage_copier-IsDeep : IsDeep provider_config_usage_copier
    unfolding copy_provider_config_usage
    provider_config_usage_copier-IsDeep =
        struct-IsDeep (λ s. (s.object_meta, s.provider_config_usage)) (λ s v. (s.type_meta, v))
          (copy_provider_config_usage L) (λ s h. refl) (λ s h. refl) (λ s h v. refl)
          (pair-IsDeep W.object_meta-IsDeep W.usage-IsDeep)

    pub provider_config_usage_list_copier-IsDeep : IsDeep provider_config_usage_list_copier
    unfolding copy_provider_config_usage_list
    provider_config_usage_list_copier-IsDeep =
        struct-IsDeep (λ s. (s.list_meta, s.items)) (λ s v. (s.type_meta, v))
          (copy_provider_config_usage_list L) (λ s h. refl) (λ s h. refl) (λ s h v. refl)
          (pair-IsDeep W.list_meta-IsDeep (
            pointer-IsDeep provider_config_usages_slot [] (provider_config_usages_slot-IsSlot T)
              (elements-IsDeep provider_config_usage_copier-IsDeep)))
