-- ===== src/DeepCopy/Config.antt =====
-- apis/v1alpha1/zz_generated.deepcopy.go: for each type, DeepCopyInto and then DeepCopy.
use provider_stackrox.Base.{Option, []}
use provider_stackrox.Memory.Heap.{Heap}
use provider_stackrox.Memory.Cells.{copy_behind, copy_items}
use provider_stackrox.Memory.Foreign.{MemTypes}
use provider_stackrox.Memory.Config.{
  ProviderCredentials, ProviderConfigSpec, ProviderConfigStatus, ProviderConfig, ProviderConfigList,
  ProviderConfigUsage, ProviderConfigUsageList, StoreConfigSpec, StoreConfigStatus, StoreConfig,
  StoreConfigList,
}
use provider_stackrox.Memory.Cell.{
  Cell, provider_configs_slot, provider_config_usages_slot, store_configs_slot,
}
use provider_stackrox.Memory.Libraries.{MemLib}
use provider_stackrox.DeepCopy.{copy_pointer}

module _ {T : MemTypes} (L : MemLib T) where
  unfoldable pub copy_provider_credentials :
      ProviderCredentials T → Heap (Cell T) → ProviderCredentials T × Heap (Cell T)
  copy_provider_credentials in_ h =
      let (common_credential_selectors', h1) =
        L.common_credential_selectors.copy_into in_.common_credential_selectors h in
      (record in_ { common_credential_selectors = common_credential_selectors' }, h1)

  unfoldable pub deep_copy_provider_credentials :
      Option (ProviderCredentials T)
      → Heap (Cell T)
      → Option (ProviderCredentials T) × Heap (Cell T)
  deep_copy_provider_credentials = copy_pointer copy_provider_credentials

  unfoldable pub copy_provider_config_spec :
      ProviderConfigSpec T → Heap (Cell T) → ProviderConfigSpec T × Heap (Cell T)
  copy_provider_config_spec in_ h =
      let (credentials', h1) = copy_provider_credentials in_.credentials h in
      (record in_ { credentials = credentials' }, h1)

  unfoldable pub deep_copy_provider_config_spec :
      Option (ProviderConfigSpec T) → Heap (Cell T) → Option (ProviderConfigSpec T) × Heap (Cell T)
  deep_copy_provider_config_spec = copy_pointer copy_provider_config_spec

  unfoldable pub copy_provider_config_status :
      ProviderConfigStatus T → Heap (Cell T) → ProviderConfigStatus T × Heap (Cell T)
  copy_provider_config_status in_ h =
      let (provider_config_status', h1) = L.users_status.copy_into in_.provider_config_status h in
      (record in_ { provider_config_status = provider_config_status' }, h1)

  unfoldable pub deep_copy_provider_config_status :
      Option (ProviderConfigStatus T)
      → Heap (Cell T)
      → Option (ProviderConfigStatus T) × Heap (Cell T)
  deep_copy_provider_config_status = copy_pointer copy_provider_config_status

  unfoldable pub copy_provider_config :
      ProviderConfig T → Heap (Cell T) → ProviderConfig T × Heap (Cell T)
  copy_provider_config in_ h =
      let (object_meta', h1) = L.object_meta.copy_into in_.object_meta h in
      let (spec', h2) = copy_provider_config_spec in_.spec h1 in
      let (status', h3) = copy_provider_config_status in_.status h2 in
      (record in_ { object_meta = object_meta'; spec = spec'; status = status' }, h3)

  unfoldable pub deep_copy_provider_config :
      Option (ProviderConfig T) → Heap (Cell T) → Option (ProviderConfig T) × Heap (Cell T)
  deep_copy_provider_config = copy_pointer copy_provider_config

  unfoldable pub copy_provider_config_list :
      ProviderConfigList T → Heap (Cell T) → ProviderConfigList T × Heap (Cell T)
  copy_provider_config_list in_ h =
      let (list_meta', h1) = L.list_meta.copy_into in_.list_meta h in
      let (items', h2) =
        copy_behind provider_configs_slot [] (copy_items copy_provider_config) in_.items h1 in
      (record in_ { list_meta = list_meta'; items = items' }, h2)

  unfoldable pub deep_copy_provider_config_list :
      Option (ProviderConfigList T) → Heap (Cell T) → Option (ProviderConfigList T) × Heap (Cell T)
  deep_copy_provider_config_list = copy_pointer copy_provider_config_list

  unfoldable pub copy_provider_config_usage :
      ProviderConfigUsage T → Heap (Cell T) → ProviderConfigUsage T × Heap (Cell T)
  copy_provider_config_usage in_ h =
      let (object_meta', h1) = L.object_meta.copy_into in_.object_meta h in
      let (provider_config_usage', h2) = L.usage.copy_into in_.provider_config_usage h1 in
      (
        record in_ { object_meta = object_meta'; provider_config_usage = provider_config_usage' },
        h2,
      )

  unfoldable pub deep_copy_provider_config_usage :
      Option (ProviderConfigUsage T)
      → Heap (Cell T)
      → Option (ProviderConfigUsage T) × Heap (Cell T)
  deep_copy_provider_config_usage = copy_pointer copy_provider_config_usage

  unfoldable pub copy_provider_config_usage_list :
      ProviderConfigUsageList T → Heap (Cell T) → ProviderConfigUsageList T × Heap (Cell T)
  copy_provider_config_usage_list in_ h =
      let (list_meta', h1) = L.list_meta.copy_into in_.list_meta h in
      let (items', h2) =
        copy_behind provider_config_usages_slot [] (copy_items copy_provider_config_usage) in_.items
          h1 in
      (record in_ { list_meta = list_meta'; items = items' }, h2)

  unfoldable pub deep_copy_provider_config_usage_list :
      Option (ProviderConfigUsageList T)
      → Heap (Cell T)
      → Option (ProviderConfigUsageList T) × Heap (Cell T)
  deep_copy_provider_config_usage_list = copy_pointer copy_provider_config_usage_list

  unfoldable pub copy_store_config_spec :
      StoreConfigSpec T → Heap (Cell T) → StoreConfigSpec T × Heap (Cell T)
  copy_store_config_spec in_ h =
      let (secret_store_config', h1) = L.secret_store_config.copy_into in_.secret_store_config h in
      (record in_ { secret_store_config = secret_store_config' }, h1)

  unfoldable pub deep_copy_store_config_spec :
      Option (StoreConfigSpec T) → Heap (Cell T) → Option (StoreConfigSpec T) × Heap (Cell T)
  deep_copy_store_config_spec = copy_pointer copy_store_config_spec

  unfoldable pub copy_store_config_status :
      StoreConfigStatus T → Heap (Cell T) → StoreConfigStatus T × Heap (Cell T)
  copy_store_config_status in_ h =
      let (conditioned_status', h1) = L.conditioned_status.copy_into in_.conditioned_status h in
      (record in_ { conditioned_status = conditioned_status' }, h1)

  unfoldable pub deep_copy_store_config_status :
      Option (StoreConfigStatus T) → Heap (Cell T) → Option (StoreConfigStatus T) × Heap (Cell T)
  deep_copy_store_config_status = copy_pointer copy_store_config_status

  unfoldable pub copy_store_config : StoreConfig T → Heap (Cell T) → StoreConfig T × Heap (Cell T)
  copy_store_config in_ h =
      let (object_meta', h1) = L.object_meta.copy_into in_.object_meta h in
      let (spec', h2) = copy_store_config_spec in_.spec h1 in
      let (status', h3) = copy_store_config_status in_.status h2 in
      (record in_ { object_meta = object_meta'; spec = spec'; status = status' }, h3)

  unfoldable pub deep_copy_store_config :
      Option (StoreConfig T) → Heap (Cell T) → Option (StoreConfig T) × Heap (Cell T)
  deep_copy_store_config = copy_pointer copy_store_config

  unfoldable pub copy_store_config_list :
      StoreConfigList T → Heap (Cell T) → StoreConfigList T × Heap (Cell T)
  copy_store_config_list in_ h =
      let (list_meta', h1) = L.list_meta.copy_into in_.list_meta h in
      let (items', h2) =
        copy_behind store_configs_slot [] (copy_items copy_store_config) in_.items h1 in
      (record in_ { list_meta = list_meta'; items = items' }, h2)

  unfoldable pub deep_copy_store_config_list :
      Option (StoreConfigList T) → Heap (Cell T) → Option (StoreConfigList T) × Heap (Cell T)
  deep_copy_store_config_list = copy_pointer copy_store_config_list
