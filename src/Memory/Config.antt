-- ===== src/Memory/Config.antt =====
-- apis/v1alpha1/providerconfig_types.go, providerconfigusage_types.go and storeconfig_types.go, the
-- structs in memory.
use provider_stackrox.Base.{String, Option}
use provider_stackrox.Memory.Heap.{Addr}
use provider_stackrox.Memory.Foreign.{MemTypes}

pub record ProviderCredentials (T : MemTypes) : Type 0 where
  pub source : T.CredentialsSource
  pub common_credential_selectors : T.CommonCredentialSelectors

pub record ProviderConfigSpec (T : MemTypes) : Type 0 where
  pub credentials : ProviderCredentials T
  pub endpoint : String

pub record ProviderConfigStatus (T : MemTypes) : Type 0 where
  pub provider_config_status : T.UsersStatus

pub record ProviderConfig (T : MemTypes) : Type 0 where
  pub type_meta : T.TypeMeta
  pub object_meta : T.ObjectMeta
  pub spec : ProviderConfigSpec T
  pub status : ProviderConfigStatus T

pub record ProviderConfigList (T : MemTypes) : Type 0 where
  pub type_meta : T.TypeMeta
  pub list_meta : T.ListMeta
  pub items : Option Addr

pub record ProviderConfigUsage (T : MemTypes) : Type 0 where
  pub type_meta : T.TypeMeta
  pub object_meta : T.ObjectMeta
  pub provider_config_usage : T.Usage

pub record ProviderConfigUsageList (T : MemTypes) : Type 0 where
  pub type_meta : T.TypeMeta
  pub list_meta : T.ListMeta
  pub items : Option Addr

pub record StoreConfigSpec (T : MemTypes) : Type 0 where
  pub secret_store_config : T.SecretStoreConfig

pub record StoreConfigStatus (T : MemTypes) : Type 0 where
  pub conditioned_status : T.ConditionedStatus

pub record StoreConfig (T : MemTypes) : Type 0 where
  pub type_meta : T.TypeMeta
  pub object_meta : T.ObjectMeta
  pub spec : StoreConfigSpec T
  pub status : StoreConfigStatus T

pub record StoreConfigList (T : MemTypes) : Type 0 where
  pub type_meta : T.TypeMeta
  pub list_meta : T.ListMeta
  pub items : Option Addr
