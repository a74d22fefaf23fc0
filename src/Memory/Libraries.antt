-- ===== src/Memory/Libraries.antt =====
-- The deep copies of the libraries' types, and what is documented of them: each makes a deep copy.
use provider_stackrox.Memory.Copier.{Copier, IsDeep}
use provider_stackrox.Memory.Foreign.{MemTypes}
use provider_stackrox.Memory.Cell.{Cell}

pub record MemLib (T : MemTypes) : Type 0 where
  pub object_meta : Copier (Cell T) T.ObjectMeta T.Value
  pub list_meta : Copier (Cell T) T.ListMeta T.Value
  pub time : Copier (Cell T) T.Time T.Value
  pub resource_spec : Copier (Cell T) T.ResourceSpec T.Value
  pub resource_status : Copier (Cell T) T.ResourceStatus T.Value
  pub common_credential_selectors : Copier (Cell T) T.CommonCredentialSelectors T.Value
  pub users_status : Copier (Cell T) T.UsersStatus T.Value
  pub usage : Copier (Cell T) T.Usage T.Value
  pub secret_store_config : Copier (Cell T) T.SecretStoreConfig T.Value
  pub conditioned_status : Copier (Cell T) T.ConditionedStatus T.Value

pub record IsMemLib {T : MemTypes} (L : MemLib T) : Type 0 where
  pub object_meta-IsDeep : IsDeep L.object_meta
  pub list_meta-IsDeep : IsDeep L.list_meta
  pub time-IsDeep : IsDeep L.time
  pub resource_spec-IsDeep : IsDeep L.resource_spec
  pub resource_status-IsDeep : IsDeep L.resource_status
  pub common_credential_selectors-IsDeep : IsDeep L.common_credential_selectors
  pub users_status-IsDeep : IsDeep L.users_status
  pub usage-IsDeep : IsDeep L.usage
  pub secret_store_config-IsDeep : IsDeep L.secret_store_config
  pub conditioned_status-IsDeep : IsDeep L.conditioned_status
