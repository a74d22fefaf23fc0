-- ===== src/Accessors/Config.antt =====
-- apis/v1alpha1/zz_generated.pc.go, zz_generated.pcu.go and the methods of storeconfig_types.go: the
-- accessors of a ProviderConfig, a ProviderConfigUsage and a StoreConfig.
use provider_stackrox.Base.{ℤ, List, ◌≡◌}
use provider_stackrox.Memory.Foreign.{MemTypes}
use provider_stackrox.Memory.Config.{ProviderConfig, ProviderConfigUsage, StoreConfig}

-- The fields and methods of crossplane-runtime's structs.
pub record ConfigLib (T : MemTypes) : Type 1 where
  pub Condition : Type 0
  pub ConditionType : Type 0
  pub Reference : Type 0
  pub TypedReference : Type 0
  -- xpv1.ProviderConfigStatus
  pub status_condition : T.UsersStatus → ConditionType → Condition
  pub set_status_conditions : T.UsersStatus → List Condition → T.UsersStatus
  pub users : T.UsersStatus → ℤ
  pub set_status_users : T.UsersStatus → ℤ → T.UsersStatus
  -- xpv1.ProviderConfigUsage
  pub provider_config_reference : T.Usage → Reference
  pub set_usage_provider_config_reference : T.Usage → Reference → T.Usage
  pub resource_reference : T.Usage → TypedReference
  pub set_usage_resource_reference : T.Usage → TypedReference → T.Usage
  -- xpv1.ConditionedStatus
  pub store_condition : T.ConditionedStatus → ConditionType → Condition
  pub set_store_conditions : T.ConditionedStatus → List Condition → T.ConditionedStatus

-- Users and conditions are fields of a struct, as are the two references.
pub record IsConfigLib (T : MemTypes) (C : ConfigLib T) : Type 0 where
  pub users-set : (s : T.UsersStatus) (n : ℤ) → C.users (C.set_status_users s n) ≡ n
  pub users_kept :
      (s : T.UsersStatus) (c : List C.Condition) → C.users (C.set_status_conditions s c) ≡ C.users s
  pub conditions_kept :
      (s : T.UsersStatus) (n : ℤ) (t : C.ConditionType)
      → C.status_condition (C.set_status_users s n) t ≡ C.status_condition s t
  pub provider_config_reference-set :
      (u : T.Usage) (r : C.Reference)
      → C.provider_config_reference (C.set_usage_provider_config_reference u r) ≡ r
  pub provider_config_reference_kept :
      (u : T.Usage) (r : C.TypedReference)
      → C.provider_config_reference (C.set_usage_resource_reference u r)
        ≡ C.provider_config_reference u
  pub resource_reference-set :
      (u : T.Usage) (r : C.TypedReference)
      → C.resource_reference (C.set_usage_resource_reference u r) ≡ r
  pub resource_reference_kept :
      (u : T.Usage) (r : C.Reference)
      → C.resource_reference (C.set_usage_provider_config_reference u r) ≡ C.resource_reference u

module _ (T : MemTypes) (C : ConfigLib T) where
  unfoldable pub get_users : ProviderConfig T → ℤ
  get_users p = C.users p.status.provider_config_status

  unfoldable pub set_users : ProviderConfig T → ℤ → ProviderConfig T
  set_users p i = record p {
    status = record (p.status) {
      provider_config_status = C.set_status_users p.status.provider_config_status i;
    };
  }

  unfoldable pub get_config_condition : ProviderConfig T → C.ConditionType → C.Condition
  get_config_condition p ct = C.status_condition p.status.provider_config_status ct

  unfoldable pub set_config_conditions : ProviderConfig T → List C.Condition → ProviderConfig T
  set_config_conditions p c = record p {
    status = record (p.status) {
      provider_config_status = C.set_status_conditions p.status.provider_config_status c;
    };
  }

  unfoldable pub get_usage_provider_config_reference : ProviderConfigUsage T → C.Reference
  get_usage_provider_config_reference p = C.provider_config_reference p.provider_config_usage

  unfoldable pub get_usage_resource_reference : ProviderConfigUsage T → C.TypedReference
  get_usage_resource_reference p = C.resource_reference p.provider_config_usage

  unfoldable pub set_usage_provider_config_reference :
      ProviderConfigUsage T → C.Reference → ProviderConfigUsage T
  set_usage_provider_config_reference p r = record p {
    provider_config_usage = C.set_usage_provider_config_reference p.provider_config_usage r;
  }

  unfoldable pub set_usage_resource_reference :
      ProviderConfigUsage T → C.TypedReference → ProviderConfigUsage T
  set_usage_resource_reference p r = record p {
    provider_config_usage = C.set_usage_resource_reference p.provider_config_usage r;
  }

  unfoldable pub get_store_config : StoreConfig T → T.SecretStoreConfig
  get_store_config in_ = in_.spec.secret_store_config

  unfoldable pub get_store_condition : StoreConfig T → C.ConditionType → C.Condition
  get_store_condition in_ ct = C.store_condition in_.status.conditioned_status ct

  unfoldable pub set_store_conditions : StoreConfig T → List C.Condition → StoreConfig T
  set_store_conditions in_ c = record in_ {
    status = record (in_.status) {
      conditioned_status = C.set_store_conditions in_.status.conditioned_status c;
    };
  }
