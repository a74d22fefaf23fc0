-- ===== src/Memory/Foreign.antt =====
-- The types of the libraries as they lie in memory. `Content` is what their cells hold, and `Value`
-- what a value of such a type stands for once every address in it has been followed.
pub record MemTypes : Type 1 where
  pub TypeMeta : Type 0
  pub CredentialsSource : Type 0
  pub ObjectMeta : Type 0
  pub ListMeta : Type 0
  pub Time : Type 0
  pub ResourceSpec : Type 0
  pub ResourceStatus : Type 0
  pub CommonCredentialSelectors : Type 0
  -- xpv1.ProviderConfigStatus and xpv1.ProviderConfigUsage
  pub UsersStatus : Type 0
  pub Usage : Type 0
  pub SecretStoreConfig : Type 0
  pub ConditionedStatus : Type 0
  pub Content : Type 0
  pub Value : Type 0
