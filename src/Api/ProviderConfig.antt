-- ===== src/Api/ProviderConfig.antt =====
-- apis/v1alpha1/providerconfig_types.go: what a ProviderConfig says of Central.
use provider_stackrox.Base.{String}
use provider_stackrox.Deps.{Deps}

pub record ProviderCredentials (D : Deps) : Type 0 where
  pub source : D.CredentialsSource
  pub common_credential_selectors : D.CommonCredentialSelectors

pub record ProviderConfigSpec (D : Deps) : Type 0 where
  pub credentials : ProviderCredentials D
  pub endpoint : String

pub record ProviderConfig (D : Deps) : Type 0 where
  pub type_meta : D.TypeMeta
  pub object_meta : D.ObjectMeta
  pub spec : ProviderConfigSpec D
  pub status : D.ProviderConfigStatus
