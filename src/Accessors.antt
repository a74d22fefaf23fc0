-- ===== src/Accessors.antt =====
-- The accessors that angryjet has written for the two managed kinds. The fields that they read and
-- write are those of xpv1.ResourceSpec, a library's struct.
pub mod Cluster
pub mod InitBundle
pub mod Items
pub mod Pointers
pub mod Config
pub mod ConfigLaws
use provider_stackrox.Base.{Option, List}
use provider_stackrox.Deps.{Deps}

-- xpv1.ResourceSpec: the fields beside the ProviderConfigReference, which `Deps` has, and the
-- assignments to all five.
pub record SpecLib (D : Deps) : Type 1 where
  pub DeletionPolicy : Type 0
  pub PublishConnectionDetailsTo : Type 0
  pub SecretReference : Type 0
  pub deletion_policy : D.ResourceSpec → DeletionPolicy
  pub provider_reference : D.ResourceSpec → Option D.Reference
  pub publish_connection_details_to : D.ResourceSpec → Option PublishConnectionDetailsTo
  pub write_connection_secret_to_reference : D.ResourceSpec → Option SecretReference
  pub set_deletion_policy : D.ResourceSpec → DeletionPolicy → D.ResourceSpec
  pub set_provider_config_reference : D.ResourceSpec → Option D.Reference → D.ResourceSpec
  pub set_provider_reference : D.ResourceSpec → Option D.Reference → D.ResourceSpec
  pub set_publish_connection_details_to :
      D.ResourceSpec → Option PublishConnectionDetailsTo → D.ResourceSpec
  pub set_write_connection_secret_to_reference :
      D.ResourceSpec → Option SecretReference → D.ResourceSpec

-- The accessors of one kind.
pub record Accessors (D : Deps) (F : SpecLib D) (X : Type 0) : Type 0 where
  pub get_condition : X → D.ConditionType → D.Condition
  pub get_deletion_policy : X → F.DeletionPolicy
  pub get_provider_config_reference : X → Option D.Reference
  pub get_provider_reference : X → Option D.Reference
  pub get_publish_connection_details_to : X → Option F.PublishConnectionDetailsTo
  pub get_write_connection_secret_to_reference : X → Option F.SecretReference
  pub set_conditions : X → List D.Condition → X
  pub set_deletion_policy : X → F.DeletionPolicy → X
  pub set_provider_config_reference : X → Option D.Reference → X
  pub set_provider_reference : X → Option D.Reference → X
  pub set_publish_connection_details_to : X → Option F.PublishConnectionDetailsTo → X
  pub set_write_connection_secret_to_reference : X → Option F.SecretReference → X
