-- ===== src/Api/InitBundle.antt =====
-- apis/initbundle/v1alpha1/initbundle_types.go, with the methods of zz_generated.managed.go that
-- the controller calls.
use provider_stackrox.Base.{String, Option, List, [], ◌∷◌}
use provider_stackrox.Base.GoMap.{GoMap}
use provider_stackrox.Deps.{Deps}
use provider_stackrox.Api.Parameters.{InitBundleParameters}

abbrev pub Attributes : Type 0
Attributes = GoMap String

pub record ImpactedCluster : Type 0 where
  pub id : String
  pub name : String

pub record User : Type 0 where
  pub attributes : Attributes
  pub auth_provider_id : String
  pub id : String

-- `impacted_clusters` is a slice: `none` is nil.
pub record InitBundleObservation (D : Deps) : Type 0 where
  pub created_at : D.Time
  pub created_by : User
  pub expires_at : D.Time
  pub id : String
  pub impacted_clusters : Option (List ImpactedCluster)
  pub name : String

-- A InitBundleSpec has the embedded xpv1.ResourceSpec and the parameters.
pub record InitBundleSpec (D : Deps) : Type 0 where
  pub resource_spec : D.ResourceSpec
  pub for_provider : InitBundleParameters

pub record InitBundleStatus (D : Deps) : Type 0 where
  pub resource_status : D.ResourceStatus
  pub at_provider : InitBundleObservation D

pub record InitBundle (D : Deps) : Type 0 where
  pub type_meta : D.TypeMeta
  pub object_meta : D.ObjectMeta
  pub spec : InitBundleSpec D
  pub status : InitBundleStatus D

module _ (D : Deps) where
  unfoldable pub get_condition : InitBundle D → D.ConditionType → D.Condition
  get_condition mg ct = D.get_condition mg.status.resource_status ct

  unfoldable pub get_provider_config_reference : InitBundle D → Option D.Reference
  get_provider_config_reference mg = D.provider_config_reference mg.spec.resource_spec

  -- SetConditions, called with one condition
  unfoldable pub set_conditions : InitBundle D → D.Condition → InitBundle D
  set_conditions mg c = record mg {
    status = record (mg.status) {
      resource_status = D.set_conditions mg.status.resource_status (c ∷ []);
    };
  }

  -- mg.Status.AtProvider = o
  unfoldable pub set_at_provider : InitBundle D → InitBundleObservation D → InitBundle D
  set_at_provider mg o = record mg { status = record (mg.status) { at_provider = o } }

  -- meta.SetExternalName(mg, name)
  unfoldable pub set_external_name : InitBundle D → String → InitBundle D
  set_external_name mg name = record mg { object_meta = D.set_external_name mg.object_meta name }
