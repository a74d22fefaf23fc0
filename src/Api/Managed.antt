-- ===== src/Api/Managed.antt =====
-- crossplane-runtime's interfaces towards a controller: a `resource.Managed` is a resource of one
-- of the provider's kinds or of another kind, and a call returns a value, an error, the resource
-- as it was changed through its pointer, and the world.
use provider_stackrox.Base.{String, Bool, false, Option, none}
use provider_stackrox.Base.GoMap.{GoMap}
use provider_stackrox.Deps.{Deps}
use provider_stackrox.Api.Cluster.{Cluster}
use provider_stackrox.Api.InitBundle.{InitBundle}

pub data Managed (D : Deps) : Type 0 where
  cluster : Cluster D → Managed D
  init_bundle : InitBundle D → Managed D
  other : D.OtherManaged → Managed D

pub record Returned (D : Deps) (A : Type 0) : Type 0 where
  pub value : A
  pub error : Option D.Error
  pub managed : Managed D
  pub world : D.World

-- The fields of managed.ExternalObservation, ExternalCreation and ExternalUpdate that the provider
-- sets; the others keep their zero values.
pub record ExternalObservation : Type 0 where
  pub resource_exists : Bool
  pub resource_up_to_date : Bool
  pub diff : String

pub record ExternalCreation (D : Deps) : Type 0 where
  pub connection_details : GoMap D.Bytes

pub record ExternalUpdate (D : Deps) : Type 0 where
  pub connection_details : GoMap D.Bytes

-- managed.ExternalObservation{}
abbrev pub no_observation : ExternalObservation
no_observation = record { resource_exists = false; resource_up_to_date = false; diff = "" }

module _ (D : Deps) where
  abbrev pub no_creation : ExternalCreation D
  no_creation = record { connection_details = none }

  abbrev pub no_update : ExternalUpdate D
  no_update = record { connection_details = none }

  abbrev pub returned : {A : Type 0} → A → Option D.Error → Managed D → D.World → Returned D A
  returned value error mg w = record { value = value; error = error; managed = mg; world = w }
