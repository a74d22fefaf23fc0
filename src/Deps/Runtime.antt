-- ===== src/Deps/Runtime.antt =====
-- crossplane-runtime and apimachinery: the parts of a resource that the provider passes on to
-- these libraries, and their operations on them.
use provider_stackrox.Base.{String, ◌≡◌, ℤ, Bool, true, Option, List, [], ◌∷◌, ◌↔◌}

pub record RuntimeLib : Type 1 where
  pub World : Type 0
  -- metav1
  pub TypeMeta : Type 0
  pub ObjectMeta : Type 0
  -- metav1.NewTime(time.Unix(sec, nsec))
  pub Time : Type 0
  pub new_time : ℤ → ℤ → Time
  -- xpv1.ResourceSpec
  pub ResourceSpec : Type 0
  pub Reference : Type 0
  pub provider_config_reference : ResourceSpec → Option Reference
  pub reference_name : Reference → String
  -- xpv1.ResourceStatus and the conditions in it; a constructor of a condition reads the clock
  pub ResourceStatus : Type 0
  pub Condition : Type 0
  pub ConditionType : Type 0
  pub type_ready : ConditionType
  pub available : World → Condition
  pub creating : World → Condition
  pub deleting : World → Condition
  pub get_condition : ResourceStatus → ConditionType → Condition
  pub set_conditions : ResourceStatus → List Condition → ResourceStatus
  -- Go's `==` on two values of the struct xpv1.Condition
  pub condition_eq : Condition → Condition → Bool
  -- meta.SetExternalName and meta.GetExternalName
  pub set_external_name : ObjectMeta → String → ObjectMeta
  pub external_name : ObjectMeta → String
  -- a resource.Managed of a kind that is not this provider's
  pub OtherManaged : Type 0
  -- []byte, and its conversion to a string
  pub Bytes : Type 0
  pub to_string : Bytes → String
  -- the parts of a ProviderConfig that these libraries read
  pub CredentialsSource : Type 0
  pub CommonCredentialSelectors : Type 0
  pub ProviderConfigStatus : Type 0

-- What is documented of conditions and of the external name. `SameState` compares two conditions
-- without their times, as xpv1.Condition.Equal does: setting a condition leaves one of its state.
pub record IsRuntime (X : RuntimeLib) : Type 1 where
  pub condition_eq_iff : (a b : X.Condition) → (X.condition_eq a b ≡ true) ↔ (a ≡ b)
  pub SameState : X.Condition → X.Condition → Type 0
  pub ready-set_available :
      (s : X.ResourceStatus) (w : X.World)
      → SameState
          (X.get_condition (X.set_conditions s (X.available w ∷ [])) X.type_ready)
          (X.available w)
  pub ready-set_creating :
      (s : X.ResourceStatus) (w : X.World)
      → SameState
          (X.get_condition (X.set_conditions s (X.creating w ∷ [])) X.type_ready)
          (X.creating w)
  pub ready-set_deleting :
      (s : X.ResourceStatus) (w : X.World)
      → SameState
          (X.get_condition (X.set_conditions s (X.deleting w ∷ [])) X.type_ready)
          (X.deleting w)
  pub external_name-set :
      (m : X.ObjectMeta) (name : String) → X.external_name (X.set_external_name m name) ≡ name

-- A condition carries the time at which it was made (its field LastTransitionTime).
pub record IsStamped (X : RuntimeLib) : Type 1 where
  pub Instant : Type 0
  pub now : X.World → Instant
  pub last_transition_time : X.Condition → Instant
  pub creating_now : (w : X.World) → last_transition_time (X.creating w) ≡ now w
  pub deleting_now : (w : X.World) → last_transition_time (X.deleting w) ≡ now w
