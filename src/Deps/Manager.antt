-- ===== src/Deps/Manager.antt =====
-- controller-runtime and crossplane-runtime as the set-up of the controllers and the start of the
-- process use them.
use provider_stackrox.Base.{String, ◌≡◌, ℤ, Bool, true, false}
use provider_stackrox.Deps.Scheme.{SchemeLib}
use provider_stackrox.Api.Kinds.{ApiType}

pub record ManagerLib (World Error : Type 0) : Type 1 where
  pub schemes : SchemeLib World Error ApiType
  pub open schemes use *
  -- logging.Logger, event.Recorder and ratelimiter.NewGlobal
  pub Logger : Type 0
  pub with_values : Logger → String → String → Logger
  pub Recorder : Type 0
  pub RateLimiter : Type 0
  pub new_global : ℤ → RateLimiter
  -- feature.Flags, as the value that the pointer points to
  pub Flags : Type 0
  pub no_flags : Flags
  pub enable : Flags → String → Flags
  pub enabled : Flags → String → Bool
  -- ctrl.Manager and what it hands out
  pub Manager : Type 0
  pub Client : Type 0
  pub get_client : Manager → Client
  pub get_scheme : Manager → Scheme
  pub api_recorder_for : Manager → String → Recorder
  -- managed.ControllerName and providerconfig.ControllerName
  pub managed_controller_name : String → String
  pub provider_config_controller_name : String → String
  -- resource.NewProviderConfigUsageTracker
  pub Tracker : Type 0
  pub usage_tracker : Client → ApiType → Tracker

-- What feature.Flags promises of a flag.
pub record IsFlags {World Error : Type 0} (L : ManagerLib World Error) : Type 0 where
  pub enabled-no_flags : (f : String) → L.enabled L.no_flags f ≡ false
  pub enabled-enable : (s : L.Flags) (f : String) → L.enabled (L.enable s f) f ≡ true
