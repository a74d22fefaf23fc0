-- ===== src/CommandLine.antt =====
-- cmd/provider/main.go: the flags of the provider, and what they say.
use provider_stackrox.Base.{String, ℤ, Bool, true, none, some, List, [], ◌∷◌}
use provider_stackrox.Deps.Kingpin.{
  no_envar, envar, override_default_from_envar, bool_flag, duration_flag, int_flag, string_flag,
  Flag, Application, new_application, add_flag, KingpinLib,
}

-- The values of the flags; intervals are in nanoseconds.
pub record Args : Type 0 where
  pub debug : Bool
  pub leader_election : Bool
  pub sync_interval : ℤ
  pub poll_interval : ℤ
  pub max_reconcile_rate : ℤ
  pub namespace : String
  pub enable_external_secret_stores : Bool

abbrev pub debug_flag : Flag
debug_flag = record {
  name = "debug";
  help = "Run with debug logging.";
  short = some "d";
  default = none;
  variable = no_envar;
  parsed_as = bool_flag;
}

abbrev pub leader_election_flag : Flag
leader_election_flag = record {
  name = "leader-election";
  help = "Use leader election for the controller manager.";
  short = some "l";
  default = some "false";
  variable = override_default_from_envar "LEADER_ELECTION";
  parsed_as = bool_flag;
}

abbrev pub sync_flag : Flag
sync_flag = record {
  name = "sync";
  help = "How often all resources will be double-checked for drift from the desired state.";
  short = some "s";
  default = some "1h";
  variable = no_envar;
  parsed_as = duration_flag;
}

abbrev pub poll_flag : Flag
poll_flag = record {
  name = "poll";
  help = "How often individual resources will be checked for drift from the desired state";
  short = none;
  default = some "1m";
  variable = no_envar;
  parsed_as = duration_flag;
}

abbrev pub max_reconcile_rate_flag : Flag
max_reconcile_rate_flag = record {
  name = "max-reconcile-rate";
  help =
      "The global maximum rate per second at which resources may checked for drift from the desired state.";
  short = none;
  default = some "10";
  variable = no_envar;
  parsed_as = int_flag;
}

abbrev pub namespace_flag : Flag
namespace_flag = record {
  name = "namespace";
  help = "Namespace used to set as default scope in default secret store config.";
  short = none;
  default = some "crossplane-system";
  variable = envar "POD_NAMESPACE";
  parsed_as = string_flag;
}

abbrev pub external_secret_stores_flag : Flag
external_secret_stores_flag = record {
  name = "enable-external-secret-stores";
  help = "Enable support for ExternalSecretStores.";
  short = none;
  default = some "false";
  variable = envar "ENABLE_EXTERNAL_SECRET_STORES";
  parsed_as = bool_flag;
}

-- The flags in the order in which they are added.
abbrev pub flags : List Flag
flags =
    debug_flag ∷ leader_election_flag ∷ sync_flag ∷ poll_flag ∷ max_reconcile_rate_flag
    ∷ namespace_flag ∷ external_secret_stores_flag ∷ []

abbrev pub add_flags : Application → List Flag → Application
add_flags app [] = app
add_flags app (f ∷ rest) = add_flags (add_flag app f) rest

module _ {World Error : Type 0} (C : KingpinLib World Error) where
  -- The application of a process whose first argument is `program`.
  abbrev pub application : (program : String) → Application
  application program =
      let app = new_application (C.base program) "Stackrox support for Crossplane." in
      add_flags (record app { default_envars = true }) flags

  -- The reads through the flags' pointers.
  abbrev pub args_of : C.Values → Args
  args_of v = record {
    debug = C.bool_value v "debug";
    leader_election = C.bool_value v "leader-election";
    sync_interval = C.duration_value v "sync";
    poll_interval = C.duration_value v "poll";
    max_reconcile_rate = C.int_value v "max-reconcile-rate";
    namespace = C.string_value v "namespace";
    enable_external_secret_stores = C.bool_value v "enable-external-secret-stores";
  }
