-- ===== src/Examples/Process.antt =====
-- The theorems about the set-up and the start of the process at concrete inputs.
use provider_stackrox.Base.{
  String, ℤ, pos, Bool, true, false, ◌≡◌, ◌↔◌, Option, none, some, List, [], ◌∷◌, ◌++◌, refl, ◌==◌,
  ◌<>◌, if◌then◌else◌, arith, eq_iff,
}
use provider_stackrox.Deps.Scheme.{GroupVersion, SchemeLib, IsSchemeLib}
use provider_stackrox.Deps.Kingpin.{KingpinLib, Parsed, values, parse_error, terminated}
use provider_stackrox.Deps.Manager.{ManagerLib, IsFlags}
use provider_stackrox.Api.Kinds.{
  ApiType, type_name, provider_config_usage_list_type, store_config_type, add_to_scheme,
  init_stackrox,
}
use provider_stackrox.CommandLine.{Args}
use provider_stackrox.Setup.{
  Options, Controller, publishers, config_controller, cluster_controller, init_bundle_controller,
  setup,
}
use provider_stackrox.Setup.Registered.{reconciles, usage_lists, stores, Each, kinds_registered}
use provider_stackrox.Main.{Platform, going, exited, refused, helped, main, controller_options}
use provider_stackrox.Main.Outcome.{StepsSucceed, main_succeeds_iff}
use provider_stackrox.Main.Stores.{publishes_externally, publishes_iff_flag}
use provider_stackrox.Examples.Toy.{World, toy, world}

abbrev any : String → List String → Bool
any f [] = false
any f (g ∷ rest) = if f == g then true else any f rest

-- A builder is its version and its types.
abbrev Builder : Type 0
Builder = GroupVersion × List ApiType

abbrev apply_all :
    List (String → World → Option String × World) → String → World → Option String × World
apply_all [] s w = (none, w)
apply_all (f ∷ rest) s w =
    let (err, w') = f s w in elim err [ some e ↦ (some e, w') | none ↦ apply_all rest s w' ]

abbrev scheme_lib : SchemeLib World String ApiType
scheme_lib = record {
  group_kind_string = λ k. k.kind <> ("." <> k.group);
  group_version_string = λ v. v.group <> ("/" <> v.version);
  Scheme = String;
  Builder = Builder;
  builder = λ v. (v, []);
  register = λ b l. (b.0, b.1 ++ l);
  add_to_scheme = λ b s w. (none, w);
  apply_all = apply_all;
}

-- A scheme knows each type by the kinds of its name.
scheme_lib-IsSchemeLib : IsSchemeLib scheme_lib type_name
scheme_lib-IsSchemeLib = record {
  version_of = λ b. b.0;
  registered = λ b. b.1;
  version_of-builder = λ v. refl;
  registered-builder = λ v. refl;
  version_of-register = λ b l. refl;
  registered-register = λ b l. refl;
  Knows = λ s w o k. k.kind ≡ type_name o;
  knows_added = λ b s w ok o m. refl;
  knows_still = λ b s w o k h. h;
  apply_all_none = λ s w. refl;
  apply_all_first = λ f rest s w. refl;
}

-- Loggers, recorders and clients are texts, and flags are the list of the enabled ones.
abbrev manager_lib : ManagerLib World String
manager_lib = record {
  schemes = scheme_lib;
  Logger = String;
  with_values = λ l k v. v;
  Recorder = String;
  RateLimiter = ℤ;
  new_global = λ n. n;
  Flags = List String;
  no_flags = [];
  enable = λ s f. f ∷ s;
  enabled = λ s f. any f s;
  Manager = Unit {0};
  Client = String;
  get_client = λ m. "client";
  get_scheme = λ m. "scheme";
  api_recorder_for = λ m name. name;
  managed_controller_name = λ s. s;
  provider_config_controller_name = λ s. s;
  Tracker = String;
  usage_tracker = λ c t. type_name t;
}

manager_lib-IsFlags : IsFlags manager_lib
manager_lib-IsFlags = record {
  enabled-no_flags = λ f. refl;
  enabled-enable = λ s f. ground (arith, eq_iff f f);
}

-- Adding a controller fails while the API server is down, and sets the clock.
abbrev complete : Unit {0} → Controller toy manager_lib → World → Option String × World
complete mgr c w = if w.down then (some "down", w) else (none, record w { clock = 1 })

-- The values are whether there are arguments; --help ends the process.
abbrev parse : List String → World → Parsed Bool String × World
parse [] w = (values false, w)
parse (a ∷ rest) w =
    if a == "--help"
    then (terminated, w)
    else (if a == "--enable-external-secret-stores"
        then (values true, w)
        else (parse_error "unknown flag", w))

abbrev kingpin_lib : KingpinLib World String
kingpin_lib = record {
  base = λ s. s;
  Values = Bool;
  parse = λ app l w. parse l w;
  bool_value = λ v f. if f == "enable-external-secret-stores" then v else false;
  duration_value = λ v f. if f == "sync" then pos 3600000000000 else pos 60000000000;
  int_value = λ v f. pos 10;
  string_value = λ v f. "crossplane-system";
}

abbrev platform : Platform toy manager_lib
platform = record {
  command_line = kingpin_lib;
  ZapLogger = String;
  new_zap = λ debug. "log";
  with_name = λ z name. z;
  new_logr_logger = λ z. z;
  set_logger = λ z w. w;
  info = λ l text key value w. w;
  RestConfig = Unit {0};
  get_config = λ w. (tt, none, w);
  limit_rest_config = λ c n. c;
  leases_resource_lock = "leases";
  new_manager = λ c o w. (tt, none, w);
  create_store_config = λ c store w. (some "already exists", w);
  ignore_already_exists =
      λ err. elim err [ none ↦ none | some e ↦ if e == "already exists" then none else some e ];
  complete = complete;
  start = λ mgr w. (none, w);
}

abbrev args : Args
args = record {
  debug = false;
  leader_election = false;
  sync_interval = pos 3600000000000;
  poll_interval = pos 60000000000;
  max_reconcile_rate = pos 10;
  namespace = "crossplane-system";
  enable_external_secret_stores = true;
}

abbrev options : Options toy manager_lib
options = record {
  logger = "log";
  max_concurrent_reconciles = pos 10;
  poll_interval = pos 60000000000;
  global_rate_limiter = pos 10;
  features = [];
}

abbrev up : World
up = world [] [] false

abbrev cut : World
cut = world [] [] true

abbrev enabling : List String
enabling = "--enable-external-secret-stores" ∷ []

started_up : (main toy manager_lib platform "provider" enabling up).0 ≡ going tt
unfolding main setup add_to_scheme init_stackrox
started_up = refl

not_set_up :
    main toy manager_lib platform "provider" enabling cut
    ≡ (exited "Cannot setup Stackrox controllers" "down", cut)
unfolding main setup add_to_scheme init_stackrox
not_set_up = refl

helped_only : (main toy manager_lib platform "provider" ("--help" ∷ []) up).0 ≡ helped
unfolding main
helped_only = refl

refused_flag :
    (main toy manager_lib platform "provider" ("--no-such-flag" ∷ []) up).0 ≡ refused "unknown flag"
unfolding main
refused_flag = refl

kinds_registered_example :
    let know = scheme_lib-IsSchemeLib.Knows "scheme" (add_to_scheme scheme_lib "scheme" up).1 in
    let configs = config_controller toy manager_lib tt options in
    let clusters = cluster_controller toy manager_lib tt options in
    let bundles = init_bundle_controller toy manager_lib tt options in
    Each
      (λ (c : Controller toy manager_lib).
        know c.for_type (reconciles toy manager_lib c.reconciler))
      (configs ∷ clusters ∷ bundles ∷ [])
    × Each (know provider_config_usage_list_type) (usage_lists toy manager_lib configs.reconciler)
    × Each (know store_config_type) (stores toy manager_lib (publishers toy manager_lib tt options))
unfolding add_to_scheme init_stackrox
kinds_registered_example =
    kinds_registered toy manager_lib scheme_lib-IsSchemeLib tt options up refl

main_succeeds_iff_example :
    let (parsed, w') = parse enabling up in
    ((main toy manager_lib platform "provider" enabling up).0 ≡ going tt)
    ↔ ((v : Bool) × (parsed ≡ values v) × StepsSucceed toy manager_lib platform v w')
main_succeeds_iff_example = main_succeeds_iff toy manager_lib platform "provider" enabling up

publishes_iff_flag_example :
    let o = controller_options toy manager_lib platform args in
    (publishes_externally toy manager_lib (cluster_controller toy manager_lib tt o) ≡ true)
    × (publishes_externally toy manager_lib (init_bundle_controller toy manager_lib tt o) ≡ true)
publishes_iff_flag_example = publishes_iff_flag toy manager_lib manager_lib-IsFlags platform args tt
