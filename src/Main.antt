-- ===== src/Main.antt =====
-- cmd/provider/main.go: the process, from its arguments to the return of Start. It ends at the first
-- error.
pub mod Steps
pub mod Boot
pub mod Outcome
pub mod Stores
use provider_stackrox.Base.{String, ℤ, pos, Bool, true, Option, none, some, List, if◌then◌else◌}
use provider_stackrox.Deps.{Deps}
use provider_stackrox.Deps.Manager.{ManagerLib}
use provider_stackrox.Deps.Kingpin.{KingpinLib, Parsed, values, parse_error, terminated}
use provider_stackrox.Api.Kinds.{add_to_scheme}
use provider_stackrox.CommandLine.{Args, application, args_of}
use provider_stackrox.Setup.{Options, Controller, setup, external_secret_stores}

-- The fields of ctrl.Options that are set; durations are in seconds but for `sync_period`.
pub record ManagerOptions : Type 0 where
  pub sync_period : ℤ
  pub leader_election : Bool
  pub leader_election_id : String
  pub leader_election_resource_lock : String
  pub lease_duration : ℤ
  pub renew_deadline : ℤ

-- The fields of the default StoreConfig that are set.
pub record NewStoreConfig : Type 0 where
  pub name : String
  pub default_scope : String

-- The libraries as main calls them.
pub record Platform (D : Deps) (L : ManagerLib D.World D.Error) : Type 1 where
  pub command_line : KingpinLib D.World D.Error
  -- zap.New(zap.UseDevMode(…)), WithName and logging.NewLogrLogger
  pub ZapLogger : Type 0
  pub new_zap : Bool → ZapLogger
  pub with_name : ZapLogger → String → ZapLogger
  pub new_logr_logger : ZapLogger → L.Logger
  -- ctrl.SetLogger, and Info of a logger with a key and a value
  pub set_logger : ZapLogger → D.World → D.World
  pub info : L.Logger → (text key value : String) → D.World → D.World
  pub RestConfig : Type 0
  pub get_config : D.World → RestConfig × Option D.Error × D.World
  pub limit_rest_config : RestConfig → ℤ → RestConfig
  pub leases_resource_lock : String
  pub new_manager : RestConfig → ManagerOptions → D.World → L.Manager × Option D.Error × D.World
  pub create_store_config : L.Client → NewStoreConfig → D.World → Option D.Error × D.World
  -- resource.Ignore(kerrors.IsAlreadyExists, err)
  pub ignore_already_exists : Option D.Error → Option D.Error
  pub complete : L.Manager → Controller D L → D.World → Option D.Error × D.World
  -- Start returns when the process is told to end, or with an error.
  pub start : L.Manager → D.World → Option D.Error × D.World

-- The process goes on with a value; or it has ended by kingpin.FatalIfError with a message and an
-- error, by kingpin.MustParse with the parser's error, or within Parse.
pub data Run (D : Deps) (A : Type 0) : Type 0 where
  going : A → Run D A
  exited : String → D.Error → Run D A
  refused : D.Error → Run D A
  helped : Run D A

module _ (D : Deps) where
  infixl 5 ◌>>=◌ ◌>>◌
  abbrev pub ◌>>=◌ :
      {A B : Type 0}
      → (D.World → Run D A × D.World)
      → (A → D.World → Run D B × D.World)
      → D.World
      → Run D B × D.World
  ◌>>=◌ m f w =
      let (r, w') = m w in
      elim r [
        | going a ↦ f a w'
        | exited text e ↦ (exited text e, w')
        | refused e ↦ (refused e, w')
        | helped ↦ (helped, w')
      ]

  abbrev pub ◌>>◌ :
      {A B : Type 0}
      → (D.World → Run D A × D.World)
      → (D.World → Run D B × D.World)
      → D.World
      → Run D B × D.World
  m >> k = m >>= λ _. k

  -- A call that returns a value, with kingpin.FatalIfError behind it
  abbrev pub fatal_if_error :
      {A : Type 0} → (D.World → A × Option D.Error × D.World) → String → D.World → Run D A × D.World
  fatal_if_error call text w =
      let (value, err, w') = call w in
      elim err [ none ↦ (going value, w') | some e ↦ (exited text e, w') ]

  -- The same of a call that returns an error only
  abbrev pub fatal :
      (D.World → Option D.Error × D.World) → String → D.World → Run D (Unit {0}) × D.World
  fatal call text w =
      let (err, w') = call w in elim err [ none ↦ (going tt, w') | some e ↦ (exited text e, w') ]

  -- A call that only changes the world
  abbrev pub act : (D.World → D.World) → D.World → Run D (Unit {0}) × D.World
  act f w = (going tt, f w)

  abbrev pub skip : D.World → Run D (Unit {0}) × D.World
  skip w = (going tt, w)

  module _ (L : ManagerLib D.World D.Error) (P : Platform D L) where
    abbrev pub manager_options : Args → ManagerOptions
    manager_options a = record {
      sync_period = a.sync_interval;
      leader_election = a.leader_election;
      leader_election_id = "crossplane-leader-election-provider-stackrox";
      leader_election_resource_lock = P.leases_resource_lock;
      lease_duration = pos 60;
      renew_deadline = pos 50;
    }

    abbrev pub provider_logger : Args → L.Logger
    provider_logger a = P.new_logr_logger (P.with_name (P.new_zap a.debug) "provider-stackrox")

    -- if *debug { ctrl.SetLogger(zl) }
    abbrev pub debug_logger : Args → D.World → D.World
    debug_logger a w = if a.debug then P.set_logger (P.new_zap a.debug) w else w

    -- The options of the controllers, after the feature flag has been enabled if it is wanted.
    unfoldable pub controller_options : Args → Options D L
    controller_options a = record {
      logger = provider_logger a;
      max_concurrent_reconciles = a.max_reconcile_rate;
      poll_interval = a.poll_interval;
      global_rate_limiter = L.new_global a.max_reconcile_rate;
      features =
          if a.enable_external_secret_stores
          then L.enable L.no_flags external_secret_stores
          else L.no_flags;
    }

    -- resource.Ignore(kerrors.IsAlreadyExists, mgr.GetClient().Create(…))
    abbrev pub ensure_store_config : L.Manager → String → D.World → Option D.Error × D.World
    ensure_store_config mgr namespace w =
        let store : NewStoreConfig = record { name = "default"; default_scope = namespace } in
        let (err, w') = P.create_store_config (L.get_client mgr) store w in
        (P.ignore_already_exists err, w')

    abbrev pub announce : Args → D.World → D.World
    announce a = P.info (provider_logger a) "Alpha feature enabled" "flag" external_secret_stores

    -- if *enableExternalSecretStores { … } without the call of Enable
    abbrev pub default_store : Args → L.Manager → D.World → Run D (Unit {0}) × D.World
    default_store a mgr =
        if a.enable_external_secret_stores
        then (λ w.
            fatal (ensure_store_config mgr a.namespace) "cannot create default store config"
              (announce a w))
        else skip

    -- main behind the parsing of the flags.
    unfoldable pub run : Args → D.World → Run D (Unit {0}) × D.World
    unfolding controller_options
    run a = do
      act (debug_logger a)
      cfg ← fatal_if_error P.get_config "Cannot get API server rest config"
      mgr ←
          fatal_if_error
            (P.new_manager (P.limit_rest_config cfg a.max_reconcile_rate) (manager_options a))
            "Cannot create controller manager"
      fatal (add_to_scheme L.schemes (L.get_scheme mgr)) "Cannot add Stackrox APIs to scheme"
      default_store a mgr
      fatal (setup D L P.complete mgr (controller_options a)) "Cannot setup Stackrox controllers"
      fatal (P.start mgr) "Cannot start controller manager"

    -- kingpin.MustParse, and the reads through the flags' pointers
    abbrev pub must_parse : Parsed (P.command_line).Values D.Error → D.World → Run D Args × D.World
    must_parse (values v) w = (going (args_of P.command_line v), w)
    must_parse (parse_error e) w = (refused e, w)
    must_parse terminated w = (helped, w)

    -- kingpin.MustParse(app.Parse(os.Args[1:])); `program` is os.Args[0].
    abbrev pub parse_flags : (program : String) → List String → D.World → Run D Args × D.World
    parse_flags program arguments w =
        let C = P.command_line in
        let (parsed, w') = C.parse (application C program) arguments w in must_parse parsed w'

    unfoldable pub main : (program : String) → List String → D.World → Run D (Unit {0}) × D.World
    unfolding run
    main program arguments = do a ← parse_flags program arguments; run a
