-- ===== src/Main/Outcome.antt =====
-- cmd/provider/main.go, the whole of main: when the process ends without an error.
use provider_stackrox.Base.{
  String, ◌≡◌, ◌↔◌, refl, ap, inl, inr, Option, List, pos, none, if◌then◌else◌,
}
use provider_stackrox.Deps.{Deps}
use provider_stackrox.Deps.Kingpin.{Parsed, values, parse_error, terminated}
use provider_stackrox.Deps.Manager.{ManagerLib}
use provider_stackrox.Api.Kinds.{add_to_scheme}
use provider_stackrox.CommandLine.{Args, application, args_of}
use provider_stackrox.Setup.{setup}
use provider_stackrox.Main.{Platform, going, ◌>>=◌, must_parse, controller_options, run, main}
use provider_stackrox.Main.Boot.{Boots, run_outcome}

module _ (D : Deps) (L : ManagerLib D.World D.Error) (P : Platform D L) where
  -- No step has an error, when the flags have these values and the parser has left this world: the
  -- calls of the libraries one after another, with their arguments.
  abbrev pub StepsSucceed : (P.command_line).Values → D.World → Type 0
  StepsSucceed v w =
      let C = P.command_line in
      let debug = C.bool_value v "debug" in
      let zap = P.new_zap debug in
      let log = P.new_logr_logger (P.with_name zap "provider-stackrox") in
      let rate = C.int_value v "max-reconcile-rate" in
      let stores = C.bool_value v "enable-external-secret-stores" in
      let (cfg, config_err, w1) = P.get_config (if debug then P.set_logger zap w else w) in
      let (mgr, manager_err, w2) =
        P.new_manager (P.limit_rest_config cfg rate)
          (record {
            sync_period = C.duration_value v "sync";
            leader_election = C.bool_value v "leader-election";
            leader_election_id = "crossplane-leader-election-provider-stackrox";
            leader_election_resource_lock = P.leases_resource_lock;
            lease_duration = pos 60;
            renew_deadline = pos 50;
          })
          w1 in
      let (scheme_err, w3) = add_to_scheme L.schemes (L.get_scheme mgr) w2 in
      let created =
        P.create_store_config (L.get_client mgr)
          (record { name = "default"; default_scope = C.string_value v "namespace" })
          (P.info log "Alpha feature enabled" "flag" "EnableAlphaExternalSecretStores" w3) in
      let store : Option D.Error × D.World =
        if stores then (P.ignore_already_exists created.0, created.1) else (none, w3) in
      let (setup_err, w5) =
        setup D L P.complete mgr
          (record {
            logger = log;
            max_concurrent_reconciles = rate;
            poll_interval = C.duration_value v "poll";
            global_rate_limiter = L.new_global rate;
            features =
                if stores
                then L.enable L.no_flags "EnableAlphaExternalSecretStores"
                else L.no_flags;
          })
          store.1 in
      (config_err ≡ none)
      × (manager_err ≡ none)
      × (scheme_err ≡ none)
      × (store.0 ≡ none)
      × (setup_err ≡ none)
      × ((P.start mgr w5).0 ≡ none)

  Boots-StepsSucceed :
      (v : (P.command_line).Values) (w : D.World)
      → Boots D L P (args_of P.command_line v) w
      → StepsSucceed v w
  unfolding controller_options
  Boots-StepsSucceed v w b =
      (b.gets_config, b.makes_manager, b.knows_types, b.has_store, b.sets_up, b.ends)

  StepsSucceed-Boots :
      (v : (P.command_line).Values) (w : D.World)
      → StepsSucceed v w
      → Boots D L P (args_of P.command_line v) w
  unfolding controller_options
  StepsSucceed-Boots v w (config, manager, scheme, store, controllers, start) = record {
    gets_config = config;
    makes_manager = manager;
    knows_types = scheme;
    has_store = store;
    sets_up = controllers;
    ends = start;
  }

  run_boots : (a : Args) (w : D.World) → (run D L P a w).0 ≡ going tt → Boots D L P a w
  run_boots a w ok = elim (run_outcome D L P a w) [
    | inl (e, err, at) ↦ cc (ok, ap (λ r. r.0) at)
    | inr (inl (e, err, at)) ↦ cc (ok, ap (λ r. r.0) at)
    | inr (inr (inl (e, err, at))) ↦ cc (ok, ap (λ r. r.0) at)
    | inr (inr (inr (inl (e, err, at)))) ↦ cc (ok, ap (λ r. r.0) at)
    | inr (inr (inr (inr (inl (e, err, at))))) ↦ cc (ok, ap (λ r. r.0) at)
    | inr (inr (inr (inr (inr (inl (e, err, at)))))) ↦ cc (ok, ap (λ r. r.0) at)
    | inr (inr (inr (inr (inr (inr (boots, at)))))) ↦ boots
  ]

  boots_run : (a : Args) (w : D.World) → Boots D L P a w → (run D L P a w).0 ≡ going tt
  boots_run a w b = elim (run_outcome D L P a w) [
    | inl (e, err, at) ↦ cc (b.gets_config, err)
    | inr (inl (e, err, at)) ↦ cc (b.makes_manager, err)
    | inr (inr (inl (e, err, at))) ↦ cc (b.knows_types, err)
    | inr (inr (inr (inl (e, err, at)))) ↦ cc (b.has_store, err)
    | inr (inr (inr (inr (inl (e, err, at))))) ↦ cc (b.sets_up, err)
    | inr (inr (inr (inr (inr (inl (e, err, at)))))) ↦ cc (b.ends, err)
    | inr (inr (inr (inr (inr (inr (boots, at)))))) ↦ ap (λ r. r.0) at
  ]

  abbrev value_or : {A E : Type 0} → A → Parsed A E → A
  value_or u (values v) = v
  value_or u (parse_error e) = u
  value_or u terminated = u

  behind_parser :
      (parsed : Parsed (P.command_line).Values D.Error) (w w' : D.World)
      → ((◌>>=◌ D (λ _. must_parse D L P parsed w') (run D L P) w).0 ≡ going tt)
        ↔ ((v : (P.command_line).Values) × (parsed ≡ values v) × StepsSucceed v w')
  behind_parser (values v) w w' = (
    λ ok. (v, refl, Boots-StepsSucceed v w' (run_boots (args_of P.command_line v) w' ok)),
    λ (u, same, steps).
        boots_run (args_of P.command_line v) w'
          (StepsSucceed-Boots v w' (rw (ap (value_or v) same) steps)),
  )
  behind_parser (parse_error e) w w' = (λ ok. cc ok, λ (u, same, steps). cc same)
  behind_parser terminated w w' = (λ ok. cc ok, λ (u, same, steps). cc same)

-- Main ends without an error exactly if the parser of the command line returns values of the flags,
-- and no step that follows has an error, each in the world that the one before has left. The steps
-- are, with exactly these arguments: with --debug, the logger is set; the configuration of the API
-- server; the manager, with the lock, the leases of 60 and renewals of 50 seconds, and the flags for
-- the synchronisation, the leader election and the rate; the types; with the flag for external secret
-- stores, a line in the log and the default StoreConfig in the namespace of the flag, which may exist
-- already; the controllers, with the logger, the rate, the poll interval and the feature of the
-- flags; and the run of the manager.
pub main_succeeds_iff :
    (D : Deps) (L : ManagerLib D.World D.Error) (P : Platform D L) (program : String)
    (arguments : List String) (w : D.World)
    → let C = P.command_line in
      let (parsed, w') = C.parse (application C program) arguments w in
      ((main D L P program arguments w).0 ≡ going tt)
      ↔ ((v : C.Values) × (parsed ≡ values v) × StepsSucceed D L P v w')
unfolding main
main_succeeds_iff D L P program arguments w =
    let C = P.command_line in
    let p = C.parse (application C program) arguments w in behind_parser D L P p.0 w p.1
