-- ===== src/Main/Boot.antt =====
-- cmd/provider/main.go: the steps of main and the ways in which the process ends.
use provider_stackrox.Base.{
  String, ◌≡◌, ◌⊎◌, Option, Option-cases, Bool-cases, inl, inr, refl, ◌∙◌, none, some, arith,
  if◌then◌else◌,
}
use provider_stackrox.Deps.{Deps}
use provider_stackrox.Deps.Manager.{ManagerLib}
use provider_stackrox.Api.Kinds.{add_to_scheme}
use provider_stackrox.CommandLine.{Args}
use provider_stackrox.Setup.{setup}
use provider_stackrox.Main.{
  Platform, Run, going, exited, ◌>>=◌, ◌>>◌, fatal, fatal_if_error, default_store, manager_options,
  controller_options, ensure_store_config, debug_logger, announce, run,
}
use provider_stackrox.Main.Steps.{
  going_on, ending, going_on_checked, ending_checked, going_last, ending_last,
}

module _ (D : Deps) (L : ManagerLib D.World D.Error) (P : Platform D L) (a : Args)
    (w : D.World) where
  -- The worlds and values along the calls of main.
  abbrev pub got : P.RestConfig × Option D.Error × D.World
  got = P.get_config (debug_logger D L P a w)

  abbrev pub managed : L.Manager × Option D.Error × D.World
  managed =
      P.new_manager (P.limit_rest_config got.0 a.max_reconcile_rate) (manager_options D L P a) got.2

  abbrev pub added : Option D.Error × D.World
  added = add_to_scheme L.schemes (L.get_scheme managed.0) managed.2

  abbrev pub created : Option D.Error × D.World
  created =
      P.create_store_config (L.get_client managed.0)
        (record { name = "default"; default_scope = a.namespace }) (announce D L P a added.1)

  -- With the flag, the default store config is created, or exists; without it, nothing is done.
  abbrev pub stored : Option D.Error × D.World
  stored =
      if a.enable_external_secret_stores
      then (P.ignore_already_exists created.0, created.1)
      else (none, added.1)

  abbrev pub controllers : Option D.Error × D.World
  controllers = setup D L P.complete managed.0 (controller_options D L P a) stored.1

  abbrev pub started : Option D.Error × D.World
  started = P.start managed.0 controllers.1

  -- Every step succeeds, each in the world that the one before has left.
  pub record Boots : Type 0 where
    pub gets_config : got.1 ≡ none
    pub makes_manager : managed.1 ≡ none
    pub knows_types : added.0 ≡ none
    pub has_store : stored.0 ≡ none
    pub sets_up : controllers.0 ≡ none
    pub ends : started.0 ≡ none

  -- What main does behind each of its steps.
  abbrev behind_setup : L.Manager → D.World → Run D (Unit {0}) × D.World
  behind_setup mgr = fatal D (P.start mgr) "Cannot start controller manager"

  abbrev behind_store : L.Manager → D.World → Run D (Unit {0}) × D.World
  behind_store mgr =
      ◌>>◌ D
        (fatal D (setup D L P.complete mgr (controller_options D L P a))
          "Cannot setup Stackrox controllers")
        (behind_setup mgr)

  abbrev behind_types : L.Manager → D.World → Run D (Unit {0}) × D.World
  behind_types mgr = ◌>>◌ D (default_store D L P a mgr) (behind_store mgr)

  abbrev behind_manager : L.Manager → D.World → Run D (Unit {0}) × D.World
  behind_manager mgr =
      ◌>>◌ D
        (fatal D (add_to_scheme L.schemes (L.get_scheme mgr)) "Cannot add Stackrox APIs to scheme")
        (behind_types mgr)

  abbrev behind_config : P.RestConfig → D.World → Run D (Unit {0}) × D.World
  behind_config cfg =
      ◌>>=◌ D
        (fatal_if_error D
          (P.new_manager (P.limit_rest_config cfg a.max_reconcile_rate) (manager_options D L P a))
          "Cannot create controller manager")
        behind_manager

  stored_going :
      {B : Type 0} (k : D.World → Run D B × D.World)
      → stored.0 ≡ none
      → ◌>>◌ D (default_store D L P a managed.0) k added.1 ≡ k stored.1
  stored_going k h = elim (Bool-cases a.enable_external_secret_stores) [
    | inl on ↦ rw on (
        going_on_checked D (ensure_store_config D L P managed.0 a.namespace)
          "cannot create default store config" k (announce D L P a added.1) (rw on at h))
    | inr off ↦ rw off refl
  ]

  stored_ending :
      {B : Type 0} (k : D.World → Run D B × D.World) (e : D.Error)
      → stored.0 ≡ some e
      → ◌>>◌ D (default_store D L P a managed.0) k added.1
        ≡ (exited "cannot create default store config" e, stored.1)
  stored_ending k e h = ground arith

  from_config : got.1 ≡ none → run D L P a w ≡ behind_config got.0 got.2
  unfolding run
  from_config h =
      going_on D P.get_config "Cannot get API server rest config" behind_config
        (debug_logger D L P a w) h

  from_manager :
      got.1 ≡ none → managed.1 ≡ none → run D L P a w ≡ behind_manager managed.0 managed.2
  from_manager h1 h2 =
      from_config h1
      ∙ going_on D
          (P.new_manager (P.limit_rest_config got.0 a.max_reconcile_rate) (manager_options D L P a))
          "Cannot create controller manager" behind_manager got.2 h2

  from_types :
      got.1 ≡ none
      → managed.1 ≡ none
      → added.0 ≡ none
      → run D L P a w ≡ behind_types managed.0 added.1
  from_types h1 h2 h3 =
      from_manager h1 h2
      ∙ going_on_checked D (add_to_scheme L.schemes (L.get_scheme managed.0))
          "Cannot add Stackrox APIs to scheme" (behind_types managed.0) managed.2 h3

  from_store :
      got.1 ≡ none
      → managed.1 ≡ none
      → added.0 ≡ none
      → stored.0 ≡ none
      → run D L P a w ≡ behind_store managed.0 stored.1
  from_store h1 h2 h3 h4 = from_types h1 h2 h3 ∙ stored_going (behind_store managed.0) h4

  from_setup :
      got.1 ≡ none
      → managed.1 ≡ none
      → added.0 ≡ none
      → stored.0 ≡ none
      → controllers.0 ≡ none
      → run D L P a w ≡ behind_setup managed.0 controllers.1
  from_setup h1 h2 h3 h4 h5 =
      from_store h1 h2 h3 h4
      ∙ going_on_checked D (setup D L P.complete managed.0 (controller_options D L P a))
          "Cannot setup Stackrox controllers" (behind_setup managed.0) stored.1 h5

  -- The end of the process with the message and the error of a step.
  abbrev pub Exits : String → Option D.Error → D.World → Type 0
  Exits text err w' = (e : D.Error) × (err ≡ some e) × (run D L P a w ≡ (exited text e, w'))

  -- The ways in which the steps end.
  abbrev pub Outcome : Type 0
  Outcome =
      Exits "Cannot get API server rest config" got.1 got.2
      ⊎ Exits "Cannot create controller manager" managed.1 managed.2
      ⊎ Exits "Cannot add Stackrox APIs to scheme" added.0 added.1
      ⊎ Exits "cannot create default store config" stored.0 stored.1
      ⊎ Exits "Cannot setup Stackrox controllers" controllers.0 controllers.1
      ⊎ Exits "Cannot start controller manager" started.0 started.1
      ⊎ (Boots × (run D L P a w ≡ (going tt, started.1)))

  pub run_outcome : Outcome
  run_outcome = elim (Option-cases got.1) [
    | inr (e, bad) ↦
        inl (
          e,
          bad,
          unfold run in ending D P.get_config _ behind_config (debug_logger D L P a w) e bad,
        )
    | inl h1 ↦ inr (elim (Option-cases managed.1) [
      | inr (e, bad) ↦ inl (
        e,
        bad,
        from_config h1
            ∙ ending D
                (P.new_manager (P.limit_rest_config got.0 a.max_reconcile_rate)
                  (manager_options D L P a))
                _ behind_manager got.2 e bad,
      )
      | inl h2 ↦ inr (elim (Option-cases added.0) [
        | inr (e, bad) ↦ inl (
          e,
          bad,
          from_manager h1 h2
              ∙ ending_checked D (add_to_scheme L.schemes (L.get_scheme managed.0)) _
                  (behind_types managed.0) managed.2 e bad,
        )
        | inl h3 ↦ inr (elim (Option-cases stored.0) [
          | inr (e, bad) ↦
              inl (e, bad, from_types h1 h2 h3 ∙ stored_ending (behind_store managed.0) e bad)
          | inl h4 ↦ inr (elim (Option-cases controllers.0) [
            | inr (e, bad) ↦ inl (
              e,
              bad,
              from_store h1 h2 h3 h4
                  ∙ ending_checked D (setup D L P.complete managed.0 (controller_options D L P a)) _
                      (behind_setup managed.0) stored.1 e bad,
            )
            | inl h5 ↦ inr (elim (Option-cases started.0) [
              | inr (e, bad) ↦ inl (
                e,
                bad,
                from_setup h1 h2 h3 h4 h5 ∙ ending_last D (P.start managed.0) _ controllers.1 e bad,
              )
              | inl h6 ↦ inr (
                record {
                  gets_config = h1;
                  makes_manager = h2;
                  knows_types = h3;
                  has_store = h4;
                  sets_up = h5;
                  ends = h6;
                },
                from_setup h1 h2 h3 h4 h5 ∙ going_last D (P.start managed.0) _ controllers.1 h6,
              )
            ])
          ])
        ])
      ])
    ])
  ]
