-- ===== src/Main/Stores.antt =====
-- cmd/provider/main.go: the flag for external secret stores, and the controllers' publishers.
use provider_stackrox.Base.{Bool, true, false, ◌≡◌, List, [], ◌∷◌, arith, if◌then◌else◌}
use provider_stackrox.Deps.{Deps}
use provider_stackrox.Deps.Manager.{ManagerLib, IsFlags}
use provider_stackrox.Setup.{
  Controller, Publisher, api_secret_publisher, details_manager, provider_config_reconciler,
  managed_reconciler, publishers, cluster_controller, init_bundle_controller,
  external_secret_stores,
}
use provider_stackrox.CommandLine.{Args}
use provider_stackrox.Main.{Platform, controller_options}

module _ (D : Deps) (L : ManagerLib D.World D.Error) where
  abbrev pub is_details : Publisher D L → Bool
  is_details (api_secret_publisher c s) = false
  is_details (details_manager c k) = true

  abbrev pub any_details : List (Publisher D L) → Bool
  any_details [] = false
  any_details (p ∷ rest) = if is_details p then true else any_details rest

  -- Whether connection details go to an external secret store.
  abbrev pub publishes_externally : Controller D L → Bool
  publishes_externally c = elim c.reconciler [
    | provider_config_reconciler config usages logger recorder ↦ false
    | managed_reconciler kind connecting logger recorder cps ↦ any_details cps
  ]

  -- With the options that main makes of its flags, both the Cluster and the InitBundle controller
  -- publish connection details to external secret stores exactly if the flag for them is given.
  pub publishes_iff_flag :
      IsFlags L
      → (P : Platform D L) (a : Args) (mgr : L.Manager)
      → let o = controller_options D L P a in
        (publishes_externally (cluster_controller D L mgr o) ≡ a.enable_external_secret_stores)
        × (publishes_externally (init_bundle_controller D L mgr o)
            ≡ a.enable_external_secret_stores)
  unfolding controller_options cluster_controller init_bundle_controller publishers
  publishes_iff_flag F P a mgr =
      let f = external_secret_stores in
      (
        ground (arith, F.enabled-no_flags f, F.enabled-enable L.no_flags f),
        ground (arith, F.enabled-no_flags f, F.enabled-enable L.no_flags f),
      )
