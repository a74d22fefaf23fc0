-- ===== src/Setup/Order.antt =====
-- pkg/controller/stackrox.go: the controllers that Setup adds.
use provider_stackrox.Base.{◌≡◌, ◌⊎◌, Option, none, some, arith}
use provider_stackrox.Deps.{Deps}
use provider_stackrox.Deps.Manager.{ManagerLib}
use provider_stackrox.Setup.{
  Options, Controller, config_controller, cluster_controller, init_bundle_controller, setup,
}

module _ (D : Deps) (L : ManagerLib D.World D.Error) where
  module _ (complete : L.Manager → Controller D L → D.World → Option D.Error × D.World) where
    -- Setup adds the controller of ProviderConfigs, then that of Clusters, then that of InitBundles,
    -- and stops with the error of the first that cannot be added, if any.
    pub setup_outcome :
        (mgr : L.Manager) (o : Options D L) (w : D.World)
        → let (e1, w1) = complete mgr (config_controller D L mgr o) w in
          let (e2, w2) = complete mgr (cluster_controller D L mgr o) w1 in
          let (e3, w3) = complete mgr (init_bundle_controller D L mgr o) w2 in
          let s = setup D L complete mgr o w in
          ((e : D.Error) × (e1 ≡ some e) × (s ≡ (some e, w1)))
          ⊎ ((e : D.Error) × (e1 ≡ none) × (e2 ≡ some e) × (s ≡ (some e, w2)))
          ⊎ ((e : D.Error) × (e1 ≡ none) × (e2 ≡ none) × (e3 ≡ some e) × (s ≡ (some e, w3)))
          ⊎ ((e1 ≡ none) × (e2 ≡ none) × (e3 ≡ none) × (s ≡ (none, w3)))
    unfolding setup
    setup_outcome mgr o w = ground arith
