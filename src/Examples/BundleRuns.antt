-- ===== src/Examples/BundleRuns.antt =====
-- A run of the InitBundle controller in the small Central.
use provider_stackrox.Base.{List, ◌≡◌, ◌⊎◌, refl, false, some, [], ◌∷◌}
use provider_stackrox.Base.Named.{find_name}
use provider_stackrox.Api.Managed.{init_bundle}
use provider_stackrox.InitBundle.{observe, create, get_init_bundle}
use provider_stackrox.InitBundle.Runs.{BundleConfig, Quiet, Write, look, make}
use provider_stackrox.Runs.{Call, created, Run, start, quietly, writing}
use provider_stackrox.InitBundle.Once.{IsIssued, one_bundle_at_most}
use provider_stackrox.Examples.Toy.{toy, world}
use provider_stackrox.Examples.ToyLaws.{toy-IsErrors, toy-IsCmp, toy-ServesInitBundles}
use provider_stackrox.Examples.Samples.{bundle}

abbrev before : BundleConfig toy
before = (init_bundle bundle, world [] [] false)

abbrev made : BundleConfig toy
made =
    let o = observe toy (some 1) before.0 before.1 in
    let c = create toy (some 1) o.managed o.world in (c.managed, c.world)

abbrev seen : BundleConfig toy
seen = let o = observe toy (some 1) made.0 made.1 in (o.managed, o.world)

-- The bundle is generated, and then seen.
run_issued : Run (Quiet toy toy-ServesInitBundles "b") (Write toy) before (created ∷ []) seen
unfolding find_name observe create get_init_bundle
run_issued =
    quietly (writing start (make (some 1) before.0 before.1 refl refl refl))
      (look (some 1) made.0 made.1)

one_bundle_at_most_example :
    (◌≡◌ {A = List Call} (created ∷ []) [])
    ⊎ ((◌≡◌ {A = List Call} (created ∷ []) (created ∷ []))
        × IsIssued toy toy-ServesInitBundles "b" seen)
one_bundle_at_most_example =
    one_bundle_at_most toy toy-IsErrors toy-IsCmp toy-ServesInitBundles "b" refl run_issued
