-- ===== src/Examples/Runs.antt =====
-- Runs of the Cluster controller in the small Central.
use provider_stackrox.Base.{List, ◌≡◌, ◌⊎◌, refl, true, false, some, [], ◌∷◌}
use provider_stackrox.Base.Named.{find_name}
use provider_stackrox.Api.Cluster
use provider_stackrox.Api.Managed.{cluster}
use provider_stackrox.Cluster.{observe, create, get_cluster}
use provider_stackrox.Cluster.Convert.{generate_cluster, observed_parameters}
use provider_stackrox.Cluster.Runs.{Config, Quiet, Write, look, make, make_in_vain, elsewhere}
use provider_stackrox.Runs.{Call, created, Run, start, quietly, writing}
use provider_stackrox.Cluster.Settled.{IsSettled, IsShown, KeepsConfigured}
use provider_stackrox.Cluster.Once.{needed, writes_at_most_once, Run-IsSettled}
use provider_stackrox.Examples.Toy.{toy, world}
use provider_stackrox.Examples.ToyLaws.{
  toy-IsErrors, toy-IsStorage, toy-IsCmp, toy-DeclaresNames, toy-ServesClusters,
}
use provider_stackrox.Examples.Samples.{params, prod, dev_cluster}
use provider_stackrox.Examples.Clusters.{params-IsAdmitted, assigned-Keeps, kept-Keeps, sent}

-- Central has another cluster only, and is down: a Create fails. Once it is up again, the resource is
-- made, and then seen twice.
abbrev cut : Config toy
cut = (cluster prod, world (dev_cluster ∷ []) [] true)

abbrev in_vain : Config toy
in_vain = let c = create toy (some 1) cut.0 cut.1 in (c.managed, c.world)

abbrev before : Config toy
before = (in_vain.0, world (dev_cluster ∷ []) [] false)

abbrev made : Config toy
made =
    let o = observe toy (some 1) before.0 before.1 in
    let c = create toy (some 1) o.managed o.world in (c.managed, c.world)

abbrev seen : Config toy → Config toy
seen s = let o = observe toy (some 1) s.0 s.1 in (o.managed, o.world)

run_made :
    Run (Quiet toy toy-ServesClusters "prod") (Write toy) cut (created ∷ []) (seen (seen made))
unfolding find_name observe create get_cluster toy-ServesClusters Cluster.set_conditions
run_made =
    quietly
      (quietly
        (writing
          (quietly
            (quietly start
              (make_in_vain (some 1) cut.0 cut.1 "cannot create cluster: unavailable" refl refl))
            (elsewhere in_vain.0 in_vain.1 before.1 refl))
          (make (some 1) before.0 before.1 refl refl refl))
        (look (some 1) made.0 made.1))
      (look (some 1) (seen made).0 (seen made).1)

params-KeepsConfigured : KeepsConfigured toy toy-ServesClusters params
unfolding toy-ServesClusters
params-KeepsConfigured = record {
  keeps_added = λ c base w. assigned-Keeps (generate_cluster toy params base) w;
  keeps_put = λ c base w. kept-Keeps (generate_cluster toy params base);
}

writes_at_most_once_example :
    (◌≡◌ {A = List Call} (created ∷ []) [])
    ⊎ ((◌≡◌ {A = List Call} (created ∷ []) (needed toy toy-ServesClusters "prod" cut ∷ []))
        × IsShown toy toy-ServesClusters params (seen (seen made)))
writes_at_most_once_example =
    writes_at_most_once toy toy-IsErrors toy-IsStorage toy-IsCmp toy-ServesClusters params
      toy-DeclaresNames params-KeepsConfigured params-IsAdmitted refl run_made

-- Central has what the resource asks for.
abbrev settled : Config toy
settled = (cluster prod, world (dev_cluster ∷ sent ∷ []) [] false)

settled-IsSettled : IsSettled toy toy-ServesClusters params settled
unfolding find_name observed_parameters toy-ServesClusters
settled-IsSettled = record { asks = refl; remote = sent; stores = refl; reads_back = refl }

Run-IsSettled_example :
    (◌≡◌ {A = List Call} [] []) × IsSettled toy toy-ServesClusters params (seen (seen settled))
Run-IsSettled_example =
    Run-IsSettled toy toy-IsErrors toy-IsStorage toy-IsCmp toy-ServesClusters params
      settled-IsSettled
      (quietly (quietly start (look (some 1) settled.0 settled.1))
        (look (some 1) (seen settled).0 (seen settled).1))
