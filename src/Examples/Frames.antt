-- ===== src/Examples/Frames.antt =====
-- The theorems about clusters of other names, and about requests one after another, at concrete
-- inputs.
use provider_stackrox.Base.{String, ◌≡◌, ◌≢◌, refl, false, some, [], ◌∷◌, arith, eq_iff}
use provider_stackrox.Base.Named.{find_name}
use provider_stackrox.Api.Managed.{cluster}
use provider_stackrox.Cluster.{create, update, delete}
use provider_stackrox.Examples.Clusters.{two, up, dev-ne-prod}
use provider_stackrox.Cluster.Frame.{update_keeps_others, create_keeps_others, delete_keeps_others}
use provider_stackrox.Examples.Toy.{toy, world}
use provider_stackrox.Examples.ToyLaws.{toy-IsErrors, toy-IsStorage, toy-ServesClusters}
use provider_stackrox.Examples.Samples.{prod, dev_cluster, prod_cluster}

c0-ne-c1 : ◌≢◌ {A = String} "c0" "c1"
c0-ne-c1 = ground (arith, eq_iff "c0" "c1")

update_keeps_others_example :
    find_name toy.get_name "dev" (update toy (some 1) (cluster prod) up).world.clusters
    ≡ find_name toy.get_name "dev" two
unfolding find_name toy-ServesClusters
update_keeps_others_example =
    update_keeps_others toy toy-IsStorage toy-ServesClusters (some 1) prod up prod_cluster "dev"
      refl refl (λ e. absurd (c0-ne-c1 e), (λ e. refl, tt)) refl dev-ne-prod

create_keeps_others_example :
    find_name toy.get_name "dev"
      (create toy (some 1) (cluster prod) (world (dev_cluster ∷ []) [] false)).world.clusters
    ≡ find_name toy.get_name "dev" (dev_cluster ∷ [])
unfolding toy-ServesClusters
create_keeps_others_example =
    create_keeps_others toy toy-IsStorage toy-ServesClusters (some 1) prod
      (world (dev_cluster ∷ []) [] false) "dev" refl dev-ne-prod

delete_keeps_others_example :
    find_name toy.get_name "dev" (delete toy (some 1) (cluster prod) up).world.clusters
    ≡ find_name toy.get_name "dev" two
unfolding toy-ServesClusters
delete_keeps_others_example =
    delete_keeps_others toy toy-IsErrors toy-ServesClusters (some 1) prod up "dev"
      (λ e. absurd (c0-ne-c1 e), (λ e. refl, tt)) refl dev-ne-prod
