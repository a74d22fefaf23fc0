-- ===== src/Examples/Clusters.antt =====
-- The theorems about the Cluster controller at concrete inputs, and tests of its functions.
use provider_stackrox.Base.{
  String, ◌≡◌, ◌≢◌, ◌↔◌, ◌⊎◌, refl, pos, true, false, none, some, List, [], ◌∷◌, arith, eq_iff, inr,
}
use provider_stackrox.Base.Named.{find_name, IsFirst, Unnamed}
use provider_stackrox.Deps.Storage.{view}
use provider_stackrox.Api.Cluster
use provider_stackrox.Api.Parameters.{ClusterParameters}
use provider_stackrox.Api.Managed.{cluster, no_observation, returned}
use provider_stackrox.Cluster.{get_cluster, observe, create, update, delete, observed}
use provider_stackrox.Cluster.Convert.{
  assign_parameters, generate_cluster, generate_observation, generate_sensor, observed_parameters,
  is_up_to_date,
}
use provider_stackrox.Cluster.Roundtrip.{
  view-generate_cluster, generate_observation-generate_cluster,
}
use provider_stackrox.Cluster.Drift.{IsAdmitted, Shows, is_up_to_date_iff}
use provider_stackrox.Cluster.Kept.{Keeps}
use provider_stackrox.Cluster.Observe.{observe_answered, found}
use provider_stackrox.Cluster.Convergence.{Converges, update-Converges, create-Converges}
use provider_stackrox.Cluster.Reversal.{create-delete-observe}
use provider_stackrox.Cluster.Removal.{observe-delete-observe}
use provider_stackrox.Examples.Maps.{cmp_lib}
use provider_stackrox.Examples.Toy.{Stored, World, toy, world, assigned}
use provider_stackrox.Examples.ToyLaws.{
  toy-IsErrors, toy-IsStorage, toy-IsCmp, toy-DeclaresNames, toy-ServesClusters,
}
use provider_stackrox.Examples.Samples.{params, prod, dev_cluster, prod_cluster}

abbrev pub two : List Stored
two = dev_cluster ∷ prod_cluster ∷ []

pub dev-ne-prod : ◌≢◌ {A = String} "dev" "prod"
dev-ne-prod = ground (arith, eq_iff "dev" "prod")

pub params-IsAdmitted : IsAdmitted params
params-IsAdmitted = record { collection_method = inr (inr (inr refl)); type = inr (inr (inr refl)) }

abbrev pub up : World
up = world two [] false

drift_found : (observe toy (some 1) (cluster prod) up).value.resource_up_to_date ≡ false
unfolding observe get_cluster find_name is_up_to_date observed_parameters cmp_lib
    Cluster.set_external_name Cluster.set_conditions Cluster.set_at_provider
drift_found = refl

-- The small Central gives a new cluster an identifier, and puts a cluster as it is sent.
pub kept-Keeps : (req : Stored) → Keeps toy req req
kept-Keeps req = record {
  admission_controller = refl;
  admission_controller_events = refl;
  admission_controller_updates = refl;
  central_api_endpoint = refl;
  collection_method = refl;
  collector_image = refl;
  labels = λ key. refl;
  main_image = refl;
  name = refl;
  slim_collector = refl;
  tolerations = refl;
  type = refl;
}

pub assigned-Keeps : (req : Stored) (w : World) → Keeps toy req (assigned req w)
assigned-Keeps req w = record {
  admission_controller = refl;
  admission_controller_events = refl;
  admission_controller_updates = refl;
  central_api_endpoint = refl;
  collection_method = refl;
  collector_image = refl;
  labels = λ key. refl;
  main_image = refl;
  name = refl;
  slim_collector = refl;
  tolerations = refl;
  type = refl;
}

update-Converges_example :
    let req = generate_cluster toy params (some prod_cluster) in
    Converges toy toy-IsCmp toy-ServesClusters
      (some 1)
      (update toy (some 1) (cluster prod) up)
      req
      (toy-ServesClusters.kept (some 1) req up)
unfolding find_name update get_cluster toy-ServesClusters
update-Converges_example =
    update-Converges toy toy-IsStorage toy-IsCmp toy-DeclaresNames toy-ServesClusters (some 1) prod
      up prod_cluster params-IsAdmitted refl refl refl refl

create-Converges_example :
    let w = world (dev_cluster ∷ []) [] false in
    let req = generate_cluster toy params none in
    Converges toy toy-IsCmp toy-ServesClusters
      (some 1)
      (create toy (some 1) (cluster prod) w)
      req
      (toy-ServesClusters.added (some 1) req w)
unfolding find_name create toy-ServesClusters Cluster.set_conditions
create-Converges_example =
    create-Converges toy toy-IsStorage toy-IsCmp toy-DeclaresNames toy-ServesClusters (some 1) prod
      (world (dev_cluster ∷ []) [] false) params-IsAdmitted refl refl refl

observe-delete-observe_example :
    let o = observe toy (some 1) (cluster prod) up in
    let d = delete toy (some 1) o.managed o.world in
    let o' = observe toy (some 1) d.managed d.world in
    (o.error ≡ none) × (d.error ≡ none) × (o'.error ≡ none) × (o'.value ≡ no_observation)
unfolding find_name toy-ServesClusters
observe-delete-observe_example =
    observe-delete-observe toy toy-IsErrors toy-ServesClusters (some 1) prod up prod_cluster refl
      (λ e. absurd (dev-ne-prod e), (λ e. refl, tt)) refl refl refl

create-delete-observe_example :
    let c = create toy (some 1) (cluster prod) (world (dev_cluster ∷ []) [] false) in
    let d = delete toy (some 1) c.managed c.world in
    let o = observe toy (some 1) d.managed d.world in
    (c.error ≡ none) × (d.error ≡ none) × (o.error ≡ none) × (o.value ≡ no_observation)
unfolding find_name toy-ServesClusters Cluster.set_conditions
create-delete-observe_example =
    create-delete-observe toy toy-IsErrors toy-ServesClusters (some 1) prod
      (world (dev_cluster ∷ []) [] false)
      (assigned (generate_cluster toy params none) (world (dev_cluster ∷ []) [] false)) refl refl
      refl refl refl refl

is_up_to_date_iff_example :
    ((is_up_to_date toy prod prod_cluster).0 ≡ true) ↔ Shows toy params prod_cluster
is_up_to_date_iff_example = is_up_to_date_iff toy toy-IsCmp prod prod_cluster

abbrev pub mistyped : ClusterParameters
mistyped = record params { collection_method = "ebpf" }

abbrev pub sent : Stored
sent = record prod_cluster {
  admission_controller = true;
  central_api_endpoint = "central:443";
  collection_method = pos 3;
  collector_image = "collector";
  main_image = "main";
  slim_collector = true;
  tolerations_config = some false;
  cluster_type = pos 5;
}

request_made : generate_cluster toy params (some prod_cluster) ≡ sent
unfolding generate_cluster assign_parameters
request_made = refl

view-generate_cluster_example :
    view toy.storage (generate_cluster toy params (some prod_cluster)) ≡ view toy.storage sent
unfolding view
view-generate_cluster_example = view-generate_cluster toy toy-IsStorage params (some prod_cluster)

generate_observation-generate_cluster_example :
    generate_observation toy (generate_cluster toy params (some prod_cluster))
    ≡ generate_observation toy sent
unfolding generate_observation generate_sensor
generate_observation-generate_cluster_example =
    generate_observation-generate_cluster toy toy-IsStorage params prod_cluster (pos 3, refl)
      (pos 5, refl)

observe_answered_example :
    let o = observe toy (some 1) (cluster prod) up in
    ((c : Stored) × IsFirst toy.get_name "prod" two c
      × (o
          ≡ returned toy (found toy (some 1) prod up c) none (cluster (observed toy prod c up)) up))
    ⊎ (Unnamed toy.get_name "prod" two × (o ≡ returned toy no_observation none (cluster prod) up))
unfolding toy-ServesClusters
observe_answered_example = observe_answered toy toy-ServesClusters (some 1) prod up refl
