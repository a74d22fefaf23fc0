-- ===== src/Cluster.antt =====
-- pkg/controller/cluster/cluster.go: the external client that reconciles a Cluster resource with
-- Central. A clause takes the resource apart where the source has a type assertion.
pub mod Convert
pub mod Roundtrip
pub mod Lookup
pub mod Drift
pub mod Kept
pub mod Observe
pub mod Writes
pub mod Convergence
pub mod Removal
pub mod Reversal
pub mod Deletion
pub mod Frame
pub mod Runs
pub mod Success
pub mod Settled
pub mod Once
use provider_stackrox.Base.{
  String, Bool, true, false, Option, none, some, List, [], ◌∷◌, ◌==◌, if◌then◌else◌,
}
use provider_stackrox.Base.Named.{find_name}
use provider_stackrox.Deps.{Deps}
use provider_stackrox.Api.Cluster
use provider_stackrox.Api.Cluster.{Cluster}
use provider_stackrox.Api.Managed.{
  Managed, cluster, Returned, returned, no_observation, no_creation, no_update, ExternalObservation,
  ExternalCreation, ExternalUpdate,
}
use provider_stackrox.Cluster.Convert.{generate_observation, generate_cluster, is_up_to_date}

abbrev pub err_not_cluster : String
err_not_cluster = "managed resource is not a Cluster custom resource"

abbrev pub err_get_failed : String
err_get_failed = "cannot get cluster"

abbrev pub err_observe_failed : String
err_observe_failed = "cannot observe cluster"

abbrev pub err_create_failed : String
err_create_failed = "cannot create cluster"

abbrev pub err_update_failed : String
err_update_failed = "cannot update cluster"

abbrev pub err_delete_failed : String
err_delete_failed = "cannot delete cluster"

module _ (D : Deps) where
  -- `none` beside a nil error is the `nil, nil` of the source.
  unfoldable pub get_cluster :
      Option D.ClientConn → Cluster D → D.World → Option D.StorageCluster × Option D.Error × D.World
  get_cluster client cr w =
      let (listed, err, w') = D.get_clusters client w in
      elim err [
        | some e ↦ (none, D.wrap (some e) err_get_failed, w')
        | none ↦ (find_name D.get_name cr.spec.for_provider.name listed, none, w')
      ]

  -- The writes that Observe makes to the resource once it has found the cluster.
  unfoldable pub observed : Cluster D → D.StorageCluster → D.World → Cluster D
  observed cr remote w =
      let cr1 = Cluster.set_at_provider D cr (generate_observation D remote) in
      let cr2 = Cluster.set_conditions D cr1 (D.available w) in
      Cluster.set_external_name D cr2 (D.get_name remote)

  unfoldable pub observe :
      Option D.ClientConn → Managed D → D.World → Returned D ExternalObservation
  unfolding observed
  observe client (cluster cr) w =
      let (found, err, w') = get_cluster client cr w in
      elim err [
        | some e ↦ returned D no_observation (D.wrap (some e) err_observe_failed) (cluster cr) w'
        | none ↦ elim found [
          | none ↦ returned D no_observation none (cluster cr) w'
          | some remote ↦
              let cr' = observed cr remote w' in
              let (up_to_date, diff) = is_up_to_date D cr' remote in
              returned D
                (record { resource_exists = true; resource_up_to_date = up_to_date; diff = diff })
                none (cluster cr') w'
        ]
      ]
  observe client mg w = returned D no_observation (some (D.new_error err_not_cluster)) mg w

  -- `if c := resp.GetCluster(); c != nil { … }`
  unfoldable pub record_reply : Cluster D → Option D.StorageCluster → Cluster D
  record_reply cr none = cr
  record_reply cr (some c) =
      Cluster.set_external_name D (Cluster.set_at_provider D cr (generate_observation D c))
        (D.get_name c)

  unfoldable pub create :
      Option D.ClientConn → Managed D → D.World → Returned D (ExternalCreation D)
  unfolding record_reply
  create client (cluster cr) w =
      let cr' = Cluster.set_conditions D cr (D.creating w) in
      let req = generate_cluster D cr'.spec.for_provider none in
      let (resp, err, w') = D.post_cluster client req w in
      elim err [
        | some e ↦ returned D (no_creation D) (D.wrap (some e) err_create_failed) (cluster cr') w'
        | none ↦ returned D (no_creation D) none (cluster (record_reply cr' resp)) w'
      ]
  create client mg w = returned D (no_creation D) (some (D.new_error err_not_cluster)) mg w

  unfoldable pub update : Option D.ClientConn → Managed D → D.World → Returned D (ExternalUpdate D)
  unfolding record_reply
  update client (cluster cr) w =
      let (found, err, w1) = get_cluster client cr w in
      elim err [
        | some e ↦ returned D (no_update D) (D.wrap (some e) err_update_failed) (cluster cr) w1
        | none ↦ elim found [
          | none ↦ returned D (no_update D) none (cluster cr) w1
          | some remote ↦
              let req = generate_cluster D cr.spec.for_provider (some remote) in
              let (resp, put_err, w2) = D.put_cluster client req w1 in
              elim put_err [
                | some e ↦
                    returned D (no_update D) (D.wrap (some e) err_create_failed) (cluster cr) w2
                | none ↦ returned D (no_update D) none (cluster (record_reply cr resp)) w2
              ]
        ]
      ]
  update client mg w = returned D (no_update D) (some (D.new_error err_not_cluster)) mg w

  unfoldable pub delete : Option D.ClientConn → Managed D → D.World → Returned D (Unit {0})
  delete client (cluster cr) w =
      let cr' = Cluster.set_conditions D cr (D.deleting w) in
      let (err, w') = D.delete_cluster client cr'.status.at_provider.id w in
      returned D tt (D.wrap err err_delete_failed) (cluster cr') w'
  delete client mg w = returned D tt (some (D.new_error err_not_cluster)) mg w
