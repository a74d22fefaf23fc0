-- ===== src/Cluster/Removal.antt =====
-- cluster.go: Delete after Observe.
use provider_stackrox.Base.{◌≡◌, refl, ap, Option, none, some, arith}
use provider_stackrox.Base.Named.{find_name, OnlyId, find_name-remove_id}
use provider_stackrox.Deps.{Deps}
use provider_stackrox.Deps.Errors.{IsErrors}
use provider_stackrox.Deps.Laws.{ServesClusters}
use provider_stackrox.Api.Cluster
use provider_stackrox.Api.Cluster.{Cluster}
use provider_stackrox.Api.Managed.{no_observation, returned, cluster}
use provider_stackrox.Cluster.Convert.{generate_observation}
use provider_stackrox.Cluster.{delete, observed, observe, err_delete_failed}
use provider_stackrox.Cluster.Observe.{observe_of_found, observe_of_absent}

module _ (D : Deps) (E : IsErrors D.errors) (S : ServesClusters D) where
  pub delete_of_ok :
      (conn : Option D.ClientConn) (cr : Cluster D) (w : D.World)
      → (D.delete_cluster conn cr.status.at_provider.id w).0 ≡ none
      → delete D conn (cluster cr) w
        ≡ returned D tt none
            (cluster (Cluster.set_conditions D cr (D.deleting w)))
            (D.delete_cluster conn cr.status.at_provider.id w).1
  unfolding delete Cluster.set_conditions
  delete_of_ok conn cr w ok = ground (arith, E.wrap_nil err_delete_failed)

  -- Central stores clusters of the resource's name under one identifier only, and answers all
  -- three calls. Then Observe, Delete of what Observe has returned, and Observe again end without
  -- an error and with a resource that does not exist.
  pub observe-delete-observe :
      (conn : Option D.ClientConn) (cr : Cluster D) (w : D.World) (remote : D.StorageCluster)
      → find_name D.get_name cr.spec.for_provider.name (S.stored w) ≡ some remote
      → OnlyId D.get_name D.get_id cr.spec.for_provider.name (D.get_id remote) (S.stored w)
      → (D.get_clusters conn w).1 ≡ none
      → (D.delete_cluster conn (D.get_id remote) (D.get_clusters conn w).2).0 ≡ none
      → (D.get_clusters conn
          (D.delete_cluster conn (D.get_id remote) (D.get_clusters conn w).2).1).1
        ≡ none
      → let o = observe D conn (cluster cr) w in
        let d = delete D conn o.managed o.world in
        let o' = observe D conn d.managed d.world in
        (o.error ≡ none) × (d.error ≡ none) × (o'.error ≡ none) × (o'.value ≡ no_observation)
  unfolding observed generate_observation Cluster.set_at_provider Cluster.set_conditions
      Cluster.set_external_name
  observe-delete-observe conn cr w remote f only ok deleted again =
      let listed = S.get_clusters-stored conn w ok in
      let w1 = (D.get_clusters conn w).2 in
      let gone = D.delete_cluster conn (D.get_id remote) w1 in
      let cr1 = observed D cr remote w1 in
      let cr2 = Cluster.set_conditions D cr1 (D.deleting w1) in
      let at1 = observe_of_found D conn cr w remote ok (rw listed f) in
      let at2 = delete_of_ok conn cr1 w1 deleted in
      let at3 = observe_of_absent D conn cr2 gone.1 again (
        rw (S.get_clusters-stored conn gone.1 again) (
          rw (S.stored-delete_cluster conn (D.get_id remote) w1 deleted) (
            rw (S.stored-get_clusters conn w)
              (find_name-remove_id D.get_name D.get_id _ _ _ only)))) in
      rw at1 (rw at2 (refl, refl, ap (λ r. r.error) at3, ap (λ r. r.value) at3))
