-- ===== src/Cluster/Reversal.antt =====
-- cluster.go: Delete after Create, with no Observe between them.
use provider_stackrox.Base.{◌≡◌, refl, ap, Option, none, some, ◌∷◌, [], ◌++◌}
use provider_stackrox.Base.Named.{find_name, OnlyId, OnlyId-append, find_name-remove_id}
use provider_stackrox.Deps.{Deps}
use provider_stackrox.Deps.Errors.{IsErrors}
use provider_stackrox.Deps.Laws.{ServesClusters}
use provider_stackrox.Api.Cluster
use provider_stackrox.Api.Cluster.{Cluster}
use provider_stackrox.Api.Managed.{cluster, no_observation}
use provider_stackrox.Cluster.Convert.{generate_observation}
use provider_stackrox.Cluster.{create, delete, observe, record_reply}
use provider_stackrox.Cluster.Observe.{observe_of_absent}
use provider_stackrox.Cluster.Removal.{delete_of_ok}
use provider_stackrox.Cluster.Writes.{create_request, create_of_ok}

module _ (D : Deps) (E : IsErrors D.errors) (S : ServesClusters D) where
  -- Let Central store no cluster of the resource's name, let PostCluster succeed and reply with a
  -- cluster that has the identifier of the one that Central has added, and let Central answer the
  -- two calls that follow. Then Create, Delete of what Create has returned, and Observe of what
  -- Delete has returned end without an error and with a resource that does not exist.
  pub create-delete-observe :
      (conn : Option D.ClientConn) (cr : Cluster D) (w : D.World) (reply : D.StorageCluster)
      → find_name D.get_name cr.spec.for_provider.name (S.stored w) ≡ none
      → (D.post_cluster conn (create_request D conn cr w) w).1 ≡ none
      → (D.post_cluster conn (create_request D conn cr w) w).0 ≡ some reply
      → D.get_id reply ≡ D.get_id (S.added conn (create_request D conn cr w) w)
      → (D.delete_cluster conn
          (D.get_id reply)
          (D.post_cluster conn (create_request D conn cr w) w).2).0
        ≡ none
      → (D.get_clusters conn
          (D.delete_cluster conn
            (D.get_id reply)
            (D.post_cluster conn (create_request D conn cr w) w).2).1).1
        ≡ none
      → let c = create D conn (cluster cr) w in
        let d = delete D conn c.managed c.world in
        let o = observe D conn d.managed d.world in
        (c.error ≡ none) × (d.error ≡ none) × (o.error ≡ none) × (o.value ≡ no_observation)
  unfolding record_reply generate_observation Cluster.set_at_provider Cluster.set_conditions
      Cluster.set_external_name
  create-delete-observe conn cr w reply absent sent replied own deleted again =
      let name = cr.spec.for_provider.name in
      let req = create_request D conn cr w in
      let w1 = (D.post_cluster conn req w).2 in
      let cr1 = record_reply D (Cluster.set_conditions D cr (D.creating w)) (some reply) in
      let cr2 = Cluster.set_conditions D cr1 (D.deleting w1) in
      let gone = D.delete_cluster conn (D.get_id reply) w1 in
      let at1 = create_of_ok D conn cr w sent in
      let at2 = delete_of_ok D E S conn cr1 w1 deleted in
      let only : OnlyId D.get_name D.get_id name (D.get_id reply)
          (S.stored w ++ (S.added conn req w ∷ [])) =
        rw own (OnlyId-append D.get_name D.get_id name (S.stored w) (S.added conn req w) absent) in
      let at3 = observe_of_absent D conn cr2 gone.1 again (
        rw (S.get_clusters-stored conn gone.1 again) (
          rw (S.stored-delete_cluster conn (D.get_id reply) w1 deleted) (
            rw (S.stored-post_cluster conn req w sent)
              (find_name-remove_id D.get_name D.get_id _ _ _ only)))) in
      rw at1 (rw replied (rw at2 (refl, refl, ap (λ r. r.error) at3, ap (λ r. r.value) at3)))
