-- ===== src/Cluster/Writes.antt =====
-- cluster.go: Create, Update and Delete on each of their branches.
use mathlib.Core.Option
use provider_stackrox.Base.{◌≡◌, ◌≢◌, ◌⊎◌, refl, Option, Option-cases, inl, inr, none, some, arith}
use provider_stackrox.Base.Named.{find_name}
use provider_stackrox.Deps.{Deps}
use provider_stackrox.Deps.Errors.{IsErrors, wrap-eq-map}
use provider_stackrox.Api.Cluster
use provider_stackrox.Api.Cluster.{Cluster}
use provider_stackrox.Api.Managed.{
  no_observation, no_update, no_creation, returned, Managed, cluster,
}
use provider_stackrox.Cluster.Convert.{generate_cluster}
use provider_stackrox.Cluster.{
  record_reply, create, update, delete, observe, err_get_failed, err_create_failed,
  err_update_failed,
}
use provider_stackrox.Cluster.Lookup.{get_cluster_answered, get_cluster_failed}

module _ (D : Deps) where
  pub spec-record_reply :
      (cr : Cluster D) (resp : Option D.StorageCluster) → (record_reply D cr resp).spec ≡ cr.spec
  unfolding record_reply Cluster.set_at_provider Cluster.set_external_name
  spec-record_reply cr none = refl
  spec-record_reply cr (some c) = refl

module _ (D : Deps) (conn : Option D.ClientConn) (cr : Cluster D) (w : D.World) where
  abbrev pub listed_world : D.World
  listed_world = (D.get_clusters conn w).2

  -- What Update sends for the cluster that it has found.
  abbrev pub update_request : D.StorageCluster → D.StorageCluster
  update_request remote = generate_cluster D cr.spec.for_provider (some remote)

  pub update_of_found :
      (remote : D.StorageCluster)
      → (D.get_clusters conn w).1 ≡ none
      → find_name D.get_name cr.spec.for_provider.name (D.get_clusters conn w).0 ≡ some remote
      → (D.put_cluster conn (update_request remote) listed_world).1 ≡ none
      → let p = D.put_cluster conn (update_request remote) listed_world in
        update D conn (cluster cr) w
        ≡ returned D (no_update D) none (cluster (record_reply D cr p.0)) p.2
  unfolding update
  update_of_found remote ok f sent = ground (arith, get_cluster_answered D conn cr w ok)

  pub update_of_absent :
      (D.get_clusters conn w).1 ≡ none
      → find_name D.get_name cr.spec.for_provider.name (D.get_clusters conn w).0 ≡ none
      → update D conn (cluster cr) w ≡ returned D (no_update D) none (cluster cr) listed_world
  unfolding update
  update_of_absent ok f = ground (arith, get_cluster_answered D conn cr w ok)

  -- The resource that Create sends, and the request.
  abbrev pub creating : Cluster D
  creating = Cluster.set_conditions D cr (D.creating w)

  abbrev pub create_request : D.StorageCluster
  create_request = generate_cluster D creating.spec.for_provider none

  pub create_of_ok :
      (D.post_cluster conn create_request w).1 ≡ none
      → let p = D.post_cluster conn create_request w in
        create D conn (cluster cr) w
        ≡ returned D (no_creation D) none (cluster (record_reply D creating p.0)) p.2
  unfolding create
  create_of_ok sent = ground arith

module _ (D : Deps) (E : IsErrors D.errors) where
  -- If PutCluster fails, Update says "cannot create cluster" before the cause, and the resource
  -- stays as it was.
  pub update_put_error :
      (conn : Option D.ClientConn) (cr : Cluster D) (w : D.World) (remote : D.StorageCluster)
      (e : D.Error)
      → (D.get_clusters conn w).1 ≡ none
      → find_name D.get_name cr.spec.for_provider.name (D.get_clusters conn w).0 ≡ some remote
      → (D.put_cluster conn (update_request D conn cr w remote) (listed_world D conn cr w)).1
        ≡ some e
      → update D conn (cluster cr) w
        ≡ returned D
            (no_update D)
            (some (E.wrapped e "cannot create cluster"))
            (cluster cr)
            (D.put_cluster conn (update_request D conn cr w remote) (listed_world D conn cr w)).2
  unfolding update
  update_put_error conn cr w remote e ok f bad =
      ground (arith, get_cluster_answered D conn cr w ok, E.wrap_err e err_create_failed)

  -- If the clusters cannot be listed, Update sends nothing, says "cannot update cluster: cannot get
  -- cluster" before the cause, and the resource stays as it was.
  pub update_list_error :
      (conn : Option D.ClientConn) (cr : Cluster D) (w : D.World) (e : D.Error)
      → (D.get_clusters conn w).1 ≡ some e
      → update D conn (cluster cr) w
        ≡ returned D
            (no_update D)
            (some (E.wrapped (E.wrapped e "cannot get cluster") "cannot update cluster"))
            (cluster cr)
            (listed_world D conn cr w)
  unfolding update
  update_list_error conn cr w e bad = ground (
    arith,
    get_cluster_failed D conn cr w e bad,
    E.wrap_err e err_get_failed,
    E.wrap_err (E.wrapped e err_get_failed) err_update_failed,
  )

  -- Create returns no connection details, and fails exactly if PostCluster does. Either Central
  -- accepts the cluster that it replies with, and the resource records the reply; or there is an
  -- error, with its context before the cause, and nothing but the condition Creating is recorded.
  pub create_outcome :
      (conn : Option D.ClientConn) (cr : Cluster D) (w : D.World)
      → let cr' = Cluster.set_conditions D cr (D.creating w) in
        let sent = D.post_cluster conn (create_request D conn cr w) w in
        let c = create D conn (cluster cr) w in
        ((sent.1 ≡ none)
          × (c ≡ returned D (no_creation D) none (cluster (record_reply D cr' sent.0)) sent.2))
        ⊎ ((e : D.Error) × (sent.1 ≡ some e)
            × (c
                ≡ returned D
                    (no_creation D)
                    (some (E.wrapped e "cannot create cluster"))
                    (cluster cr')
                    sent.2))
  unfolding create
  create_outcome conn cr w =
      elim (Option-cases (D.post_cluster conn (create_request D conn cr w) w).1) [
        | inl ok ↦ inl (ok, ground arith)
        | inr (e, bad) ↦ inr (e, bad, ground (arith, E.wrap_err e err_create_failed))
      ]

  -- Delete makes one call, for the identifier that the status holds. Its error is Central's with
  -- the context before it, and none if Central has none; on both paths the resource gets the
  -- condition Deleting and nothing else.
  pub delete_outcome :
      (conn : Option D.ClientConn) (cr : Cluster D) (w : D.World)
      → let sent = D.delete_cluster conn cr.status.at_provider.id w in
        delete D conn (cluster cr) w
        ≡ returned D tt
            (Option.map (λ e. E.wrapped e "cannot delete cluster") sent.0)
            (cluster (Cluster.set_conditions D cr (D.deleting w)))
            sent.1
  unfolding delete Cluster.set_conditions
  delete_outcome conn cr w =
      rw (wrap-eq-map D.errors E (D.delete_cluster conn cr.status.at_provider.id w).0)

-- Every operation refuses a resource of another kind with the same error, whatever the connection,
-- and touches neither the resource nor the world.
pub wrong_kind :
    (D : Deps) (conn : Option D.ClientConn) (mg : Managed D) (w : D.World)
    → ((cr : Cluster D) → mg ≢ cluster cr)
    → let refused = some (D.new_error "managed resource is not a Cluster custom resource") in
      (observe D conn mg w ≡ returned D no_observation refused mg w)
      × (create D conn mg w ≡ returned D (no_creation D) refused mg w)
      × (update D conn mg w ≡ returned D (no_update D) refused mg w)
      × (delete D conn mg w ≡ returned D tt refused mg w)
unfolding observe create update delete
wrong_kind D conn (cluster cr) w h = absurd (h cr refl)
wrong_kind D conn _ w h = (refl, refl, refl, refl)
