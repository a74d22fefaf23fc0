-- ===== src/Cluster/Observe.antt =====
-- cluster.go: Observe on each of its branches.
use provider_stackrox.Base.{
  ◌<>◌, ◌≡◌, ◌⊎◌, refl, ap, true, Option, Option-cases, inl, inr, none, some, List, arith,
}
use provider_stackrox.Base.Named.{find_name, Unnamed, IsFirst, find_name-none, find_name-IsFirst}
use provider_stackrox.Deps.{Deps}
use provider_stackrox.Deps.Errors.{IsErrors}
use provider_stackrox.Deps.Runtime.{IsRuntime}
use provider_stackrox.Deps.Laws.{ServesClusters}
use provider_stackrox.Api.Cluster
use provider_stackrox.Api.Cluster.{Cluster}
use provider_stackrox.Api.Managed.{no_observation, returned, Managed, cluster, ExternalObservation}
use provider_stackrox.Cluster.Convert.{generate_observation, is_up_to_date}
use provider_stackrox.Cluster.{get_cluster, observed, observe, err_get_failed, err_observe_failed}
use provider_stackrox.Cluster.Lookup.{get_cluster_answered, get_cluster_failed}

module _ (D : Deps) (conn : Option D.ClientConn) (cr : Cluster D) (w : D.World) where
  open cr.spec.for_provider use {name}

  abbrev listed : List D.StorageCluster
  listed = (D.get_clusters conn w).0

  abbrev after : D.World
  after = (D.get_clusters conn w).2

  -- Observe's result for a cluster that getCluster has found.
  abbrev pub found : D.StorageCluster → ExternalObservation
  found c =
      let (up_to_date, diff) = is_up_to_date D (observed D cr c after) c in
      record { resource_exists = true; resource_up_to_date = up_to_date; diff = diff }

  pub observe_of_found :
      (c : D.StorageCluster)
      → (D.get_clusters conn w).1 ≡ none
      → find_name D.get_name name listed ≡ some c
      → observe D conn (cluster cr) w
        ≡ returned D (found c) none (cluster (observed D cr c after)) after
  unfolding observe
  observe_of_found c ok f = ground (arith, get_cluster_answered D conn cr w ok)

  pub observe_of_absent :
      (D.get_clusters conn w).1 ≡ none
      → find_name D.get_name name listed ≡ none
      → observe D conn (cluster cr) w ≡ returned D no_observation none (cluster cr) after
  unfolding observe
  observe_of_absent ok f = ground (arith, get_cluster_answered D conn cr w ok)

  pub observe_of_error :
      (e : D.Error)
      → (D.get_clusters conn w).1 ≡ some e
      → (E : IsErrors D.errors)
      → observe D conn (cluster cr) w
        ≡ returned D no_observation
            (some (E.wrapped (E.wrapped e err_get_failed) err_observe_failed))
            (cluster cr)
            after
  unfolding observe
  observe_of_error e bad E = ground (
    arith,
    get_cluster_failed D conn cr w e bad,
    E.wrap_err e err_get_failed,
    E.wrap_err (E.wrapped e err_get_failed) err_observe_failed,
  )

module _ (D : Deps) (S : ServesClusters D) where
  -- When Central answers, one of two things happens. Central stores a cluster of the resource's
  -- name: Observe reports the first one, with isUpToDate's verdict, and records it in the resource.
  -- Or it stores none: Observe reports that the resource does not exist and leaves it as it was.
  -- Neither is an error.
  pub observe_answered :
      (conn : Option D.ClientConn) (cr : Cluster D) (w : D.World)
      → (D.get_clusters conn w).1 ≡ none
      → let name = cr.spec.for_provider.name in
        let w' = (D.get_clusters conn w).2 in
        let o = observe D conn (cluster cr) w in
        ((c : D.StorageCluster) × IsFirst D.get_name name (S.stored w) c
          × (o ≡ returned D (found D conn cr w c) none (cluster (observed D cr c w')) w'))
        ⊎ (Unnamed D.get_name name (S.stored w)
            × (o ≡ returned D no_observation none (cluster cr) w'))
  observe_answered conn cr w ok =
      let name = cr.spec.for_provider.name in
      let listed = S.get_clusters-stored conn w ok in
      elim (Option-cases (find_name D.get_name name (S.stored w))) [
        | inl f ↦ inr (
          (find_name-none D.get_name name (S.stored w)).0 f,
          observe_of_absent D conn cr w ok (rw listed f),
        )
        | inr (c, f) ↦ inl (
          c,
          find_name-IsFirst D.get_name name (S.stored w) c f,
          observe_of_found D conn cr w c ok (rw listed f),
        )
      ]

  -- Observe changes nothing that Central stores, whatever the resource and whether it fails or not.
  pub stored-observe :
      (conn : Option D.ClientConn) (mg : Managed D) (w : D.World)
      → S.stored (observe D conn mg w).world ≡ S.stored w
  unfolding observe get_cluster
  stored-observe conn (cluster cr) w = ground (arith, S.stored-get_clusters conn w)
  stored-observe conn _ w = refl

module _ (D : Deps) (X : IsRuntime D.runtime) where
  -- What Observe records of a cluster that it has found: the observation in the status, the name of
  -- the cluster as the external name, and the condition Available. The spec stays.
  pub observed_records :
      (cr : Cluster D) (c : D.StorageCluster) (w : D.World)
      → let cr' = observed D cr c w in
        (cr'.status.at_provider ≡ generate_observation D c)
        × (D.external_name cr'.object_meta ≡ D.get_name c)
        × X.SameState (Cluster.get_condition D cr' D.type_ready) (D.available w)
        × (cr'.spec ≡ cr.spec)
  unfolding observed Cluster.set_at_provider Cluster.set_conditions Cluster.set_external_name
      Cluster.get_condition
  observed_records cr c w = (
    refl,
    X.external_name-set cr.object_meta (D.get_name c),
    X.ready-set_available cr.status.resource_status w,
    refl,
  )

module _ (D : Deps) (E : IsErrors D.errors) where
  -- When Central does not answer, Observe fails with both contexts before the cause, reports
  -- nothing and leaves the resource as it was.
  pub observe_error :
      (conn : Option D.ClientConn) (cr : Cluster D) (w : D.World) (e : D.Error)
      → (D.get_clusters conn w).1 ≡ some e
      → let o = observe D conn (cluster cr) w in
        ((e' : D.Error) × (o.error ≡ some e')
          × (D.message e'
              ≡ "cannot observe cluster"
                <> (": " <> ("cannot get cluster" <> (": " <> D.message e)))))
        × (o.value ≡ no_observation)
        × (o.managed ≡ cluster cr)
  observe_error conn cr w e bad =
      let at = observe_of_error D conn cr w e bad E in
      (
        (
          E.wrapped (E.wrapped e err_get_failed) err_observe_failed,
          ap (λ r. r.error) at,
          rw E.message-wrapped (rw E.message-wrapped),
        ),
        ap (λ r. r.value) at,
        ap (λ r. r.managed) at,
      )
