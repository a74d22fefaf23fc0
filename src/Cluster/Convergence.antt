-- ===== src/Cluster/Convergence.antt =====
-- cluster.go: Observe after Create or Update, whatever Central makes of the request.
use provider_stackrox.Base.{◌≡◌, ◌↔◌, refl, sym, ◌∙◌, ap, true, Option, none, some}
use provider_stackrox.Base.Named.{find_name, find_name-replace_id, find_name-append}
use provider_stackrox.Deps.{Deps}
use provider_stackrox.Deps.Storage.{IsStorage, ClusterView, view}
use provider_stackrox.Deps.Laws.{ServesClusters}
use provider_stackrox.Api.Cluster
use provider_stackrox.Api.Cluster.{Cluster}
use provider_stackrox.Api.Parameters.{ClusterParameters, IsCmp}
use provider_stackrox.Api.Managed.{
  no_update, no_creation, returned, cluster, Returned, ExternalObservation,
}
use provider_stackrox.Cluster.Convert.{assign_parameters, generate_cluster}
use provider_stackrox.Cluster.{record_reply, create, update, observed, observe}
use provider_stackrox.Cluster.Drift.{
  IsAdmitted, DeclaresNames, Shows, Shows-SameParameters, is_up_to_date_same, is_up_to_date_iff,
}
use provider_stackrox.Cluster.Kept.{Keeps, Keeps-Shows, Shows-Keeps}
use provider_stackrox.Cluster.Roundtrip.{view-assign_parameters}
use provider_stackrox.Cluster.Observe.{observe_of_found, found}
use provider_stackrox.Cluster.Writes.{
  listed_world, update_request, update_of_found, create_request, create_of_ok, spec-record_reply,
}

-- The report that ends a reconciliation.
abbrev pub in_sync : ExternalObservation
in_sync = record { resource_exists = true; resource_up_to_date = true; diff = "" }

module _ (D : Deps) (L : IsStorage D.storage) where
  pub get_name-assign_parameters :
      (p : ClusterParameters) (base : D.StorageCluster)
      → D.get_name (assign_parameters D p base) ≡ p.name
  unfolding view
  get_name-assign_parameters p base =
      ap (λ (v : ClusterView D.storage). v.name) (view-assign_parameters D L p base)

  pub get_id-assign_parameters :
      (p : ClusterParameters) (base : D.StorageCluster)
      → D.get_id (assign_parameters D p base) ≡ D.get_id base
  unfolding view
  get_id-assign_parameters p base =
      ap (λ (v : ClusterView D.storage). v.id) (view-assign_parameters D L p base)

module _ (D : Deps) (C : IsCmp D.cmp) (S : ServesClusters D) where
  observe_stored :
      (conn : Option D.ClientConn) (cr : Cluster D) (w : D.World) (c : D.StorageCluster)
      → (D.get_clusters conn w).1 ≡ none
      → find_name D.get_name cr.spec.for_provider.name (S.stored w) ≡ some c
      → observe D conn (cluster cr) w
        ≡ returned D
            (found D conn cr w c)
            none
            (cluster (observed D cr c (D.get_clusters conn w).2))
            (D.get_clusters conn w).2
  observe_stored conn cr w c ok f =
      observe_of_found D conn cr w c ok (rw (S.get_clusters-stored conn w ok) f)

  -- Observe, when Central stores a cluster that shows the resource's parameters.
  pub observe-in_sync :
      (p : ClusterParameters) (conn : Option D.ClientConn) (cr : Cluster D) (w : D.World)
      (c : D.StorageCluster)
      → cr.spec.for_provider ≡ p
      → (D.get_clusters conn w).1 ≡ none
      → find_name D.get_name p.name (S.stored w) ≡ some c
      → Shows D p c
      → (observe D conn (cluster cr) w).value ≡ in_sync
  unfolding observed Cluster.set_at_provider Cluster.set_conditions Cluster.set_external_name
  observe-in_sync p conn cr w c own ok f shown =
      let cr' = observed D cr c (D.get_clusters conn w).2 in
      ap (λ r. r.value) (observe_stored conn cr w c ok (rw own f))
      ∙ rw (is_up_to_date_same D C cr' c (rw own (Shows-SameParameters D p c shown))) refl

  -- The call succeeded, and the Observe that follows it reports a resource that exists, and that is
  -- up to date exactly if Central has kept what the request configures.
  abbrev pub Converges :
      {A : Type 0} → Option D.ClientConn → Returned D A → (req c : D.StorageCluster) → Type 0
  Converges conn r req c =
      let o = observe D conn r.managed r.world in
      (r.error ≡ none)
      × (o.error ≡ none)
      × (o.value.resource_exists ≡ true)
      × ((o.value.resource_up_to_date ≡ true) ↔ Keeps D req c)

  module _ (L : IsStorage D.storage) (N : DeclaresNames D) where
    converges :
        {A : Type 0} (p : ClusterParameters) (conn : Option D.ClientConn) (r : Returned D A) (v : A)
        (cr : Cluster D) (w : D.World) (base c : D.StorageCluster)
        → IsAdmitted p
        → r ≡ returned D v none (cluster cr) w
        → cr.spec.for_provider ≡ p
        → (D.get_clusters conn r.world).1 ≡ none
        → find_name D.get_name p.name (S.stored w) ≡ some c
        → Converges conn r (assign_parameters D p base) c
    unfolding observed Cluster.set_at_provider Cluster.set_conditions Cluster.set_external_name
    converges p conn r v cr w base c a at own again f =
        let cr' = observed D cr c (D.get_clusters conn w).2 in
        let seen =
          observe_stored conn cr w c (ap (λ x. (D.get_clusters conn x.world).1) (sym at) ∙ again)
            (rw own f) in
        let (to, from) = is_up_to_date_iff D C cr' c in
        rw at (
          rw seen (
            refl,
            refl,
            refl,
            (
              λ e. Shows-Keeps D L N p base c a (rw (sym own) (to e)),
              λ h. from (rw own (Keeps-Shows D L N p base c a h)),
            ),
          ))

module _ (D : Deps) (L : IsStorage D.storage) (S : ServesClusters D) where
  -- The lookup by the resource's name finds what has been put.
  pub find_name-put_cluster :
      (conn : Option D.ClientConn) (cr : Cluster D) (w : D.World) (remote : D.StorageCluster)
      → find_name D.get_name cr.spec.for_provider.name (S.stored w) ≡ some remote
      → (D.put_cluster conn (update_request D conn cr w remote) (listed_world D conn cr w)).1 ≡ none
      → find_name D.get_name cr.spec.for_provider.name (
          S.stored
            (D.put_cluster conn (update_request D conn cr w remote) (listed_world D conn cr w)).2)
        ≡ some (S.kept conn (update_request D conn cr w remote) (listed_world D conn cr w))
  unfolding generate_cluster
  find_name-put_cluster conn cr w remote f sent =
      let p = cr.spec.for_provider in
      let req = assign_parameters D p remote in
      let w' = listed_world D conn cr w in
      rw (S.stored-put_cluster conn req w' sent) (
        rw (S.stored-get_clusters conn w) (
          find_name-replace_id D.get_name D.get_id p.name (S.stored w) remote (S.kept conn req w') f
            (S.get_name-kept conn req w' ∙ get_name-assign_parameters D L p remote)
            (S.get_id-kept conn req w' ∙ get_id-assign_parameters D L p remote)))

  pub find_name-post_cluster :
      (conn : Option D.ClientConn) (cr : Cluster D) (w : D.World)
      → find_name D.get_name cr.spec.for_provider.name (S.stored w) ≡ none
      → (D.post_cluster conn (create_request D conn cr w) w).1 ≡ none
      → find_name D.get_name cr.spec.for_provider.name
          (S.stored (D.post_cluster conn (create_request D conn cr w) w).2)
        ≡ some (S.added conn (create_request D conn cr w) w)
  unfolding generate_cluster Cluster.set_conditions
  find_name-post_cluster conn cr w f sent =
      let p = cr.spec.for_provider in
      let req = assign_parameters D p D.empty_cluster in
      rw (S.stored-post_cluster conn req w sent) (
        find_name-append D.get_name p.name (S.stored w) (S.added conn req w) f
          (S.get_name-added conn req w ∙ get_name-assign_parameters D L p D.empty_cluster))

module _ (D : Deps) (L : IsStorage D.storage) (C : IsCmp D.cmp) (N : DeclaresNames D)
    (S : ServesClusters D) where
  -- Let the resource's enumerators be admitted, let Central store a cluster of its name, let
  -- PutCluster succeed, and let Central answer before and after. Central may store another cluster
  -- than the request, of the same name and identifier. Then Update returns no error, and the next
  -- Observe reports the resource as existing, and as up to date exactly if what Central has stored
  -- agrees with the request in the twelve fields that a resource configures, nil and empty labels
  -- counting as one.
  pub update-Converges :
      (conn : Option D.ClientConn) (cr : Cluster D) (w : D.World) (remote : D.StorageCluster)
      → IsAdmitted cr.spec.for_provider
      → (D.get_clusters conn w).1 ≡ none
      → find_name D.get_name cr.spec.for_provider.name (S.stored w) ≡ some remote
      → (D.put_cluster conn (update_request D conn cr w remote) (listed_world D conn cr w)).1 ≡ none
      → (D.get_clusters conn (update D conn (cluster cr) w).world).1 ≡ none
      → let req = update_request D conn cr w remote in
        Converges D C S conn
          (update D conn (cluster cr) w)
          req
          (S.kept conn req (listed_world D conn cr w))
  unfolding generate_cluster
  update-Converges conn cr w remote a ok f sent again =
      let p = cr.spec.for_provider in
      let req = assign_parameters D p remote in
      let w' = listed_world D conn cr w in
      let put = D.put_cluster conn req w' in
      converges D C S L N p conn _ (no_update D) (record_reply D cr put.0) put.2 remote
        (S.kept conn req w') a
        (update_of_found D conn cr w remote ok (rw (S.get_clusters-stored conn w ok) f) sent)
        (ap (λ x. x.for_provider) (spec-record_reply D cr put.0)) again
        (find_name-put_cluster D L S conn cr w remote f sent)

  -- Let the resource's enumerators be admitted, let Central store no cluster of its name, let
  -- PostCluster succeed, and let Central answer afterwards. Central may store another cluster than
  -- the request, of the same name. Then Create returns no error, and the next Observe reports the
  -- resource as existing, and as up to date exactly if what Central has stored agrees with the
  -- request in the twelve fields that a resource configures, nil and empty labels counting as one.
  pub create-Converges :
      (conn : Option D.ClientConn) (cr : Cluster D) (w : D.World)
      → IsAdmitted cr.spec.for_provider
      → find_name D.get_name cr.spec.for_provider.name (S.stored w) ≡ none
      → (D.post_cluster conn (create_request D conn cr w) w).1 ≡ none
      → (D.get_clusters conn (create D conn (cluster cr) w).world).1 ≡ none
      → let req = create_request D conn cr w in
        Converges D C S conn (create D conn (cluster cr) w) req (S.added conn req w)
  unfolding generate_cluster Cluster.set_conditions
  create-Converges conn cr w a f sent again =
      let p = cr.spec.for_provider in
      let req = assign_parameters D p D.empty_cluster in
      let post = D.post_cluster conn req w in
      let cr' = Cluster.set_conditions D cr (D.creating w) in
      converges D C S L N p conn _ (no_creation D) (record_reply D cr' post.0) post.2
        D.empty_cluster (S.added conn req w) a (create_of_ok D conn cr w sent)
        (ap (λ x. x.for_provider) (spec-record_reply D cr' post.0)) again
        (find_name-post_cluster D L S conn cr w f sent)
