-- ===== src/Cluster/Settled.antt =====
-- cluster.go: Central stores what a resource asks for, before and after each step of a run.
use mathlib.Core.Option.{some-injective, none-ne-some}
use provider_stackrox.Base.{◌≡◌, refl, sym, ◌∙◌, ap, Option, none, some, arith}
use provider_stackrox.Base.Named.{find_name}
use provider_stackrox.Deps.{Deps}
use provider_stackrox.Deps.Errors.{IsErrors}
use provider_stackrox.Deps.Storage.{IsStorage}
use provider_stackrox.Deps.Laws.{ServesClusters}
use provider_stackrox.Api.Cluster
use provider_stackrox.Api.Cluster.{Cluster}
use provider_stackrox.Api.Parameters.{ClusterParameters}
use provider_stackrox.Api.Managed.{Managed, cluster}
use provider_stackrox.Cluster.Convert.{assign_parameters, generate_cluster, observed_parameters}
use provider_stackrox.Cluster.{observe, create, update, observed, get_cluster, record_reply}
use provider_stackrox.Cluster.Writes.{
  create_request, create_of_ok, update_of_found, update_request, listed_world, spec-record_reply,
}
use provider_stackrox.Cluster.Convergence.{find_name-post_cluster, find_name-put_cluster}
use provider_stackrox.Cluster.Drift.{IsAdmitted, DeclaresNames, Shows, Shows-observed_parameters}
use provider_stackrox.Cluster.Kept.{Keeps, Keeps-Shows}
use provider_stackrox.Cluster.Observe.{stored-observe}
use provider_stackrox.Cluster.Runs.{
  Config, parameters, Quiet, look, make_in_vain, change_in_vain, read_again, elsewhere,
}
use provider_stackrox.Cluster.Success.{posted, put, listed}

module _ (D : Deps) where
  pub parameters-observe :
      (conn : Option D.ClientConn) (mg : Managed D) (w : D.World)
      → parameters D (observe D conn mg w).managed ≡ parameters D mg
  unfolding observe get_cluster observed Cluster.set_at_provider Cluster.set_conditions
      Cluster.set_external_name
  parameters-observe conn (cluster cr) w = ground arith
  parameters-observe conn _ w = refl

  parameters-create :
      (conn : Option D.ClientConn) (mg : Managed D) (w : D.World)
      → parameters D (create D conn mg w).managed ≡ parameters D mg
  unfolding create record_reply Cluster.set_at_provider Cluster.set_conditions
      Cluster.set_external_name
  parameters-create conn (cluster cr) w = ground arith
  parameters-create conn _ w = refl

  parameters-update :
      (conn : Option D.ClientConn) (mg : Managed D) (w : D.World)
      → parameters D (update D conn mg w).managed ≡ parameters D mg
  unfolding update get_cluster record_reply Cluster.set_at_provider Cluster.set_conditions
      Cluster.set_external_name
  parameters-update conn (cluster cr) w = ground arith
  parameters-update conn _ w = refl

module _ (D : Deps) (S : ServesClusters D) (p : ClusterParameters) where
  -- The resource asks for `p`, and the first cluster of its name in Central reads back as `p`.
  pub record IsSettled (s : Config D) : Type 0 where
    pub asks : parameters D s.0 ≡ some p
    pub remote : D.StorageCluster
    pub stores : find_name D.get_name p.name (S.stored s.1) ≡ some remote
    pub reads_back : observed_parameters D remote ≡ p

  pub asks_after : {s t : Config D} → Quiet D S p.name s t → parameters D t.0 ≡ parameters D s.0
  asks_after (look conn mg w) = parameters-observe D conn mg w
  asks_after (make_in_vain conn mg w e fails as_before) = parameters-create D conn mg w
  asks_after (change_in_vain conn mg w e fails as_before) = parameters-update D conn mg w
  asks_after (read_again mg mg' w h) = h
  asks_after (elsewhere mg w w' h) = refl

  pub found_after :
      {s t : Config D}
      → Quiet D S p.name s t
      → find_name D.get_name p.name (S.stored t.1) ≡ find_name D.get_name p.name (S.stored s.1)
  found_after (look conn mg w) = ap (find_name D.get_name p.name) (stored-observe D S conn mg w)
  found_after (make_in_vain conn mg w e fails as_before) = as_before
  found_after (change_in_vain conn mg w e fails as_before) = as_before
  found_after (read_again mg mg' w h) = refl
  found_after (elsewhere mg w w' h) = h

  -- The same with labels that may differ as nil and empty maps do.
  pub record IsShown (s : Config D) : Type 0 where
    pub asks : parameters D s.0 ≡ some p
    pub remote : D.StorageCluster
    pub stores : find_name D.get_name p.name (S.stored s.1) ≡ some remote
    pub shows : Shows D p remote

  pub IsSettled-IsShown : {s : Config D} → IsSettled s → IsShown s
  IsSettled-IsShown h = record {
    asks = h.asks;
    remote = h.remote;
    stores = h.stores;
    shows = Shows-observed_parameters D p h.remote h.reads_back;
  }

  -- Central keeps what these parameters configure, in every cluster that is posted or put for them.
  pub record KeepsConfigured : Type 0 where
    pub keeps_added :
        (conn : Option D.ClientConn) (base : Option D.StorageCluster) (w : D.World)
        → Keeps D (generate_cluster D p base) (S.added conn (generate_cluster D p base) w)
    pub keeps_put :
        (conn : Option D.ClientConn) (base : Option D.StorageCluster) (w : D.World)
        → Keeps D (generate_cluster D p base) (S.kept conn (generate_cluster D p base) w)

  pub Quiet-IsShown : {s t : Config D} → Quiet D S p.name s t → IsShown s → IsShown t
  Quiet-IsShown q h = record {
    asks = asks_after q ∙ h.asks;
    remote = h.remote;
    stores = found_after q ∙ h.stores;
    shows = h.shows;
  }

  pub Quiet-IsSettled : {s t : Config D} → Quiet D S p.name s t → IsSettled s → IsSettled t
  Quiet-IsSettled q h = record {
    asks = asks_after q ∙ h.asks;
    remote = h.remote;
    stores = found_after q ∙ h.stores;
    reads_back = h.reads_back;
  }

module _ (D : Deps) (E : IsErrors D.errors) (L : IsStorage D.storage) (S : ServesClusters D)
    (N : DeclaresNames D) (p : ClusterParameters) (K : KeepsConfigured D S p)
    (a : IsAdmitted p) where
  -- After a Create that succeeds, of a cluster that Central did not store.
  pub create_asked :
      (conn : Option D.ClientConn) (mg : Managed D) (w : D.World)
      → parameters D mg ≡ some p
      → find_name D.get_name p.name (S.stored w) ≡ none
      → (create D conn mg w).error ≡ none
      → IsShown D S p ((create D conn mg w).managed, (create D conn mg w).world)
  unfolding Cluster.set_conditions generate_cluster
  create_asked conn (cluster cr) w asks f fine =
      let own = some-injective _ _ asks in
      let sent = posted D E S conn cr w fine in
      let resp = (D.post_cluster conn (create_request D conn cr w) w).0 in
      let shown =
        Keeps-Shows D L N p D.empty_cluster (S.added conn (assign_parameters D p D.empty_cluster) w)
          a (K.keeps_added conn none w) in
      rw (create_of_ok D conn cr w sent) (record {
        asks =
            ap (λ x. some x.for_provider)
              (spec-record_reply D (Cluster.set_conditions D cr (D.creating w)) resp)
            ∙ asks;
        remote = S.added conn (create_request D conn cr w) w;
        stores = rw (sym own) (find_name-post_cluster D L S conn cr w (rw own f) sent);
        shows = rw own shown;
      })
  create_asked conn _ w asks f fine = absurd (none-ne-some p asks)

  -- After an Update that succeeds, of a cluster that Central stored.
  pub update_asked :
      (conn : Option D.ClientConn) (mg : Managed D) (w : D.World) (c : D.StorageCluster)
      → parameters D mg ≡ some p
      → find_name D.get_name p.name (S.stored w) ≡ some c
      → (update D conn mg w).error ≡ none
      → IsShown D S p ((update D conn mg w).managed, (update D conn mg w).world)
  unfolding generate_cluster
  update_asked conn (cluster cr) w c asks f fine =
      let own = some-injective _ _ asks in
      let ok = listed D E S conn cr w fine in
      let w' = listed_world D conn cr w in
      let seen =
        ap (find_name D.get_name cr.spec.for_provider.name) (S.get_clusters-stored conn w ok)
        ∙ rw own f in
      let sent = put D E S conn cr w c ok seen fine in
      let resp = (D.put_cluster conn (update_request D conn cr w c) w').0 in
      let shown =
        Keeps-Shows D L N p c (S.kept conn (assign_parameters D p c) w') a
          (K.keeps_put conn (some c) w') in
      rw (update_of_found D conn cr w c ok seen sent) (record {
        asks = ap (λ x. some x.for_provider) (spec-record_reply D cr resp) ∙ asks;
        remote = S.kept conn (update_request D conn cr w c) w';
        stores = rw (sym own) (find_name-put_cluster D L S conn cr w c (rw own f) sent);
        shows = rw own shown;
      })
  update_asked conn _ w c asks f fine = absurd (none-ne-some p asks)
