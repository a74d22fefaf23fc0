-- ===== src/Cluster/Lookup.antt =====
-- cluster.go: getCluster, when Central answers and when it does not.
use provider_stackrox.Base.{◌≡◌, Option, none, some, arith}
use provider_stackrox.Base.Named.{find_name}
use provider_stackrox.Deps.{Deps}
use provider_stackrox.Api.Cluster.{Cluster}
use provider_stackrox.Cluster.{get_cluster, err_get_failed}

module _ (D : Deps) where
  pub get_cluster_answered :
      (conn : Option D.ClientConn) (cr : Cluster D) (w : D.World)
      → (D.get_clusters conn w).1 ≡ none
      → get_cluster D conn cr w ≡ (
        find_name D.get_name cr.spec.for_provider.name (D.get_clusters conn w).0,
        none,
        (D.get_clusters conn w).2,
      )
  unfolding get_cluster
  get_cluster_answered conn cr w h = ground arith

  pub get_cluster_failed :
      (conn : Option D.ClientConn) (cr : Cluster D) (w : D.World) (e : D.Error)
      → (D.get_clusters conn w).1 ≡ some e
      → get_cluster D conn cr w ≡ (none, D.wrap (some e) err_get_failed, (D.get_clusters conn w).2)
  unfolding get_cluster
  get_cluster_failed conn cr w e h = ground arith
