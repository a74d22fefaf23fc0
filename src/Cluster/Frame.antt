-- ===== src/Cluster/Frame.antt =====
-- cluster.go: what Create, Update and Delete do to the clusters of other names.
use provider_stackrox.Base.{String, ◌≡◌, ◌≢◌, sym, ◌∙◌, Option, none, some}
use provider_stackrox.Base.Named.{find_name, OnlyId}
use provider_stackrox.Base.Others.{
  find_name_other-replace_id, find_name_other-remove_id, find_name_other-append,
}
use provider_stackrox.Deps.{Deps}
use provider_stackrox.Deps.Errors.{IsErrors}
use provider_stackrox.Deps.Storage.{IsStorage}
use provider_stackrox.Deps.Laws.{ServesClusters}
use provider_stackrox.Api.Cluster
use provider_stackrox.Api.Cluster.{Cluster}
use provider_stackrox.Api.Managed.{cluster}
use provider_stackrox.Cluster.Convert.{generate_cluster, assign_parameters}
use provider_stackrox.Cluster.{create, update, delete}
use provider_stackrox.Cluster.Writes.{
  listed_world, update_request, create_request, update_of_found, create_of_ok,
}
use provider_stackrox.Cluster.Convergence.{get_name-assign_parameters, get_id-assign_parameters}
use provider_stackrox.Cluster.Removal.{delete_of_ok}

module _ (D : Deps) (L : IsStorage D.storage) (S : ServesClusters D) where
  -- Let Update find a cluster whose identifier no cluster of another name has, and let PutCluster
  -- succeed. Then a lookup by any other name finds in Central what it has found before.
  pub update_keeps_others :
      (conn : Option D.ClientConn) (cr : Cluster D) (w : D.World) (remote : D.StorageCluster)
      (other_name : String)
      → (D.get_clusters conn w).1 ≡ none
      → find_name D.get_name cr.spec.for_provider.name (S.stored w) ≡ some remote
      → OnlyId D.get_id D.get_name (D.get_id remote) cr.spec.for_provider.name (S.stored w)
      → (D.put_cluster conn (update_request D conn cr w remote) (listed_world D conn cr w)).1 ≡ none
      → other_name ≢ cr.spec.for_provider.name
      → find_name D.get_name other_name (S.stored (update D conn (cluster cr) w).world)
        ≡ find_name D.get_name other_name (S.stored w)
  unfolding generate_cluster
  update_keeps_others conn cr w remote other_name ok f only sent differs =
      let p = cr.spec.for_provider in
      let req = assign_parameters D p remote in
      let w' = listed_world D conn cr w in
      let same_id = S.get_id-kept conn req w' ∙ get_id-assign_parameters D L p remote in
      let same_name = S.get_name-kept conn req w' ∙ get_name-assign_parameters D L p remote in
      rw (update_of_found D conn cr w remote ok (rw (S.get_clusters-stored conn w ok) f) sent) (
        rw (S.stored-put_cluster conn req w' sent) (
          rw (S.stored-get_clusters conn w) (
            find_name_other-replace_id D.get_name D.get_id p.name other_name (S.stored w)
              (S.kept conn req w') (rw same_id only) same_name differs)))

  -- If PostCluster succeeds, then a lookup by any other name finds in Central what it has found
  -- before Create.
  pub create_keeps_others :
      (conn : Option D.ClientConn) (cr : Cluster D) (w : D.World) (other_name : String)
      → (D.post_cluster conn (create_request D conn cr w) w).1 ≡ none
      → other_name ≢ cr.spec.for_provider.name
      → find_name D.get_name other_name (S.stored (create D conn (cluster cr) w).world)
        ≡ find_name D.get_name other_name (S.stored w)
  unfolding generate_cluster Cluster.set_conditions
  create_keeps_others conn cr w other_name sent differs =
      let p = cr.spec.for_provider in
      let req = assign_parameters D p D.empty_cluster in
      let named = S.get_name-added conn req w ∙ get_name-assign_parameters D L p D.empty_cluster in
      rw (create_of_ok D conn cr w sent) (
        rw (S.stored-post_cluster conn req w sent) (
          find_name_other-append D.get_name other_name (S.stored w) (S.added conn req w)
            (λ e. differs (sym e ∙ named))))

module _ (D : Deps) (E : IsErrors D.errors) (S : ServesClusters D) where
  -- Let no cluster of another name have the identifier in the resource's status, and let
  -- DeleteCluster succeed. Then a lookup by any other name finds in Central what it has found before
  -- Delete.
  pub delete_keeps_others :
      (conn : Option D.ClientConn) (cr : Cluster D) (w : D.World) (other_name : String)
      → OnlyId D.get_id D.get_name cr.status.at_provider.id cr.spec.for_provider.name (S.stored w)
      → (D.delete_cluster conn cr.status.at_provider.id w).0 ≡ none
      → other_name ≢ cr.spec.for_provider.name
      → find_name D.get_name other_name (S.stored (delete D conn (cluster cr) w).world)
        ≡ find_name D.get_name other_name (S.stored w)
  delete_keeps_others conn cr w other_name only deleted differs =
      let id = cr.status.at_provider.id in
      rw (delete_of_ok D E S conn cr w deleted) (
        rw (S.stored-delete_cluster conn id w deleted) (
          find_name_other-remove_id D.get_name D.get_id cr.spec.for_provider.name other_name id
            (S.stored w) only differs))
