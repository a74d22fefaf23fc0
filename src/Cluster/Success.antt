-- ===== src/Cluster/Success.antt =====
-- cluster.go: what is known of Central after a call of the controller that has returned no error.
use mathlib.Core.Option.{none-ne-some}
use provider_stackrox.Base.{
  ◌≡◌, sym, ◌∙◌, ap, Option, Option-cases, none, some, true, false, inl, inr,
}
use provider_stackrox.Base.Named.{find_name}
use provider_stackrox.Deps.{Deps}
use provider_stackrox.Deps.Errors.{IsErrors}
use provider_stackrox.Deps.Laws.{ServesClusters}
use provider_stackrox.Api.Cluster.{Cluster}
use provider_stackrox.Api.Managed.{cluster}
use provider_stackrox.Cluster.{observe, create, update}
use provider_stackrox.Cluster.Writes.{
  create_outcome, create_request, update_put_error, update_list_error, update_request, listed_world,
}
use provider_stackrox.Cluster.Observe.{observe_of_found, observe_of_absent, observe_of_error}

module _ (D : Deps) (E : IsErrors D.errors) (S : ServesClusters D) where
  -- An Observe without an error has got an answer.
  pub answered :
      (conn : Option D.ClientConn) (cr : Cluster D) (w : D.World)
      → (observe D conn (cluster cr) w).error ≡ none
      → (D.get_clusters conn w).1 ≡ none
  answered conn cr w fine = elim (Option-cases (D.get_clusters conn w).1) [
    | inl ok ↦ ok
    | inr (e, bad) ↦
        absurd
          (none-ne-some _ (sym fine ∙ ap (λ r. r.error) (observe_of_error D conn cr w e bad E)))
  ]

  pub absent :
      (conn : Option D.ClientConn) (cr : Cluster D) (w : D.World)
      → (observe D conn (cluster cr) w).error ≡ none
      → (observe D conn (cluster cr) w).value.resource_exists ≡ false
      → find_name D.get_name cr.spec.for_provider.name (S.stored w) ≡ none
  absent conn cr w fine gone =
      let ok = answered conn cr w fine in
      elim (Option-cases (find_name D.get_name cr.spec.for_provider.name (S.stored w))) [
        | inl f ↦ f
        | inr (c, f) ↦
            let at = observe_of_found D conn cr w c ok (rw (S.get_clusters-stored conn w ok) f) in
            cc (ap (λ r. r.value.resource_exists) at, gone)
      ]

  pub present :
      (conn : Option D.ClientConn) (cr : Cluster D) (w : D.World)
      → (observe D conn (cluster cr) w).error ≡ none
      → (observe D conn (cluster cr) w).value.resource_exists ≡ true
      → (c : D.StorageCluster) × (find_name D.get_name cr.spec.for_provider.name (S.stored w)
          ≡ some c)
  present conn cr w fine here =
      let ok = answered conn cr w fine in
      elim (Option-cases (find_name D.get_name cr.spec.for_provider.name (S.stored w))) [
        | inl f ↦
            let at = observe_of_absent D conn cr w ok (rw (S.get_clusters-stored conn w ok) f) in
            cc (ap (λ r. r.value.resource_exists) at, here)
        | inr (c, f) ↦ (c, f)
      ]

  pub posted :
      (conn : Option D.ClientConn) (cr : Cluster D) (w : D.World)
      → (create D conn (cluster cr) w).error ≡ none
      → (D.post_cluster conn (create_request D conn cr w) w).1 ≡ none
  posted conn cr w fine = elim (create_outcome D E conn cr w) [
    | inl (ok, at) ↦ ok
    | inr (e, bad, at) ↦ absurd (none-ne-some _ (sym fine ∙ ap (λ r. r.error) at))
  ]

  pub put :
      (conn : Option D.ClientConn) (cr : Cluster D) (w : D.World) (c : D.StorageCluster)
      → (D.get_clusters conn w).1 ≡ none
      → find_name D.get_name cr.spec.for_provider.name (D.get_clusters conn w).0 ≡ some c
      → (update D conn (cluster cr) w).error ≡ none
      → (D.put_cluster conn (update_request D conn cr w c) (listed_world D conn cr w)).1 ≡ none
  put conn cr w c ok f fine =
      elim (Option-cases
        (D.put_cluster conn (update_request D conn cr w c) (listed_world D conn cr w)).1) [
          | inl sent ↦ sent
          | inr (e, bad) ↦ absurd (
              none-ne-some _
                (sym fine ∙ ap (λ r. r.error) (update_put_error D E conn cr w c e ok f bad)))
        ]

  pub listed :
      (conn : Option D.ClientConn) (cr : Cluster D) (w : D.World)
      → (update D conn (cluster cr) w).error ≡ none
      → (D.get_clusters conn w).1 ≡ none
  listed conn cr w fine = elim (Option-cases (D.get_clusters conn w).1) [
    | inl ok ↦ ok
    | inr (e, bad) ↦
        absurd
          (none-ne-some _ (sym fine ∙ ap (λ r. r.error) (update_list_error D E conn cr w e bad)))
  ]
