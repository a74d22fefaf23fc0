-- ===== src/InitBundle/Rounds.antt =====
-- initbundle.go: the operations of the external client one after another.
use provider_stackrox.Base.{
  not, Bool-cases, inl, inr, ◌∙◌, ◌≡◌, refl, ap, Option, none, some, [], ◌∷◌, arith,
}
use provider_stackrox.Base.Named.{find_name, OnlyId, find_name-append, find_name-remove_id}
use provider_stackrox.Deps.{Deps}
use provider_stackrox.Deps.Errors.{IsErrors}
use provider_stackrox.Deps.Laws.{ServesInitBundles}
use provider_stackrox.Api.InitBundle
use provider_stackrox.Api.InitBundle.{InitBundle}
use provider_stackrox.Api.Parameters.{IsCmp}
use provider_stackrox.Api.Managed.{init_bundle}
use provider_stackrox.InitBundle.Convert.{generate_observation}
use provider_stackrox.InitBundle.{observed, observe, record_meta, create, delete}
use provider_stackrox.InitBundle.Observe.{in_sync, observe_of_found, observe_of_absent}
use provider_stackrox.InitBundle.Lifecycle.{reply, delete_bundle_outcome}

module _ (D : Deps) (C : IsCmp D.cmp) (S : ServesInitBundles D) where
  pub spec-record_meta :
      (cr : InitBundle D) (meta : Option D.InitBundleMeta) → (record_meta D cr meta).spec ≡ cr.spec
  unfolding record_meta InitBundle.set_at_provider InitBundle.set_external_name
  spec-record_meta cr none = refl
  spec-record_meta cr (some m) = refl

  create_then_observe :
      (conn : Option D.ClientConn) (cr : InitBundle D) (w : D.World)
      → (reply D conn cr w).3 ≡ none
      → find_name D.bundle_name cr.spec.for_provider.name (S.bundles w) ≡ none
      → (D.get_init_bundles conn (reply D conn cr w).4).1 ≡ none
      → (cr' : InitBundle D) → cr'.spec ≡ cr.spec
      → ((observe D conn (init_bundle cr') (reply D conn cr w).4).error ≡ none)
        × ((observe D conn (init_bundle cr') (reply D conn cr w).4).value ≡ in_sync)
  create_then_observe conn cr w ok f again cr' own =
      let name = cr.spec.for_provider.name in
      let w' = (reply D conn cr w).4 in
      let new = S.generated conn name w in
      let seen : find_name D.bundle_name cr'.spec.for_provider.name (D.get_init_bundles conn w').0
          ≡ some new =
        rw
          (
            own,
            S.get_init_bundles-bundles conn w' again,
            S.bundles-generate_init_bundle conn name w ok,
          )
          (find_name-append D.bundle_name name (S.bundles w) new f
            (S.bundle_name-generated conn name w)) in
      let at = observe_of_found D conn cr' w' C new again seen in
      (ap (λ r. r.error) at, ap (λ r. r.value) at)

  -- Let Central have no bundle of the resource's name, let it generate one, and let it answer
  -- afterwards. Then Create returns no error, and the next Observe reports the resource as existing
  -- and up to date.
  pub created_bundle_observed :
      (E : IsErrors D.errors) (conn : Option D.ClientConn) (cr : InitBundle D) (w : D.World)
      → find_name D.bundle_name cr.spec.for_provider.name (S.bundles w) ≡ none
      → (reply D conn cr w).3 ≡ none
      → (D.get_init_bundles conn (reply D conn cr w).4).1 ≡ none
      → let c = create D conn (init_bundle cr) w in
        let o = observe D conn c.managed c.world in
        (c.error ≡ none) × (o.error ≡ none) × (o.value ≡ in_sync)
  unfolding create InitBundle.set_conditions
  created_bundle_observed E conn cr w f ok again =
      let cr' =
        record_meta D (InitBundle.set_conditions D cr (D.creating w)) (reply D conn cr w).0 in
      let o =
        create_then_observe conn cr w ok f again cr' (
          spec-record_meta (InitBundle.set_conditions D cr (D.creating w)) (reply D conn cr w).0) in
      ground (arith, o)

  -- Let Central have bundles of the resource's name under one identifier only, and let its three
  -- calls return no error. Then Observe, Delete of what Observe has returned, and Observe again return
  -- no error, and at the end the resource is gone exactly if the reply of RevokeInitBundle, which
  -- Delete discards, has the identifier as revoked: if Central refuses the revocation in its reply,
  -- Delete returns no error and the resource still exists.
  pub revoked_bundle_gone :
      (E : IsErrors D.errors) (conn : Option D.ClientConn) (cr : InitBundle D) (w : D.World)
      (b : D.InitBundleMeta)
      → find_name D.bundle_name cr.spec.for_provider.name (S.bundles w) ≡ some b
      → OnlyId D.bundle_name D.bundle_id cr.spec.for_provider.name (D.bundle_id b) (S.bundles w)
      → (D.get_init_bundles conn w).1 ≡ none
      → (D.revoke_init_bundle conn (D.bundle_id b ∷ []) (D.get_init_bundles conn w).2).0 ≡ none
      → (D.get_init_bundles conn
          (D.revoke_init_bundle conn (D.bundle_id b ∷ []) (D.get_init_bundles conn w).2).1).1
        ≡ none
      → let o = observe D conn (init_bundle cr) w in
        let d = delete D conn o.managed o.world in
        let o' = observe D conn d.managed d.world in
        (o.error ≡ none)
        × (d.error ≡ none)
        × (o'.error ≡ none)
        × (o'.value.resource_exists ≡ not (S.revokes conn (D.bundle_id b) o.world))
  unfolding observed generate_observation InitBundle.set_at_provider InitBundle.set_conditions
      InitBundle.set_external_name
  revoked_bundle_gone E conn cr w b f only ok revoked again =
      let w1 = (D.get_init_bundles conn w).2 in
      let gone = D.revoke_init_bundle conn (D.bundle_id b ∷ []) w1 in
      let cr1 = observed D cr b w1 in
      let at1 = observe_of_found D conn cr w C b ok (rw (S.get_init_bundles-bundles conn w ok) f) in
      let at2 = delete_bundle_outcome D E conn cr1 w1 in
      let cr2 = InitBundle.set_conditions D cr1 (D.deleting w1) in
      let now = S.get_init_bundles-bundles conn gone.1 again in
      let before = S.bundles-get_init_bundles conn w in
      rw at1 (
        rw at2 (elim (Bool-cases (S.revokes conn (D.bundle_id b) w1)) [
          | inl said ↦
              let at3 = observe_of_absent D conn cr2 gone.1 again (
                rw now (
                  rw (S.bundles-revoke_init_bundle conn (D.bundle_id b) w1 revoked said)
                    (rw before (find_name-remove_id D.bundle_name D.bundle_id _ _ _ only)))) in
              (
                refl,
                rw revoked refl,
                ap (λ r. r.error) at3,
                ap (λ r. r.value.resource_exists) at3 ∙ rw said refl,
              )
          | inr denied ↦
              let at3 = observe_of_found D conn cr2 gone.1 C b again (
                rw now
                  (rw (S.bundles-refused conn (D.bundle_id b) w1 revoked denied) (rw before f))) in
              (
                refl,
                rw revoked refl,
                ap (λ r. r.error) at3,
                ap (λ r. r.value.resource_exists) at3 ∙ rw denied refl,
              )
        ]))
