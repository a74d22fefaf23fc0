-- ===== src/InitBundle/Success.antt =====
-- initbundle.go: what the external client leaves as it is, and what is known of Central after an Observe
-- that has returned no error.
use mathlib.Core.Option.{none-ne-some}
use provider_stackrox.Base.{
  ◌≡◌, ◌⊎◌, refl, sym, ◌∙◌, ap, Option, Option-cases, none, some, true, false, inl, inr, arith,
}
use provider_stackrox.Base.Named.{find_name}
use provider_stackrox.Deps.{Deps}
use provider_stackrox.Deps.Errors.{IsErrors}
use provider_stackrox.Deps.Laws.{ServesInitBundles}
use provider_stackrox.Api.InitBundle
use provider_stackrox.Api.InitBundle.{InitBundle}
use provider_stackrox.Api.Parameters.{IsCmp}
use provider_stackrox.Api.Managed.{Managed, init_bundle}
use provider_stackrox.InitBundle.{
  observe, create, observed, get_init_bundle, record_meta, err_get_failed, err_observe_failed,
}
use provider_stackrox.InitBundle.Observe.{
  observe_of_found, observe_of_absent, get_init_bundle_failed,
}
use provider_stackrox.InitBundle.Runs.{asked_name}

module _ (D : Deps) where
  pub asked_name-observe :
      (conn : Option D.ClientConn) (mg : Managed D) (w : D.World)
      → asked_name D (observe D conn mg w).managed ≡ asked_name D mg
  unfolding observe get_init_bundle observed InitBundle.set_at_provider InitBundle.set_conditions
      InitBundle.set_external_name
  asked_name-observe conn (init_bundle cr) w = ground arith
  asked_name-observe conn _ w = refl

  pub asked_name-create :
      (conn : Option D.ClientConn) (mg : Managed D) (w : D.World)
      → asked_name D (create D conn mg w).managed ≡ asked_name D mg
  unfolding create record_meta InitBundle.set_at_provider InitBundle.set_conditions
      InitBundle.set_external_name
  asked_name-create conn (init_bundle cr) w = ground arith
  asked_name-create conn _ w = refl

  pub bundles-observe :
      (S : ServesInitBundles D) (conn : Option D.ClientConn) (mg : Managed D) (w : D.World)
      → S.bundles (observe D conn mg w).world ≡ S.bundles w
  unfolding observe get_init_bundle
  bundles-observe S conn (init_bundle cr) w = ground (arith, S.bundles-get_init_bundles conn w)
  bundles-observe S conn _ w = refl

module _ (D : Deps) (E : IsErrors D.errors) (C : IsCmp D.cmp) (S : ServesInitBundles D) where
  failing :
      (conn : Option D.ClientConn) (cr : InitBundle D) (w : D.World) (e : D.Error)
      → (D.get_init_bundles conn w).1 ≡ some e
      → (observe D conn (init_bundle cr) w).error
        ≡ some (E.wrapped (E.wrapped e err_get_failed) err_observe_failed)
  unfolding observe
  failing conn cr w e bad = ground (
    arith,
    get_init_bundle_failed D conn cr w e bad,
    E.wrap_err e err_get_failed,
    E.wrap_err (E.wrapped e err_get_failed) err_observe_failed,
  )

  pub answered :
      (conn : Option D.ClientConn) (cr : InitBundle D) (w : D.World)
      → (observe D conn (init_bundle cr) w).error ≡ none
      → (D.get_init_bundles conn w).1 ≡ none
  answered conn cr w fine = elim (Option-cases (D.get_init_bundles conn w).1) [
    | inl ok ↦ ok
    | inr (e, bad) ↦ absurd (none-ne-some _ (sym fine ∙ failing conn cr w e bad))
  ]

  -- What Observe says of existence is so.
  pub exists_iff_found :
      (conn : Option D.ClientConn) (cr : InitBundle D) (w : D.World)
      → (observe D conn (init_bundle cr) w).error ≡ none
      → ((find_name D.bundle_name cr.spec.for_provider.name (S.bundles w) ≡ none)
          × ((observe D conn (init_bundle cr) w).value.resource_exists ≡ false))
        ⊎ ((b : D.InitBundleMeta) × (find_name D.bundle_name cr.spec.for_provider.name (S.bundles w)
              ≡ some b)
            × ((observe D conn (init_bundle cr) w).value.resource_exists ≡ true))
  exists_iff_found conn cr w fine =
      let ok = answered conn cr w fine in
      elim (Option-cases (find_name D.bundle_name cr.spec.for_provider.name (S.bundles w))) [
        | inl f ↦
            let at =
              observe_of_absent D conn cr w ok (rw (S.get_init_bundles-bundles conn w ok) f) in
            inl (f, ap (λ r. r.value.resource_exists) at)
        | inr (b, f) ↦
            let at =
              observe_of_found D conn cr w C b ok (rw (S.get_init_bundles-bundles conn w ok) f) in
            inr (b, f, ap (λ r. r.value.resource_exists) at)
      ]
