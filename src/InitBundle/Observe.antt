-- ===== src/InitBundle/Observe.antt =====
-- Observe of initbundle.go on each of its branches.
use provider_stackrox.Base.{
  ◌≡◌, ◌⊎◌, refl, true, Option, Option-cases, inl, inr, none, some, List, arith, eq_iff,
}
use provider_stackrox.Base.Named.{
  find_name, Unnamed, IsFirst, find_name-none, find_name-named, find_name-IsFirst,
}
use provider_stackrox.Deps.{Deps}
use provider_stackrox.Deps.Errors.{IsErrors}
use provider_stackrox.Deps.Laws.{ServesInitBundles}
use provider_stackrox.Api.InitBundle
use provider_stackrox.Api.InitBundle.{InitBundle}
use provider_stackrox.Api.Parameters.{InitBundleParameters, IsCmp}
use provider_stackrox.Api.Managed.{
  Managed, init_bundle, ExternalObservation, no_observation, returned,
}
use provider_stackrox.InitBundle.Convert.{is_up_to_date}
use provider_stackrox.InitBundle.{get_init_bundle, observed, observe, err_get_failed}

abbrev pub in_sync : ExternalObservation
in_sync = record { resource_exists = true; resource_up_to_date = true; diff = "" }

module _ (D : Deps) (conn : Option D.ClientConn) (cr : InitBundle D) (w : D.World) where
  abbrev pub listed : List D.InitBundleMeta
  listed = (D.get_init_bundles conn w).0

  abbrev pub listed_world : D.World
  listed_world = (D.get_init_bundles conn w).2

  pub get_init_bundle_answered :
      (D.get_init_bundles conn w).1 ≡ none
      → get_init_bundle D conn cr w
        ≡ (find_name D.bundle_name cr.spec.for_provider.name listed, none, listed_world)
  unfolding get_init_bundle
  get_init_bundle_answered h = ground arith

  pub get_init_bundle_failed :
      (e : D.Error)
      → (D.get_init_bundles conn w).1 ≡ some e
      → get_init_bundle D conn cr w ≡ (none, D.wrap (some e) err_get_failed, listed_world)
  unfolding get_init_bundle
  get_init_bundle_failed e h = ground arith

  pub observe_of_absent :
      (D.get_init_bundles conn w).1 ≡ none
      → find_name D.bundle_name cr.spec.for_provider.name listed ≡ none
      → observe D conn (init_bundle cr) w
        ≡ returned D no_observation none (init_bundle cr) listed_world
  unfolding observe
  observe_of_absent ok f = ground (arith, get_init_bundle_answered ok)

  is_up_to_date_named :
      IsCmp D.cmp
      → (cr' : InitBundle D) (bundle : D.InitBundleMeta)
      → D.bundle_name bundle ≡ cr'.spec.for_provider.name
      → is_up_to_date D cr' bundle ≡ (true, "")
  unfolding is_up_to_date
  is_up_to_date_named C cr' bundle n =
      let p : InitBundleParameters = record { name = D.bundle_name bundle } in
      ground (
        arith,
        C.diff_bundles_empty cr'.spec.for_provider p,
        eq_iff (D.diff_bundles cr'.spec.for_provider p) "",
      )

  -- A bundle that has been found has the resource's name, and the name is all that is compared.
  pub observe_of_found :
      IsCmp D.cmp
      → (bundle : D.InitBundleMeta) → (D.get_init_bundles conn w).1 ≡ none
      → find_name D.bundle_name cr.spec.for_provider.name listed ≡ some bundle
      → observe D conn (init_bundle cr) w
        ≡ returned D in_sync none (init_bundle (observed D cr bundle listed_world)) listed_world
  unfolding observe InitBundle.set_at_provider InitBundle.set_conditions
      InitBundle.set_external_name
  observe_of_found C bundle ok f = ground (
    arith,
    get_init_bundle_answered ok,
    is_up_to_date_named C (observed D cr bundle listed_world) bundle
        (find_name-named D.bundle_name cr.spec.for_provider.name listed bundle f),
  )

module _ (D : Deps) (E : IsErrors D.errors) (C : IsCmp D.cmp) where
  -- Observe, whatever the resource and whatever Central replies, reports drift never: a resource
  -- that exists is up to date, one that does not exist is not, and no difference is reported.
  pub never_out_of_date :
      (conn : Option D.ClientConn) (mg : Managed D) (w : D.World)
      → let o = (observe D conn mg w).value in
        (o.resource_up_to_date ≡ o.resource_exists) × (o.diff ≡ "")
  unfolding observe
  never_out_of_date conn (init_bundle cr) w = elim (Option-cases (D.get_init_bundles conn w).1) [
    | inl ok ↦
        elim (Option-cases
          (find_name D.bundle_name cr.spec.for_provider.name (listed D conn cr w))) [
            | inl f ↦ rw (observe_of_absent D conn cr w ok f) (refl, refl)
            | inr (bundle, f) ↦ rw (observe_of_found D conn cr w C bundle ok f) (refl, refl)
          ]
    | inr (e, bad) ↦
        ground (arith, get_init_bundle_failed D conn cr w e bad, E.wrap_err e err_get_failed)
  ]
  never_out_of_date conn _ w = (refl, refl)

module _ (D : Deps) (C : IsCmp D.cmp) (S : ServesInitBundles D) where
  -- When Central answers, one of two things happens. Central has a bundle of the resource's name:
  -- Observe reports it as up to date and records the first one in the resource. Or it has none:
  -- Observe reports that the resource does not exist and leaves it as it was. Neither is an error.
  pub observe_bundle_answered :
      (conn : Option D.ClientConn) (cr : InitBundle D) (w : D.World)
      → (D.get_init_bundles conn w).1 ≡ none
      → let name = cr.spec.for_provider.name in
        let w' = (D.get_init_bundles conn w).2 in
        let o = observe D conn (init_bundle cr) w in
        ((b : D.InitBundleMeta) × IsFirst D.bundle_name name (S.bundles w) b
          × (o ≡ returned D in_sync none (init_bundle (observed D cr b w')) w'))
        ⊎ (Unnamed D.bundle_name name (S.bundles w)
            × (o ≡ returned D no_observation none (init_bundle cr) w'))
  observe_bundle_answered conn cr w ok =
      let name = cr.spec.for_provider.name in
      let same = S.get_init_bundles-bundles conn w ok in
      elim (Option-cases (find_name D.bundle_name name (S.bundles w))) [
        | inl f ↦ inr (
          (find_name-none D.bundle_name name (S.bundles w)).0 f,
          observe_of_absent D conn cr w ok (rw same f),
        )
        | inr (b, f) ↦ inl (
          b,
          find_name-IsFirst D.bundle_name name (S.bundles w) b f,
          observe_of_found D conn cr w C b ok (rw same f),
        )
      ]
