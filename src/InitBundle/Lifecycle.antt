-- ===== src/InitBundle/Lifecycle.antt =====
-- Create, Delete and Update of initbundle.go on their branches.
use mathlib.Core.Option
use provider_stackrox.Base.{
  ◌≡◌, ◌↔◌, ◌≢◌, ◌⊎◌, ap, ◌∙◌, true, false, Bool-cases, Option, Option-cases, inl, inr, none, some,
  [], ◌∷◌, arith,
}
use provider_stackrox.Deps.{Deps}
use provider_stackrox.Deps.Errors.{IsErrors, wrap-eq-map}
use provider_stackrox.Deps.Runtime.{IsRuntime, IsStamped}
use provider_stackrox.Api.InitBundle
use provider_stackrox.Api.InitBundle.{InitBundle}
use provider_stackrox.Api.Managed.{init_bundle, no_creation, no_update, returned}
use provider_stackrox.InitBundle.{
  record_meta, create, delete, in_transition, update, err_create_failed,
}

module _ (D : Deps) where
  -- What Central replies to Create.
  abbrev pub reply :
      Option D.ClientConn
      → InitBundle D
      → D.World
      → Option D.InitBundleMeta × D.Bytes × D.Bytes × Option D.Error × D.World
  reply conn cr w = D.generate_init_bundle conn cr.spec.for_provider.name w

module _ (D : Deps) (E : IsErrors D.errors) where
  -- Either Central generates the bundle, and Create hands on both secrets of the reply under their
  -- names; or Central fails, there are no connection details, the error has its context before the
  -- cause, and nothing but the condition Creating is recorded in the resource.
  pub create_bundle_outcome :
      (conn : Option D.ClientConn) (cr : InitBundle D) (w : D.World)
      → let cr' = InitBundle.set_conditions D cr (D.creating w) in
        let (meta, helm, kubectl, err, w') = reply D conn cr w in
        let c = create D conn (init_bundle cr) w in
        ((err ≡ none)
          × (c
              ≡ returned D
                  (record {
                    connection_details =
                        some (("helmValuesBundle", helm) ∷ ("kubectlBundle", kubectl) ∷ []);
                  })
                  none
                  (init_bundle (record_meta D cr' meta))
                  w'))
        ⊎ ((e : D.Error) × (err ≡ some e)
            × (c
                ≡ returned D
                    (no_creation D)
                    (some (E.wrapped e "cannot create init bundle"))
                    (init_bundle cr')
                    w'))
  unfolding create InitBundle.set_conditions
  create_bundle_outcome conn cr w = elim (Option-cases (reply D conn cr w).3) [
    | inl ok ↦ inl (ok, ground arith)
    | inr (e, bad) ↦ inr (e, bad, ground (arith, E.wrap_err e err_create_failed))
  ]

  -- Delete revokes the identifier that the status holds. Its error is Central's with the context
  -- before it, and none if Central has none; on both paths the resource gets the condition Deleting
  -- and nothing else.
  pub delete_bundle_outcome :
      (conn : Option D.ClientConn) (cr : InitBundle D) (w : D.World)
      → let sent = D.revoke_init_bundle conn (cr.status.at_provider.id ∷ []) w in
        delete D conn (init_bundle cr) w
        ≡ returned D tt
            (Option.map (λ e. E.wrapped e "cannot delete init bundle") sent.0)
            (init_bundle (InitBundle.set_conditions D cr (D.deleting w)))
            sent.1
  unfolding delete InitBundle.set_conditions
  delete_bundle_outcome conn cr w =
      rw (wrap-eq-map D.errors E (D.revoke_init_bundle conn (cr.status.at_provider.id ∷ []) w).0)

module _ (D : Deps) (X : IsRuntime D.runtime) where
  -- The guard of Update holds exactly if the condition Ready equals, its time included, a condition
  -- Creating or Deleting that is made at this moment.
  in_transition_iff :
      (cr : InitBundle D) (w : D.World)
      → let ready = InitBundle.get_condition D cr D.type_ready in
        (in_transition D cr w ≡ true) ↔ ((ready ≡ D.creating w) ⊎ (ready ≡ D.deleting w))
  unfolding in_transition
  in_transition_iff cr w =
      let ready = InitBundle.get_condition D cr D.type_ready in
      ground
        (arith, X.condition_eq_iff ready (D.creating w), X.condition_eq_iff ready (D.deleting w))

  module _ (T : IsStamped D.runtime) where
    stale_guard :
        (cr : InitBundle D) (w : D.World)
        → T.last_transition_time (InitBundle.get_condition D cr D.type_ready) ≢ T.now w
        → in_transition D cr w ≡ false
    stale_guard cr w old = elim (Bool-cases (in_transition D cr w)) [
      | inl held ↦ absurd (elim ((in_transition_iff cr w).0 held) [
        | inl e ↦ old (ap T.last_transition_time e ∙ T.creating_now w)
        | inr e ↦ old (ap T.last_transition_time e ∙ T.deleting_now w)
      ])
      | inr passed ↦ passed
    ]

    -- If the condition Ready was set at another instant than the present one, Update revokes the
    -- bundle, also one that is being created or deleted: its effect is Delete's, and it puts its
    -- context before Delete's error.
    pub update_revokes :
        (E : IsErrors D.errors) (conn : Option D.ClientConn) (cr : InitBundle D) (w : D.World)
        → T.last_transition_time (InitBundle.get_condition D cr D.type_ready) ≢ T.now w
        → let d = delete D conn (init_bundle cr) w in
          update D conn (init_bundle cr) w
          ≡ returned D
              (no_update D)
              (Option.map (λ e. E.wrapped e "cannot update init bundle") d.error)
              d.managed
              d.world
    unfolding update
    update_revokes E conn cr w old = rw (stale_guard cr w old) (rw (wrap-eq-map D.errors E))
