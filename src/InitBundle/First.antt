-- ===== src/InitBundle/First.antt =====
-- initbundle.go: a whole reconciliation of a resource that Central has no bundle for.
use mathlib.Core.Option.{none-ne-some}
use provider_stackrox.Base.{◌≡◌, refl, sym, ◌∙◌, ap, inl, inr, Option, none, some, false, [], ◌∷◌}
use provider_stackrox.Base.Named.{find_name}
use provider_stackrox.Deps.{Deps}
use provider_stackrox.Deps.Errors.{IsErrors}
use provider_stackrox.Deps.Laws.{ServesInitBundles}
use provider_stackrox.Api.InitBundle
use provider_stackrox.Api.InitBundle.{InitBundle}
use provider_stackrox.Api.Managed.{init_bundle}
use provider_stackrox.Api.Parameters.{IsCmp}
use provider_stackrox.Runs.{created}
use provider_stackrox.Connector.{
  Kubernetes, External, Connector, done, connect_init_bundle, disconnect_init_bundle,
}
use provider_stackrox.Connector.Connect.{Dials, dial_iff, connect_init_bundle-dial}
use provider_stackrox.Connector.Tracking.{TracksConns}
use provider_stackrox.InitBundle.{observe, create}
use provider_stackrox.InitBundle.Observe.{observe_of_absent}
use provider_stackrox.InitBundle.Lifecycle.{reply, create_bundle_outcome}
use provider_stackrox.InitBundle.Once.{IsIssued}
use provider_stackrox.InitBundle.Passes.{
  IsApart, makes, create_after, Station, Turn, connected, idle, then_pass,
}
use provider_stackrox.InitBundle.Connections.{bundles-connect}
use provider_stackrox.InitBundle.Whole.{passes_issue_and_close}

module _ (D : Deps) (K : Kubernetes D) (E : IsErrors D.errors) (C : IsCmp D.cmp)
    (S : ServesInitBundles D) (T : TracksConns D K) (A : IsApart D K S T) where
  connects :
      (c : Connector D) (cr : InitBundle D) (r : D.Reference) (w : D.World) (e : External D)
      → InitBundle.get_provider_config_reference D cr ≡ some r
      → Dials D K (init_bundle cr) r w e
      → (connect_init_bundle D K c (init_bundle cr) w).0 ≡ done e
  connects c cr r w e refers d =
      rw (connect_init_bundle-dial D K c cr (some r) w refers)
        ((dial_iff D K (init_bundle cr) r w e).1 d)

  created_without_error :
      (conn : Option D.ClientConn) (cr : InitBundle D) (w : D.World)
      → (reply D conn cr w).3 ≡ none
      → (create D conn (init_bundle cr) w).error ≡ none
  created_without_error conn cr w sent = elim (create_bundle_outcome D E conn cr w) [
    | inl (ok, at) ↦ ap (λ r. r.error) at
    | inr (e, bad, at) ↦ absurd (none-ne-some e (sym sent ∙ bad))
  ]

  -- Observe finds nothing, and Create generates the bundle.
  generates :
      (conn : Option D.ClientConn) (cr : InitBundle D) (w : D.World)
      → find_name D.bundle_name cr.spec.for_provider.name (S.bundles w) ≡ none
      → (D.get_init_bundles conn w).1 ≡ none
      → (reply D conn cr (D.get_init_bundles conn w).2).3 ≡ none
      → ((observe D conn (init_bundle cr) w).error ≡ none)
        × ((observe D conn (init_bundle cr) w).value.resource_exists ≡ false)
        × ((create_after D conn (init_bundle cr) w).error ≡ none)
  generates conn cr w f ok sent =
      let at = observe_of_absent D conn cr w ok (rw (S.get_init_bundles-bundles conn w ok) f) in
      (
        ap (λ r. r.error) at,
        ap (λ r. r.value.resource_exists) at,
        rw at (created_without_error conn cr (D.get_init_bundles conn w).2 sent),
      )

  -- Let an InitBundle refer to a ProviderConfig, let the four calls of Connect succeed, let Central
  -- have no bundle of its name, answer the list, and generate a bundle. Let every connection that was
  -- made have been closed before, in that order. Then the reconciliation Connect, Observe, Create,
  -- Disconnect is possible: Observe reports no resource, Create succeeds; at its end every connection
  -- has been closed, and Central has a bundle of the name.
  pub issues_at_first :
      (c : Connector D) (cr : InitBundle D) (r : D.Reference) (w : D.World) (e : External D)
      → InitBundle.get_provider_config_reference D cr ≡ some r
      → Dials D K (init_bundle cr) r w e
      → T.opened w ≡ T.closed w
      → find_name D.bundle_name cr.spec.for_provider.name (S.bundles w) ≡ none
      → (D.get_init_bundles e.client (connect_init_bundle D K c (init_bundle cr) w).2).1 ≡ none
      → (reply D e.client cr
          (D.get_init_bundles e.client (connect_init_bundle D K c (init_bundle cr) w).2).2).3
        ≡ none
      → (t : Station D) × Turn D K S T cr.spec.for_provider.name
          (record { connector = c; managed = init_bundle cr; world = w })
          (created ∷ [])
          t
        × (T.opened t.world ≡ T.closed t.world)
        × IsIssued D S cr.spec.for_provider.name (t.managed, t.world)
  issues_at_first c cr r w e refers dials even f ok sent =
      let name = cr.spec.for_provider.name in
      let mg = init_bundle cr in
      let r1 = connect_init_bundle D K c mg w in
      let still = ap (find_name D.bundle_name name) (bundles-connect D K S T A c mg w) in
      let (fine, gone, made) = generates e.client cr r1.2 (still ∙ f) ok sent in
      let after = create_after D e.client mg r1.2 in
      let turn : Turn D K S T name (record { connector = c; managed = mg; world = w })
          (created ∷ [])
          (record {
            connector = r1.1;
            managed = after.managed;
            world = (disconnect_init_bundle D r1.1 after.world).1;
          }) =
        connected c mg after.managed w r1.2 after.world after.world e (created ∷ [])
          (connects c cr r w e refers dials) (record { found = refl; opened = refl; closed = refl })
          (makes mg r1.2 fine gone made) (record { found = refl; opened = refl; closed = refl }) in
      let all = passes_issue_and_close D K E S T A name C refl even (then_pass idle turn) in
      (
        record {
          connector = r1.1;
          managed = after.managed;
          world = (disconnect_init_bundle D r1.1 after.world).1;
        },
        turn,
        all.0,
        elim all.1 [ inl nothing ↦ cc | inr (once, issued) ↦ issued ],
      )
