-- ===== src/InitBundle/Connections.antt =====
-- initbundle.go: Connect and Disconnect leave Central's bundles as they are, and the external client
-- leaves the connections as they are.
use provider_stackrox.Base.{
  String, pos, ◌≡◌, refl, Option, Option-cases, inl, inr, none, some, arith, ◌∷◌, [],
}
use provider_stackrox.Deps.{Deps}
use provider_stackrox.Deps.Laws.{ServesInitBundles}
use provider_stackrox.Api.InitBundle
use provider_stackrox.Api.Managed.{Managed, cluster, init_bundle, other}
use provider_stackrox.Central.{initial_backoff, new_grpc, create_grpc_conn}
use provider_stackrox.Connector.{
  Kubernetes, Connector, dial, connect_init_bundle, disconnect_init_bundle, close_init_bundle,
}
use provider_stackrox.Connector.Connect.{config, extracted, w1, w2, connect_init_bundle-dial}
use provider_stackrox.Connector.Tracking.{TracksConns}
use provider_stackrox.InitBundle.{observe, create, update, delete, get_init_bundle}
use provider_stackrox.InitBundle.Passes.{IsApart}

module _ (D : Deps) (K : Kubernetes D) (S : ServesInitBundles D) (T : TracksConns D K)
    (A : IsApart D K S T) where
  bundles-new_grpc :
      (endpoint token : String) (w : D.World)
      → S.bundles (new_grpc D endpoint token w).2 ≡ S.bundles w
  unfolding new_grpc create_grpc_conn
  bundles-new_grpc endpoint token w =
      let p = D.parse_endpoint endpoint in
      let creds = D.per_rpc_credentials token in
      let retry = D.retry_interceptors initial_backoff (pos 3) in
      ground (arith, A.bundles-grpc_connection D.central_subject endpoint p.0 creds retry w)

  bundles-dial :
      (mg : Managed D) (r : Option D.Reference) (w : D.World)
      → S.bundles (dial D K mg r w).1 ≡ S.bundles w
  unfolding dial
  bundles-dial mg none w = ground (arith, A.bundles-track mg w)
  bundles-dial mg (some r) w =
      let pc = config D K mg r w in
      let cd = pc.spec.credentials in
      let got = extracted D K mg r w in
      ground (
        arith,
        A.bundles-track mg w,
        A.bundles-config (D.reference_name r) (w1 D K mg r w),
        A.bundles-extract cd.source cd.common_credential_selectors (w2 D K mg r w),
        bundles-new_grpc pc.spec.endpoint (D.to_string got.0) got.2,
      )

  pub bundles-connect :
      (c : Connector D) (mg : Managed D) (w : D.World)
      → S.bundles (connect_init_bundle D K c mg w).2 ≡ S.bundles w
  bundles-connect c (init_bundle cr) w =
      rw (connect_init_bundle-dial D K c cr _ w refl)
        (bundles-dial (init_bundle cr) (InitBundle.get_provider_config_reference D cr) w)
  bundles-connect c (cluster cr) w = unfold connect_init_bundle in refl
  bundles-connect c (other mg) w = unfold connect_init_bundle in refl

  pub bundles-disconnect :
      (c : Connector D) (w : D.World) → S.bundles (disconnect_init_bundle D c w).1 ≡ S.bundles w
  unfolding disconnect_init_bundle close_init_bundle
  bundles-disconnect c w = elim (Option-cases c.external) [
    | inl nil ↦ rw nil refl
    | inr (e, has) ↦ elim (Option-cases e.client) [
      | inl nil ↦ rw (has, nil) refl
      | inr (x, held) ↦ rw (has, held) (A.bundles-close_conn x w)
    ]
  ]

  -- The lists of connections are the same in both worlds.
  abbrev pub SameConns : D.World → D.World → Type 0
  SameConns w w' = (T.opened w' ≡ T.opened w) × (T.closed w' ≡ T.closed w)

  pub conns-observe :
      (conn : Option D.ClientConn) (mg : Managed D) (w : D.World)
      → SameConns w (observe D conn mg w).world
  unfolding observe get_init_bundle
  conns-observe conn (init_bundle cr) w =
      ground (arith, A.opened-get_init_bundles conn w, A.closed-get_init_bundles conn w)
  conns-observe conn _ w = (refl, refl)

  pub conns-create :
      (conn : Option D.ClientConn) (mg : Managed D) (w : D.World)
      → SameConns w (create D conn mg w).world
  unfolding create InitBundle.set_conditions
  conns-create conn (init_bundle cr) w =
      let name = cr.spec.for_provider.name in
      ground (
        arith,
        A.opened-generate_init_bundle conn name w,
        A.closed-generate_init_bundle conn name w,
      )
  conns-create conn _ w = (refl, refl)

  conns-delete :
      (conn : Option D.ClientConn) (mg : Managed D) (w : D.World)
      → SameConns w (delete D conn mg w).world
  unfolding delete InitBundle.set_conditions
  conns-delete conn (init_bundle cr) w =
      let ids = cr.status.at_provider.id ∷ [] in
      ground (arith, A.opened-revoke_init_bundle conn ids w, A.closed-revoke_init_bundle conn ids w)
  conns-delete conn _ w = (refl, refl)

  pub conns-update :
      (conn : Option D.ClientConn) (mg : Managed D) (w : D.World)
      → SameConns w (update D conn mg w).world
  unfolding update
  conns-update conn (init_bundle cr) w = ground (arith, conns-delete conn (init_bundle cr) w)
  conns-update conn _ w = (refl, refl)
