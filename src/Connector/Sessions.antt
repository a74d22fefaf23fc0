-- ===== src/Connector/Sessions.antt =====
-- Connections over several reconciliations by the InitBundle controller, whose reconciler calls
-- Disconnect after each Connect that succeeds. One connector serves them all.
use provider_stackrox.Base.{
  String, pos, Option-cases, inl, inr, ◌≡◌, refl, sym, ap, ◌∙◌, Option, none, some, List, [], ◌∷◌,
  arith,
}
use provider_stackrox.Deps.{Deps}
use provider_stackrox.Deps.Errors.{IsErrors}
use provider_stackrox.Api.InitBundle
use provider_stackrox.Api.InitBundle.{InitBundle}
use provider_stackrox.Api.Managed.{Managed, cluster, init_bundle, other}
use provider_stackrox.Central.{initial_backoff, new_grpc}
use provider_stackrox.Connector.{
  Kubernetes, External, Connector, Attempt, done, failed, panicked, dial, close_init_bundle,
  disconnect_init_bundle, connect_init_bundle,
}
use provider_stackrox.Connector.Connect.{
  config, extracted, w1, w2, holding, connect_init_bundle-dial,
}
use provider_stackrox.Connector.Tracking.{made, is_nil, TracksConns}

module _ (D : Deps) (K : Kubernetes D) where
  -- The deferred Disconnect; a failed Connect ends the reconciliation.
  finish : Attempt D (External D) → Connector D → D.World → Connector D × D.World
  finish (done e) c w = (c, (disconnect_init_bundle D c w).1)
  finish (failed err) c w = (c, w)
  finish panicked c w = (c, w)

  -- One reconciliation, as far as the connector goes.
  pub session : Connector D → Managed D → D.World → Connector D × D.World
  unfolding finish
  session c mg w = let (a, c', w') = connect_init_bundle D K c mg w in finish a c' w'

  -- Reconciliations one after another.
  pub sessions : Connector D → List (Managed D) → D.World → Connector D × D.World
  sessions c [] w = (c, w)
  sessions c (mg ∷ rest) w = let (c', w') = session c mg w in sessions c' rest w'

module _ (D : Deps) (K : Kubernetes D) (E : IsErrors D.errors) (T : TracksConns D K) where
  -- The connection of an external client, if there is one, in front of the list.
  abbrev pub of_client : Attempt D (External D) → List D.ClientConn → List D.ClientConn
  of_client (done e) l = made e.client none l
  of_client (failed err) l = l
  of_client panicked l = l

  abbrev client_of :
      Option D.ClientConn × Option D.Error × D.World → List D.ClientConn → List D.ClientConn
  client_of r l = made r.0 (is_nil r.1) l

  new_grpc_conns :
      (endpoint token : String) (w : D.World)
      → (T.opened (new_grpc D endpoint token w).2
          ≡ client_of (new_grpc D endpoint token w) (T.opened w))
        × (T.closed (new_grpc D endpoint token w).2 ≡ T.closed w)
  unfolding new_grpc
  new_grpc_conns endpoint token w =
      let p = D.parse_endpoint endpoint in
      let creds = D.per_rpc_credentials token in
      let retry = D.retry_interceptors initial_backoff (pos 3) in
      let g = D.grpc_connection D.central_subject endpoint p.0 creds retry w in
      elim (Option-cases p.3) [
        | inl ok ↦ elim (Option-cases g.1) [
          | inl nil ↦ ground (
            arith,
            E.with_stack_nil,
            T.opened-grpc_connection D.central_subject endpoint p.0 creds retry w,
            T.closed-grpc_connection D.central_subject endpoint p.0 creds retry w,
          )
          | inr (e, bad) ↦ ground (
            arith,
            E.with_stack_err e,
            T.opened-grpc_connection D.central_subject endpoint p.0 creds retry w,
            T.closed-grpc_connection D.central_subject endpoint p.0 creds retry w,
          )
        ]
        | inr (e, bad) ↦ ground (arith, E.wrap_err e "could not parse endpoint")
      ]

  pub dial_conns :
      (mg : Managed D) (r : Option D.Reference) (w : D.World)
      → (T.opened (dial D K mg r w).1 ≡ of_client (dial D K mg r w).0 (T.opened w))
        × (T.closed (dial D K mg r w).1 ≡ T.closed w)
  unfolding dial
  dial_conns mg none w = ground (arith, T.opened-track mg w, T.closed-track mg w)
  dial_conns mg (some r) w =
      let pc = config D K mg r w in
      let cd = pc.spec.credentials in
      let name = D.reference_name r in
      let endpoint = pc.spec.endpoint in
      let got = extracted D K mg r w in
      ground (
        arith,
        T.opened-track mg w,
        T.closed-track mg w,
        T.opened-config name (w1 D K mg r w),
        T.closed-config name (w1 D K mg r w),
        T.opened-extract cd.source cd.common_credential_selectors (w2 D K mg r w),
        T.closed-extract cd.source cd.common_credential_selectors (w2 D K mg r w),
        new_grpc_conns endpoint (D.to_string got.0) got.2,
      )

  close_conns :
      (e : External D) (w : D.World)
      → (T.opened (close_init_bundle D (some e) w).1 ≡ T.opened w)
        × (T.closed (close_init_bundle D (some e) w).1 ≡ made e.client none (T.closed w))
  unfolding close_init_bundle
  close_conns e w = elim (Option-cases e.client) [
    | inl nil ↦ rw (nil, close_init_bundle) (refl, refl)
    | inr (x, held) ↦ ground (arith, T.opened-close_conn x w, T.closed-close_conn x w)
  ]

  -- A Connect makes at most the connection that its external client holds, and the connector holds
  -- that client afterwards.
  pub connect_conns :
      (c : Connector D) (mg : Managed D) (w : D.World)
      → let r = connect_init_bundle D K c mg w in
        (T.opened r.2 ≡ of_client r.0 (T.opened w))
        × (T.closed r.2 ≡ T.closed w)
        × (r.1 ≡ holding D K c r.0)
  connect_conns c (init_bundle cr) w =
      let p = dial_conns (init_bundle cr) (InitBundle.get_provider_config_reference D cr) w in
      rw (connect_init_bundle-dial D K c cr _ w refl) (p.0, p.1, refl)
  connect_conns c (cluster cr) w = unfold connect_init_bundle in (refl, refl, refl)
  connect_conns c (other mg) w = unfold connect_init_bundle in (refl, refl, refl)

  pub disconnect_conns :
      (c : Connector D) (e : External D) (w : D.World)
      → c.external ≡ some e
      → (T.opened (disconnect_init_bundle D c w).1 ≡ T.opened w)
        × (T.closed (disconnect_init_bundle D c w).1 ≡ made e.client none (T.closed w))
  unfolding disconnect_init_bundle
  disconnect_conns c e w holds = rw holds (close_conns e w)

  finish_conns :
      (c : Connector D) (a : Attempt D (External D)) (c' : Connector D) (w w' : D.World)
      → T.opened w' ≡ of_client a (T.opened w)
      → T.closed w' ≡ T.closed w
      → c' ≡ holding D K c a
      → T.opened w ≡ T.closed w
      → T.opened (finish D K a c' w').1 ≡ T.closed (finish D K a c' w').1
  unfolding finish
  finish_conns c (done e) c' w w' o l h even =
      let d = disconnect_conns c' e w' (ap (λ r. r.external) h) in
      d.0 ∙ o ∙ ap (made e.client none) (even ∙ sym l) ∙ sym d.1
  finish_conns c (failed err) c' w w' o l h even = o ∙ even ∙ sym l
  finish_conns c panicked c' w w' o l h even = o ∙ even ∙ sym l

  session_conns :
      (c : Connector D) (mg : Managed D) (w : D.World)
      → T.opened w ≡ T.closed w
      → T.opened (session D K c mg w).1 ≡ T.closed (session D K c mg w).1
  unfolding session
  session_conns c mg w even =
      let r = connect_init_bundle D K c mg w in
      let s = connect_conns c mg w in finish_conns c r.0 r.1 w r.2 s.0 s.1 s.2 even

  -- Reconciliations one after another leave no connection open: if every connection that was made
  -- has been closed, in that order, then so it is after any number of them, whichever of their
  -- steps fail.
  pub sessions_close_all :
      (c : Connector D) (work : List (Managed D)) (w : D.World)
      → T.opened w ≡ T.closed w
      → T.opened (sessions D K c work w).1 ≡ T.closed (sessions D K c work w).1
  unfolding sessions
  sessions_close_all c [] w even = even
  sessions_close_all c (mg ∷ rest) w even =
      sessions_close_all (session D K c mg w).0 rest (session D K c mg w).1
        (session_conns c mg w even)

  -- Two reconciliations that overlap: both connect before either disconnects. The second Connect
  -- takes the connector away from the first, so that both Disconnects close the second connection,
  -- and the first one is never closed.
  pub overlap_leaks :
      (c : Connector D) (mg1 mg2 : Managed D) (w : D.World) (x y : D.ClientConn)
      → (connect_init_bundle D K c mg1 w).0 ≡ done (record { client = some x })
      → (connect_init_bundle D K
          (connect_init_bundle D K c mg1 w).1
          mg2
          (connect_init_bundle D K c mg1 w).2).0
        ≡ done (record { client = some y })
      → let (a1, c1, w1) = connect_init_bundle D K c mg1 w in
        let (a2, c2, w2) = connect_init_bundle D K c1 mg2 w1 in
        let w3 = (disconnect_init_bundle D c2 (disconnect_init_bundle D c2 w2).1).1 in
        (T.opened w3 ≡ y ∷ x ∷ T.opened w) × (T.closed w3 ≡ y ∷ y ∷ T.closed w)
  overlap_leaks c mg1 mg2 w x y first second =
      let r1 = connect_init_bundle D K c mg1 w in
      let r2 = connect_init_bundle D K r1.1 mg2 r1.2 in
      let s1 = connect_conns c mg1 w in
      let s2 = connect_conns r1.1 mg2 r1.2 in
      let e : External D = record { client = some y } in
      let holds : r2.1.external ≡ some e = ap (λ k. k.external) (rw second at s2.2) in
      let d1 = disconnect_conns r2.1 e r2.2 holds in
      let d2 = disconnect_conns r2.1 e (disconnect_init_bundle D r2.1 r2.2).1 holds in
      (
        d2.0 ∙ d1.0 ∙ (rw second at (s2.0)) ∙ ap (λ l. y ∷ l) (rw first at (s1.0)),
        d2.1 ∙ ap (λ l. y ∷ l) (d1.1 ∙ ap (λ l. y ∷ l) (s2.1 ∙ s1.1)),
      )
