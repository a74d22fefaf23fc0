-- ===== src/Connector/Counts.antt =====
-- How many connections the workers of the InitBundle controller open and close.
use Prim.Native.Nat.{◌<◌}
use provider_stackrox.Base.{
  ℕ, suc, ◌+◌, ◌≤◌, pos, ◌≡◌, ◌≢◌, ◌⊎◌, refl, sym, ap, ◌∙◌, Option, Option-cases, none, some, List,
  ◌∷◌, inl, inr, arith, String,
}
use provider_stackrox.Deps.{Deps}
use provider_stackrox.Deps.Errors.{IsErrors}
use provider_stackrox.Api.InitBundle
use provider_stackrox.Api.Managed.{Managed, cluster, init_bundle, other}
use provider_stackrox.Central.{initial_backoff, new_grpc}
use provider_stackrox.Connector.{
  Kubernetes, External, Connector, Attempt, done, failed, panicked, dial, disconnect_init_bundle,
  connect_init_bundle,
}
use provider_stackrox.Connector.Connect.{connect_init_bundle-dial, dial_iff, holding}
use provider_stackrox.Connector.Sessions.{of_client, connect_conns, disconnect_conns}
use provider_stackrox.Connector.Tracking.{TracksConns, made}
use provider_stackrox.Connector.Workers.{
  length, GrantsConns, Pool, Step, connects, gives_up, disconnects, elsewhere, Reach, here, next,
}

module _ (D : Deps) (K : Kubernetes D) (E : IsErrors D.errors) (T : TracksConns D K)
    (G : GrantsConns D) where
  new_grpc_grants :
      (endpoint token : String) (w : D.World)
      → (new_grpc D endpoint token w).1 ≡ none
      → (x : D.ClientConn) × ((new_grpc D endpoint token w).0 ≡ some x)
  unfolding new_grpc
  new_grpc_grants endpoint token w fine =
      let p = D.parse_endpoint endpoint in
      let creds = D.per_rpc_credentials token in
      let retry = D.retry_interceptors initial_backoff (pos 3) in
      let g = D.grpc_connection D.central_subject endpoint p.0 creds retry w in
      elim (Option-cases p.3) [
        | inl ok ↦ elim (Option-cases g.1) [
          | inl nil ↦
              let (x, got) = G D.central_subject endpoint p.0 creds retry w nil in
              (x, rw (ok, new_grpc) got)
          | inr (e, bad) ↦ absurd (ground (arith, E.with_stack_err e))
        ]
        | inr (e, bad) ↦ absurd (ground (arith, E.wrap_err e "could not parse endpoint"))
      ]

  failed-ne-done :
      (err : Option D.Error) (e : External D)
      → ◌≢◌ {A = Attempt D (External D)} (failed err) (done e)
  failed-ne-done err e = λ h. cc

  -- Without a reference Connect fails or panics.
  no_reference : (mg : Managed D) (w : D.World) (e : External D) → (dial D K mg none w).0 ≢ done e
  unfolding dial
  no_reference mg w e = λ h. ground arith

  dialled :
      (mg : Managed D) (reference : Option D.Reference) (w : D.World) (e : External D)
      → (dial D K mg reference w).0 ≡ done e
      → (x : D.ClientConn) × (e.client ≡ some x)
  dialled mg none w e h = absurd (no_reference mg w e h)
  dialled mg (some r) w e h =
      let d = (dial_iff D K mg r w e).0 h in
      let (x, got) = new_grpc_grants _ _ _ d.connects in (x, d.client ∙ got)

  connected_client :
      (c : Connector D) (mg : Managed D) (w : D.World) (e : External D)
      → (connect_init_bundle D K c mg w).0 ≡ done e
      → (x : D.ClientConn) × (e.client ≡ some x)
  unfolding connect_init_bundle
  connected_client c (init_bundle cr) w e h =
      dialled (init_bundle cr) (InitBundle.get_provider_config_reference D cr) w e
        (sym (ap (λ r. r.0) (connect_init_bundle-dial D K c cr _ w refl)) ∙ h)
  connected_client c (cluster cr) w e h = absurd (failed-ne-done _ e h)
  connected_client c (other mg) w e h = absurd (failed-ne-done _ e h)

  -- The connector holds a client with a connection.
  pub record Holds (c : Connector D) : Type 0 where
    pub external : External D
    pub conn : D.ClientConn
    pub held : c.external ≡ some external
    pub client : external.client ≡ some conn

  -- There are as many open connections, less those that were closed, as active workers, and these
  -- can close what the connector holds.
  pub record IsCounted (k : ℕ) (s : Pool D) : Type 0 where
    pub counts : length (T.opened s.world) ≡ length (T.closed s.world) + s.active
    pub few : s.active ≤ k
    pub holds : (s.active ≡ 0) ⊎ Holds s.connector

  connects-IsCounted :
      (k n : ℕ) (c : Connector D) (w : D.World) (mg : Managed D) (e : External D)
      → n < k
      → (connect_init_bundle D K c mg w).0 ≡ done e
      → IsCounted k (record { connector = c; world = w; active = n })
      → IsCounted k (record {
        connector = (connect_init_bundle D K c mg w).1;
        world = (connect_init_bundle D K c mg w).2;
        active = suc n;
      })
  connects-IsCounted k n c w mg e free ok h =
      let (o, l, own) = connect_conns D K E T c mg w in
      let (x, has) = connected_client c mg w e ok in
      let opens : T.opened (connect_init_bundle D K c mg w).2 ≡ x ∷ T.opened w =
        o
        ∙ ap (λ a. of_client D K E T a (T.opened w)) ok
        ∙ ap (λ m. made m none (T.opened w)) has in
      record {
        counts = omega (arith, ap length opens, ap length l, h.counts);
        few = omega (arith, free);
        holds = inr (record {
          external = e;
          conn = x;
          held = ap (λ d. d.external) (own ∙ ap (holding D K c) ok);
          client = has;
        });
      }

  disconnects-IsCounted :
      (k n : ℕ) (c : Connector D) (w : D.World)
      → IsCounted k (record { connector = c; world = w; active = suc n })
      → IsCounted k (record { connector = c; world = (disconnect_init_bundle D c w).1; active = n })
  disconnects-IsCounted k n c w h = elim h.holds [
    | inl idle ↦ absurd (omega (arith, idle))
    | inr b ↦
        let (o, l) = disconnect_conns D K E T c b.external w b.held in
        let closes : T.closed (disconnect_init_bundle D c w).1 ≡ b.conn ∷ T.closed w =
          l ∙ ap (λ m. made m none (T.closed w)) b.client in
        record {
          counts = omega (arith, ap length o, ap length closes, h.counts);
          few = omega (arith, h.few);
          holds = inr b;
        }
  ]

  gives_up-IsCounted :
      (k n : ℕ) (c : Connector D) (w : D.World) (mg : Managed D)
      → ((e : External D) → (connect_init_bundle D K c mg w).0 ≢ done e)
      → IsCounted k (record { connector = c; world = w; active = n })
      → IsCounted k (record {
        connector = (connect_init_bundle D K c mg w).1;
        world = (connect_init_bundle D K c mg w).2;
        active = n;
      })
  gives_up-IsCounted k n c w mg fails h =
      let (o, l, own) = connect_conns D K E T c mg w in
      let (same, kept) = nothing_done c (connect_init_bundle D K c mg w).0 (T.opened w) fails in
      record {
        counts = omega (arith, ap length (o ∙ same), ap length l, h.counts);
        few = h.few;
        holds = rw (own ∙ kept) h.holds;
      }
    where
      nothing_done :
          (c : Connector D) (a : Attempt D (External D)) (l : List D.ClientConn)
          → ((e : External D) → a ≢ done e)
          → (of_client D K E T a l ≡ l) × (holding D K c a ≡ c)
      nothing_done c (done e) l fails = absurd (fails e refl)
      nothing_done c (failed err) l fails = (refl, refl)
      nothing_done c panicked l fails = (refl, refl)

  Step-IsCounted : {k : ℕ} {s t : Pool D} → Step D K T k s t → IsCounted k s → IsCounted k t
  Step-IsCounted {k} (connects c w n mg e free ok) h = connects-IsCounted k n c w mg e free ok h
  Step-IsCounted {k} (gives_up c w n mg fails) h = gives_up-IsCounted k n c w mg fails h
  Step-IsCounted {k} (disconnects c w n) h = disconnects-IsCounted k n c w h
  Step-IsCounted {k} (elsewhere c w w' n o l) h = record {
    counts = omega (arith, ap length o, ap length l, h.counts);
    few = h.few;
    holds = h.holds;
  }

  Reach-IsCounted : {k : ℕ} {s t : Pool D} → IsCounted k s → Reach D K T k s t → IsCounted k t
  Reach-IsCounted h here = h
  Reach-IsCounted h (next r st) = Step-IsCounted st (Reach-IsCounted h r)

  -- `k` workers that share a connector, interleaved in any way. They begin idle, with as many
  -- connections closed as opened, and a connection that is granted without an error is there. Then
  -- Close has at every moment been called at most as often as a connection was opened, and at most
  -- `k` times less often: exactly as many times less often as workers are active.
  pub closed_as_often :
      (k : ℕ) (c : Connector D) (w : D.World) (t : Pool D)
      → length (T.opened w) ≡ length (T.closed w)
      → Reach D K T k (record { connector = c; world = w; active = 0 }) t
      → (length (T.closed t.world) ≤ length (T.opened t.world))
        × (length (T.opened t.world) ≤ length (T.closed t.world) + k)
        × (length (T.opened t.world) ≡ length (T.closed t.world) + t.active)
  closed_as_often k c w t even r =
      let h =
        Reach-IsCounted {k = k}
          (record { counts = omega (arith, even); few = omega arith; holds = inl refl }) r in
      (omega (arith, h.counts), omega (arith, h.counts, h.few), h.counts)
