-- ===== src/InitBundle/Passes.antt =====
-- Whole reconciliations by the InitBundle controller, one after another: managed.Reconciler calls
-- Connect, then Observe, then at most one of Create and Update, and Disconnect at the end, whatever
-- came of the calls between. What follows is for one worker.
use provider_stackrox.Base.{String, ◌≡◌, ◌≢◌, Option, none, some, true, false, List, [], ◌∷◌, ◌++◌}
use provider_stackrox.Base.Named.{find_name}
use provider_stackrox.Deps.{Deps}
use provider_stackrox.Deps.Laws.{ServesInitBundles}
use provider_stackrox.Api.Managed.{Managed, Returned, ExternalCreation, ExternalUpdate}
use provider_stackrox.Runs.{Call, created, updated}
use provider_stackrox.Connector.{
  Kubernetes, External, Connector, done, connect_init_bundle, disconnect_init_bundle,
}
use provider_stackrox.Connector.Tracking.{TracksConns}
use provider_stackrox.InitBundle.{observe, create, update}
use provider_stackrox.InitBundle.Runs.{BundleConfig, asked_name}

-- Making and closing a connection leaves Central's bundles as they are, and Central's service of
-- bundles leaves the connections as they are.
pub record IsApart (D : Deps) (K : Kubernetes D) (S : ServesInitBundles D) (T : TracksConns D K)
    : Type 0 where
  pub bundles-track : (mg : Managed D) (w : D.World) → S.bundles (K.track mg w).1 ≡ S.bundles w
  pub bundles-config :
      (n : String) (w : D.World) → S.bundles (K.get_provider_config n w).2 ≡ S.bundles w
  pub bundles-extract :
      (s : D.CredentialsSource) (l : D.CommonCredentialSelectors) (w : D.World)
      → S.bundles (K.common_credential_extractor s l w).2 ≡ S.bundles w
  pub bundles-grpc_connection :
      (s : D.Subject) (endpoint name : String) (c : D.Creds) (i : D.Interceptors) (w : D.World)
      → S.bundles (D.grpc_connection s endpoint name c i w).2 ≡ S.bundles w
  pub bundles-close_conn :
      (c : D.ClientConn) (w : D.World) → S.bundles (D.close_conn c w).1 ≡ S.bundles w
  pub opened-get_init_bundles :
      (c : Option D.ClientConn) (w : D.World) → T.opened (D.get_init_bundles c w).2 ≡ T.opened w
  pub closed-get_init_bundles :
      (c : Option D.ClientConn) (w : D.World) → T.closed (D.get_init_bundles c w).2 ≡ T.closed w
  pub opened-generate_init_bundle :
      (c : Option D.ClientConn) (n : String) (w : D.World)
      → T.opened (D.generate_init_bundle c n w).4 ≡ T.opened w
  pub closed-generate_init_bundle :
      (c : Option D.ClientConn) (n : String) (w : D.World)
      → T.closed (D.generate_init_bundle c n w).4 ≡ T.closed w
  pub opened-revoke_init_bundle :
      (c : Option D.ClientConn) (ids : List String) (w : D.World)
      → T.opened (D.revoke_init_bundle c ids w).1 ≡ T.opened w
  pub closed-revoke_init_bundle :
      (c : Option D.ClientConn) (ids : List String) (w : D.World)
      → T.closed (D.revoke_init_bundle c ids w).1 ≡ T.closed w

module _ (D : Deps) where
  -- Create, and Update, of what Observe has left.
  abbrev pub create_after :
      Option D.ClientConn → Managed D → D.World → Returned D (ExternalCreation D)
  create_after conn mg w = create D conn (observe D conn mg w).managed (observe D conn mg w).world

  abbrev pub update_after :
      Option D.ClientConn → Managed D → D.World → Returned D (ExternalUpdate D)
  update_after conn mg w = update D conn (observe D conn mg w).managed (observe D conn mg w).world

-- The calls of the external client in one reconciliation, by the connection `conn`, with the writes
-- among them: an Observe, which may fail; an Observe that reports no resource, and a Create that
-- fails and leaves the first bundle of the name as it is, or that succeeds; an Observe that reports a
-- difference, and an Update, which may fail.
pub data ClientCalls (D : Deps) (S : ServesInitBundles D) (name : String)
    (conn : Option D.ClientConn) : BundleConfig D → List Call → BundleConfig D → Type 0 where
  looks :
      (mg : Managed D) (w : D.World)
      → ClientCalls D S name conn
          (mg, w)
          []
          ((observe D conn mg w).managed, (observe D conn mg w).world)
  tries :
      (mg : Managed D) (w : D.World) (e : D.Error)
      → (observe D conn mg w).error ≡ none
      → (observe D conn mg w).value.resource_exists ≡ false
      → (create_after D conn mg w).error ≡ some e
      → find_name D.bundle_name name (S.bundles (create_after D conn mg w).world)
        ≡ find_name D.bundle_name name (S.bundles (observe D conn mg w).world)
      → ClientCalls D S name conn
          (mg, w)
          []
          ((create_after D conn mg w).managed, (create_after D conn mg w).world)
  makes :
      (mg : Managed D) (w : D.World)
      → (observe D conn mg w).error ≡ none
      → (observe D conn mg w).value.resource_exists ≡ false
      → (create_after D conn mg w).error ≡ none
      → ClientCalls D S name conn
          (mg, w)
          (created ∷ [])
          ((create_after D conn mg w).managed, (create_after D conn mg w).world)
  changes :
      (mg : Managed D) (w : D.World)
      → (observe D conn mg w).error ≡ none
      → (observe D conn mg w).value.resource_exists ≡ true
      → (observe D conn mg w).value.resource_up_to_date ≡ false
      → ClientCalls D S name conn
          (mg, w)
          (updated ∷ [])
          ((update_after D conn mg w).managed, (update_after D conn mg w).world)

-- The connector, the resource and the world.
pub record Station (D : Deps) : Type 0 where
  pub connector : Connector D
  pub managed : Managed D
  pub world : D.World

module _ (D : Deps) (K : Kubernetes D) (S : ServesInitBundles D) (T : TracksConns D K)
    (name : String) where
  -- What others may do to the world meanwhile.
  pub record IsAside (w w' : D.World) : Type 0 where
    pub found :
        find_name D.bundle_name name (S.bundles w') ≡ find_name D.bundle_name name (S.bundles w)
    pub opened : T.opened w' ≡ T.opened w
    pub closed : T.closed w' ≡ T.closed w

-- One reconciliation: Connect fails, and that is all; or it succeeds, and its external client works.
pub data Turn (D : Deps) (K : Kubernetes D) (S : ServesInitBundles D) (T : TracksConns D K)
    (name : String) : Station D → List Call → Station D → Type 0 where
  unconnected :
      (c : Connector D) (mg : Managed D) (w : D.World)
      → ((e : External D) → (connect_init_bundle D K c mg w).0 ≢ done e)
      → Turn D K S T name
          (record { connector = c; managed = mg; world = w })
          []
          (record {
            connector = (connect_init_bundle D K c mg w).1;
            managed = mg;
            world = (connect_init_bundle D K c mg w).2;
          })
  connected :
      (c : Connector D) (mg mg' : Managed D) (w w1 w2 w3 : D.World) (e : External D) (l : List Call)
      → (connect_init_bundle D K c mg w).0 ≡ done e
      → IsAside D K S T name (connect_init_bundle D K c mg w).2 w1
      → ClientCalls D S name e.client (mg, w1) l (mg', w2)
      → IsAside D K S T name w2 w3
      → Turn D K S T name
          (record { connector = c; managed = mg; world = w })
          l
          (record {
            connector = (connect_init_bundle D K c mg w).1;
            managed = mg';
            world = (disconnect_init_bundle D (connect_init_bundle D K c mg w).1 w3).1;
          })

-- Reconciliations one after another, with the writes of all, the latest first; between them the
-- resource is read again, with the name it had.
pub data Turns (D : Deps) (K : Kubernetes D) (S : ServesInitBundles D) (T : TracksConns D K)
    (name : String) (s : Station D) : List Call → Station D → Type 0 where
  idle : Turns D K S T name s [] s
  then_pass :
      {l l' : List Call} {t u : Station D}
      → Turns D K S T name s l t
      → Turn D K S T name t l' u
      → Turns D K S T name s (l' ++ l) u
  then_read :
      {l : List Call} (c : Connector D) (mg mg' : Managed D) (w w' : D.World)
      → Turns D K S T name s l (record { connector = c; managed = mg; world = w })
      → asked_name D mg' ≡ asked_name D mg
      → IsAside D K S T name w w'
      → Turns D K S T name s l (record { connector = c; managed = mg'; world = w' })
