-- ===== src/Connector.antt =====
-- The connectors of pkg/controller/cluster/cluster.go and pkg/controller/initbundle/initbundle.go.
-- In the two files Connect has the same text but for the kind of resource and the error about it, so
-- that its part behind the type assertion, the constants in it and the structs are written once.
pub mod Connect
pub mod Tracking
pub mod Sessions
pub mod Leaks
pub mod Workers
pub mod Counts
use provider_stackrox.Base.{String, ◌≡◌, refl, Option, none, some}
use provider_stackrox.Deps.{Deps}
use provider_stackrox.Api.Cluster
use provider_stackrox.Api.InitBundle
use provider_stackrox.Api.ProviderConfig.{ProviderConfig}
use provider_stackrox.Api.Managed.{Managed, cluster, init_bundle}
use provider_stackrox.Central.{new_grpc, err_new_client, err_close_client}
use provider_stackrox.Cluster.{err_not_cluster}
use provider_stackrox.InitBundle.{err_not_init_bundle}

abbrev pub err_track_pc_usage : String
err_track_pc_usage = "cannot track ProviderConfig usage"

abbrev pub err_get_pc : String
err_get_pc = "cannot get ProviderConfig"

abbrev pub err_get_creds : String
err_get_creds = "cannot get credentials"

-- The API server as the connectors use it: resource.Tracker, client.Client with the name of a
-- ProviderConfig, and resource.CommonCredentialExtractor.
pub record Kubernetes (D : Deps) : Type 0 where
  pub track : Managed D → D.World → Option D.Error × D.World
  pub get_provider_config : String → D.World → ProviderConfig D × Option D.Error × D.World
  pub common_credential_extractor :
      D.CredentialsSource
      → D.CommonCredentialSelectors
      → D.World
      → D.Bytes × Option D.Error × D.World

pub record External (D : Deps) : Type 0 where
  pub client : Option D.ClientConn

-- `kube` and `usage` are the argument of type `Kubernetes`; `none` is a nil pointer.
pub record Connector (D : Deps) : Type 0 where
  pub external : Option (External D)

-- A function that returns a value or `nil, err`, or panics.
pub data Attempt (D : Deps) (A : Type 0) : Type 0 where
  done : A → Attempt D A
  failed : Option D.Error → Attempt D A
  panicked : Attempt D A

module _ (D : Deps) where
  infixl 5 ◌>>=◌ ◌>>◌
  abbrev pub ◌>>=◌ :
      {A B : Type 0}
      → (D.World → Attempt D A × D.World)
      → (A → D.World → Attempt D B × D.World)
      → D.World
      → Attempt D B × D.World
  ◌>>=◌ m f w =
      let (r, w') = m w in
      elim r [ done a ↦ f a w' | failed e ↦ (failed e, w') | panicked ↦ (panicked, w') ]

  abbrev pub ◌>>◌ :
      {A B : Type 0}
      → (D.World → Attempt D A × D.World)
      → (D.World → Attempt D B × D.World)
      → D.World
      → Attempt D B × D.World
  m >> k = m >>= λ _. k

  -- `if err != nil { return nil, errors.Wrap(err, text) }` behind a call
  abbrev pub attempt :
      {A : Type 0}
      → (D.World → A × Option D.Error × D.World)
      → String
      → D.World
      → Attempt D A × D.World
  attempt call text w =
      let (value, err, w') = call w in
      elim err [ none ↦ (done value, w') | some e ↦ (failed (D.wrap (some e) text), w') ]

  -- A read through a pointer to a Reference.
  abbrev pub name_of : Option D.Reference → D.World → Attempt D String × D.World
  name_of none w = (panicked, w)
  name_of (some r) w = (done (D.reference_name r), w)

  abbrev pub succeed : {A : Type 0} → A → D.World → Attempt D A × D.World
  succeed a w = (done a, w)

  module _ (K : Kubernetes D) where
    abbrev pub tracked : Managed D → D.World → Unit {0} × Option D.Error × D.World
    tracked mg w = let (err, w') = K.track mg w in (tt, err, w')

    -- Connect behind the type assertion, up to the assignment to c.external.
    unfoldable pub dial :
        Managed D → Option D.Reference → D.World → Attempt D (External D) × D.World
    dial mg reference = do
      attempt (tracked mg) err_track_pc_usage
      name ← name_of reference
      pc ← attempt (K.get_provider_config name) err_get_pc
      let cd = pc.spec.credentials
      token ←
          attempt (K.common_credential_extractor cd.source cd.common_credential_selectors)
            err_get_creds
      client ← attempt (new_grpc D pc.spec.endpoint (D.to_string token)) err_new_client
      succeed (record { client = client })

    -- c.external = &external{client: client}
    unfoldable pub assign_external :
        Connector D
        → Attempt D (External D) × D.World
        → Attempt D (External D) × Connector D × D.World
    assign_external c (done e, w) = (done e, record c { external = some e }, w)
    assign_external c (failed err, w) = (failed err, c, w)
    assign_external c (panicked, w) = (panicked, c, w)

    unfoldable pub connect_cluster :
        Connector D → Managed D → D.World → Attempt D (External D) × Connector D × D.World
    unfolding assign_external Cluster.get_provider_config_reference
    connect_cluster c (cluster cr) w =
        assign_external c (dial (cluster cr) (Cluster.get_provider_config_reference D cr) w)
    connect_cluster c mg w = (failed (some (D.new_error err_not_cluster)), c, w)

    unfoldable pub connect_init_bundle :
        Connector D → Managed D → D.World → Attempt D (External D) × Connector D × D.World
    unfolding assign_external InitBundle.get_provider_config_reference
    connect_init_bundle c (init_bundle cr) w =
        assign_external c (dial (init_bundle cr) (InitBundle.get_provider_config_reference D cr) w)
    connect_init_bundle c mg w = (failed (some (D.new_error err_not_init_bundle)), c, w)

  -- `(*external).close` of cluster.go, also of a nil pointer.
  unfoldable pub close : Option (External D) → D.World → Option D.Error × D.World
  close none w = (none, w)
  close (some e) w = elim e.client [
    | none ↦ (none, w)
    | some client ↦ let (err, w') = D.close_conn client w in (D.wrap err err_close_client, w')
  ]

  unfoldable pub disconnect : Connector D → D.World → Option D.Error × D.World
  unfolding close
  disconnect c w = let (err, w') = close c.external w in (D.wrap err err_close_client, w')

  -- The same two methods of initbundle.go
  unfoldable pub close_init_bundle : Option (External D) → D.World → Option D.Error × D.World
  close_init_bundle none w = (none, w)
  close_init_bundle (some e) w = elim e.client [
    | none ↦ (none, w)
    | some client ↦ let (err, w') = D.close_conn client w in (D.wrap err err_close_client, w')
  ]

  unfoldable pub disconnect_init_bundle : Connector D → D.World → Option D.Error × D.World
  unfolding close_init_bundle
  disconnect_init_bundle c w =
      let (err, w') = close_init_bundle c.external w in (D.wrap err err_close_client, w')

  close_init_bundle-close :
      (e : Option (External D)) (w : D.World) → close_init_bundle e w ≡ close e w
  unfolding close close_init_bundle
  close_init_bundle-close none w = refl
  close_init_bundle-close (some e) w = refl

  -- Disconnect does the same in both files.
  pub disconnect_init_bundle-disconnect :
      (c : Connector D) (w : D.World) → disconnect_init_bundle c w ≡ disconnect c w
  unfolding disconnect disconnect_init_bundle
  disconnect_init_bundle-disconnect c w = rw (close_init_bundle-close c.external w) refl
