-- ===== src/Connector/Connect.antt =====
-- Connect of both connectors, with its four calls.
use provider_stackrox.Base.{◌≡◌, ◌≢◌, ◌↔◌, refl, Option, none, some, arith}
use provider_stackrox.Deps.{Deps}
use provider_stackrox.Api.Cluster
use provider_stackrox.Api.InitBundle
use provider_stackrox.Api.ProviderConfig.{ProviderConfig}
use provider_stackrox.Api.Managed.{Managed, cluster, init_bundle, other}
use provider_stackrox.Central.{new_grpc}
use provider_stackrox.Connector.{
  Kubernetes, External, Connector, Attempt, done, failed, panicked, dial, assign_external,
  connect_cluster, connect_init_bundle,
}

module _ (D : Deps) (K : Kubernetes D) (mg : Managed D) (r : D.Reference) (w : D.World) where
  -- The worlds and values along the four calls.
  abbrev pub w1 : D.World
  w1 = (K.track mg w).1

  abbrev pub config : ProviderConfig D
  config = (K.get_provider_config (D.reference_name r) w1).0

  abbrev pub w2 : D.World
  w2 = (K.get_provider_config (D.reference_name r) w1).2

  abbrev pub extracted : D.Bytes × Option D.Error × D.World
  extracted =
      K.common_credential_extractor config.spec.credentials.source
        config.spec.credentials.common_credential_selectors w2

  abbrev pub connection : Option D.ClientConn × Option D.Error × D.World
  connection = new_grpc D config.spec.endpoint (D.to_string extracted.0) extracted.2

  -- All four calls succeed: the usage is tracked, the ProviderConfig is got by the name of the
  -- reference, its credentials are extracted, and Central accepts the connection to its endpoint
  -- with them.
  pub record Dials (e : External D) : Type 0 where
    pub tracks : (K.track mg w).0 ≡ none
    pub configured : (K.get_provider_config (D.reference_name r) w1).1 ≡ none
    pub credible : extracted.1 ≡ none
    pub connects : connection.1 ≡ none
    pub client : e.client ≡ connection.0

  pub dial_iff : (e : External D) → ((dial D K mg (some r) w).0 ≡ done e) ↔ Dials e
  unfolding dial
  dial_iff e = (λ h. ground arith, λ h. ground arith)

-- GetProviderConfigReference of either kind.
abbrev pub reference_of : (D : Deps) → Managed D → Option D.Reference
reference_of D (cluster cr) = D.provider_config_reference cr.spec.resource_spec
reference_of D (init_bundle cr) = D.provider_config_reference cr.spec.resource_spec
reference_of D (other mg) = none

-- A usage can only be tracked of a resource that refers to a ProviderConfig.
pub record IsTracker (D : Deps) (K : Kubernetes D) : Type 0 where
  pub tracks_references :
      (mg : Managed D) (w : D.World) → (K.track mg w).0 ≡ none → reference_of D mg ≢ none

module _ (D : Deps) (K : Kubernetes D) (c : Connector D) where
  -- The connector after Connect: the new external client, if there is one.
  abbrev pub holding : Attempt D (External D) → Connector D
  holding (done e) = record { external = some e }
  holding (failed err) = c
  holding panicked = c

  assign_external_lem :
      (a : Attempt D (External D)) (w : D.World) → assign_external D K c (a, w) ≡ (a, holding a, w)
  unfolding assign_external
  assign_external_lem (done e) w = refl
  assign_external_lem (failed err) w = refl
  assign_external_lem panicked w = refl

  pub connect_cluster-dial :
      (cr : Cluster.Cluster D) (r : D.Reference) (w : D.World)
      → Cluster.get_provider_config_reference D cr ≡ some r
      → connect_cluster D K c (cluster cr) w ≡ (
        (dial D K (cluster cr) (some r) w).0,
        holding (dial D K (cluster cr) (some r) w).0,
        (dial D K (cluster cr) (some r) w).1,
      )
  unfolding connect_cluster
  connect_cluster-dial cr r w refers =
      rw refers (let p = dial D K (cluster cr) (some r) w in assign_external_lem p.0 p.1)

  pub connect_init_bundle-dial :
      (cr : InitBundle.InitBundle D) (r : Option D.Reference) (w : D.World)
      → InitBundle.get_provider_config_reference D cr ≡ r
      → connect_init_bundle D K c (init_bundle cr) w ≡ (
        (dial D K (init_bundle cr) r w).0,
        holding (dial D K (init_bundle cr) r w).0,
        (dial D K (init_bundle cr) r w).1,
      )
  unfolding connect_init_bundle
  connect_init_bundle-dial cr r w refers =
      rw refers (let p = dial D K (init_bundle cr) r w in assign_external_lem p.0 p.1)

module _ (D : Deps) (K : Kubernetes D) where
  -- The connector of the Cluster controller connects a Cluster that refers to a ProviderConfig
  -- exactly if all four calls succeed, with the connection that the last one returns.
  pub connect_cluster_iff :
      (c : Connector D) (cr : Cluster.Cluster D) (r : D.Reference) (w : D.World) (e : External D)
      → Cluster.get_provider_config_reference D cr ≡ some r
      → ((connect_cluster D K c (cluster cr) w).0 ≡ done e) ↔ Dials D K (cluster cr) r w e
  connect_cluster_iff c cr r w e refers =
      rw (connect_cluster-dial D K c cr r w refers) (dial_iff D K (cluster cr) r w e)

  -- Since tracking refuses a resource without a reference, neither connector ever dereferences a
  -- nil one: they do not panic, whatever the resource.
  pub connect_never_panics :
      IsTracker D K
      → (c : Connector D) (mg : Managed D) (w : D.World)
      → ((connect_cluster D K c mg w).0 ≢ panicked)
        × ((connect_init_bundle D K c mg w).0 ≢ panicked)
  unfolding connect_cluster connect_init_bundle dial
  connect_never_panics T c (cluster cr) w =
      (ground (arith, T.tracks_references (cluster cr) w), λ h. cc)
  connect_never_panics T c (init_bundle cr) w =
      (λ h. cc, ground (arith, T.tracks_references (init_bundle cr) w))
  connect_never_panics T c (other mg) w = (λ h. cc, λ h. cc)
