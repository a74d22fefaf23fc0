-- ===== src/Connector/Leaks.antt =====
-- Connections over several reconciliations by the Cluster controller. It registers its connector by
-- WithExternalConnecter, with which the reconciler calls Connect and never Disconnect.
use provider_stackrox.Base.{◌≡◌, refl, ◌∙◌, none, some, List, [], ◌∷◌, ◌++◌, arith}
use provider_stackrox.Deps.{Deps}
use provider_stackrox.Deps.Errors.{IsErrors}
use provider_stackrox.Api.Cluster
use provider_stackrox.Api.Managed.{Managed, cluster, init_bundle, other}
use provider_stackrox.Connector.{
  Kubernetes, External, Connector, Attempt, done, failed, panicked, connect_cluster, dial,
  assign_external,
}
use provider_stackrox.Connector.Sessions.{dial_conns, of_client}
use provider_stackrox.Connector.Tracking.{TracksConns}

module _ (D : Deps) (K : Kubernetes D) where
  -- Connect for each resource in turn: what came of each, the latest first.
  unfoldable pub connects :
      Connector D
      → List (Managed D)
      → D.World
      → List (Attempt D (External D))
      → List (Attempt D (External D)) × Connector D × D.World
  connects c [] w past = (past, c, w)
  connects c (mg ∷ rest) w past =
      let (a, c', w') = connect_cluster D K c mg w in connects c' rest w' (a ∷ past)

  -- The connections of the external clients.
  abbrev pub client_conns : List (Attempt D (External D)) → List D.ClientConn
  client_conns [] = []
  client_conns (done e ∷ rest) = elim e.client [
    | none ↦ client_conns rest
    | some x ↦ x ∷ client_conns rest
  ]
  client_conns (failed err ∷ rest) = client_conns rest
  client_conns (panicked ∷ rest) = client_conns rest

module _ (D : Deps) (K : Kubernetes D) (E : IsErrors D.errors) (T : TracksConns D K) where
  after_dial :
      (c : Connector D) (a : Attempt D (External D)) (w w' : D.World)
      (past : List (Attempt D (External D))) (l : List D.ClientConn)
      → (T.opened w' ≡ of_client D K E T a (T.opened w)) × (T.closed w' ≡ T.closed w)
      → T.opened w ≡ client_conns D K past ++ l
      → let r = assign_external D K c (a, w') in
        (T.opened r.2 ≡ client_conns D K (r.0 ∷ past) ++ l) × (T.closed r.2 ≡ T.closed w)
  unfolding assign_external
  after_dial c (done e) w w' past l d o = ground arith
  after_dial c (failed err) w w' past l d o = ground arith
  after_dial c panicked w w' past l d o = ground arith

  connect_cluster_conns :
      (c : Connector D) (mg : Managed D) (w : D.World) (past : List (Attempt D (External D)))
      (l : List D.ClientConn)
      → T.opened w ≡ client_conns D K past ++ l
      → let r = connect_cluster D K c mg w in
        (T.opened r.2 ≡ client_conns D K (r.0 ∷ past) ++ l) × (T.closed r.2 ≡ T.closed w)
  unfolding connect_cluster assign_external
  connect_cluster_conns c (cluster cr) w past l o =
      let reference = Cluster.get_provider_config_reference D cr in
      let d = dial_conns D K E T (cluster cr) reference w in
      after_dial c (dial D K (cluster cr) reference w).0 w (dial D K (cluster cr) reference w).1
        past l d o
  connect_cluster_conns c (init_bundle cr) w past l o = (o, refl)
  connect_cluster_conns c (other mg) w past l o = (o, refl)

  connects_conns :
      (c : Connector D) (work : List (Managed D)) (w : D.World)
      (past : List (Attempt D (External D))) (l : List D.ClientConn)
      → T.opened w ≡ client_conns D K past ++ l
      → let r = connects D K c work w past in
        (T.opened r.2 ≡ client_conns D K r.0 ++ l) × (T.closed r.2 ≡ T.closed w)
  unfolding connects
  connects_conns c [] w past l o = (o, refl)
  connects_conns c (mg ∷ rest) w past l o =
      let r = connect_cluster D K c mg w in
      let one = connect_cluster_conns c mg w past l o in
      let all = connects_conns r.1 rest r.2 (r.0 ∷ past) l one.0 in (all.0, all.1 ∙ one.1)

  -- However often the Cluster controller connects, and whatever fails, no connection is closed, and
  -- all connections of the external clients that it has obtained stay open.
  pub connects_leak :
      (c : Connector D) (work : List (Managed D)) (w : D.World)
      → let (attempts, c', w') = connects D K c work w [] in
        (T.opened w' ≡ client_conns D K attempts ++ T.opened w) × (T.closed w' ≡ T.closed w)
  connects_leak c work w = connects_conns c work w [] (T.opened w) refl
