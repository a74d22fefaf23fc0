-- ===== src/Examples/Connectors.antt =====
-- The theorems about the connectors at concrete inputs.
use provider_stackrox.Base.{
  String, false, ◌≡◌, ◌≢◌, ◌↔◌, refl, none, some, [], ◌∷◌, ◌++◌, arith, ◌==◌, if◌then◌else◌,
}
use provider_stackrox.Api.Cluster
use provider_stackrox.Api.ProviderConfig.{ProviderConfig}
use provider_stackrox.Api.Managed.{cluster, init_bundle}
use provider_stackrox.Central.{new_grpc}
use provider_stackrox.Connector.{
  Kubernetes, External, Connector, done, panicked, dial, connect_cluster, connect_init_bundle,
  disconnect_init_bundle,
}
use provider_stackrox.Connector.Connect.{
  Dials, IsTracker, reference_of, connect_cluster_iff, connect_never_panics,
}
use provider_stackrox.Connector.Sessions.{overlap_leaks}
use provider_stackrox.Connector.Tracking.{TracksConns, made, is_nil}
use provider_stackrox.Connector.Leaks.{connects, client_conns, connects_leak}
use provider_stackrox.Examples.Toy.{World, toy, world}
use provider_stackrox.Examples.ToyLaws.{toy-IsErrors}
use provider_stackrox.Examples.Samples.{prod, bundle}

-- One ProviderConfig, "default".
abbrev config_of : String → ProviderConfig toy
config_of endpoint = record {
  type_meta = "ProviderConfig";
  object_meta = "default";
  spec = record {
    credentials = record { source = "Secret"; common_credential_selectors = "token" };
    endpoint = endpoint;
  };
  status = tt;
}

abbrev pub kube : Kubernetes toy
kube = record {
  track = λ mg w. (elim (reference_of toy mg) [ none ↦ some "no reference" | some r ↦ none ], w);
  get_provider_config = λ name w.
      if name == "default"
      then (config_of "central:443", none, w)
      else (config_of "", some "not found", w);
  common_credential_extractor = λ source selectors w. ("api token", none, w);
}

kube-IsTracker : IsTracker toy kube
kube-IsTracker = record { tracks_references = λ mg w h. ground arith }

pub opened-config : (n : String) (w : World) → (kube.get_provider_config n w).2.opened ≡ w.opened
opened-config n w = ground arith

pub closed-config : (n : String) (w : World) → (kube.get_provider_config n w).2.closed ≡ w.closed
closed-config n w = ground arith

pub opened-grpc_connection :
    (s : Unit {0}) (endpoint name creds : String) (i : toy.Interceptors) (w : World)
    → (toy.grpc_connection s endpoint name creds i w).2.opened
      ≡ made
          (toy.grpc_connection s endpoint name creds i w).0
          (is_nil (toy.grpc_connection s endpoint name creds i w).1)
          w.opened
opened-grpc_connection s endpoint name creds i w = ground arith

pub closed-grpc_connection :
    (s : Unit {0}) (endpoint name creds : String) (i : toy.Interceptors) (w : World)
    → (toy.grpc_connection s endpoint name creds i w).2.closed ≡ w.closed
closed-grpc_connection s endpoint name creds i w = ground arith

unfoldable pub kube-TracksConns : TracksConns toy kube
kube-TracksConns = record {
  opened = λ w. w.opened;
  closed = λ w. w.closed;
  opened-track = λ mg w. refl;
  closed-track = λ mg w. refl;
  opened-config = opened-config;
  closed-config = closed-config;
  opened-extract = λ s l w. refl;
  closed-extract = λ s l w. refl;
  opened-grpc_connection = opened-grpc_connection;
  closed-grpc_connection = closed-grpc_connection;
  opened-close_conn = λ c w. refl;
  closed-close_conn = λ c w. refl;
}

abbrev pub fresh : Connector toy
fresh = record { external = none }

abbrev pub up : World
up = world [] [] false

connect_cluster_iff_example :
    let e : External toy = record { client = some 7 } in
    ((connect_cluster toy kube fresh (cluster prod) up).0 ≡ done e)
    ↔ Dials toy kube (cluster prod) "default" up e
unfolding Cluster.get_provider_config_reference
connect_cluster_iff_example =
    connect_cluster_iff toy kube fresh prod "default" up (record { client = some 7 }) refl

connected : (connect_cluster toy kube fresh (cluster prod) up).0 ≡ done (record { client = some 7 })
unfolding connect_cluster dial new_grpc
connected = refl

connect_never_panics_example :
    ((connect_cluster toy kube fresh (cluster prod) up).0 ≢ panicked)
    × ((connect_init_bundle toy kube fresh (cluster prod) up).0 ≢ panicked)
connect_never_panics_example = connect_never_panics toy kube kube-IsTracker fresh (cluster prod) up

overlap_leaks_example :
    let (a1, c1, w1) = connect_init_bundle toy kube fresh (init_bundle bundle) up in
    let (a2, c2, w2) = connect_init_bundle toy kube c1 (init_bundle bundle) w1 in
    let w3 = (disconnect_init_bundle toy c2 (disconnect_init_bundle toy c2 w2).1).1 in
    (w3.opened ≡ 8 ∷ 7 ∷ []) × (w3.closed ≡ 8 ∷ 8 ∷ [])
unfolding kube-TracksConns connect_init_bundle dial new_grpc
overlap_leaks_example =
    overlap_leaks toy kube toy-IsErrors kube-TracksConns fresh (init_bundle bundle)
      (init_bundle bundle) up 7 8 refl refl

connects_leak_example :
    let (attempts, c', w') =
      connects toy kube fresh (cluster prod ∷ init_bundle bundle ∷ cluster prod ∷ []) up [] in
    (w'.opened ≡ client_conns toy kube attempts ++ []) × (w'.closed ≡ [])
unfolding kube-TracksConns
connects_leak_example =
    connects_leak toy kube toy-IsErrors kube-TracksConns fresh
      (cluster prod ∷ init_bundle bundle ∷ cluster prod ∷ []) up

two_left_open :
    (connects toy kube fresh (cluster prod ∷ init_bundle bundle ∷ cluster prod ∷ []) up []).2.opened
    ≡ 8 ∷ 7 ∷ []
unfolding connects connect_cluster dial new_grpc
two_left_open = refl
