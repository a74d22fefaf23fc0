-- ===== src/Examples/Workers.antt =====
-- Two workers of the InitBundle controller that overlap.
use provider_stackrox.Base.{◌≡◌, ◌≤◌, ◌+◌, refl, some, arith}
use provider_stackrox.Api.Managed.{init_bundle}
use provider_stackrox.Connector.{connect_init_bundle, disconnect_init_bundle, dial}
use provider_stackrox.Central.{new_grpc}
use provider_stackrox.Connector.Workers.{
  length, GrantsConns, Pool, Reach, here, next, connects, disconnects,
}
use provider_stackrox.Connector.Counts.{closed_as_often}
use provider_stackrox.Examples.Toy.{toy}
use provider_stackrox.Examples.ToyLaws.{toy-IsErrors}
use provider_stackrox.Examples.Connectors.{kube, kube-TracksConns, fresh, up}
use provider_stackrox.Examples.Samples.{bundle}

toy-GrantsConns : GrantsConns toy
toy-GrantsConns s endpoint name c i w fine = (w.next, ground arith)

-- Both workers connect, and then one disconnects.
abbrev once : Pool toy
once =
    let r = connect_init_bundle toy kube fresh (init_bundle bundle) up in
    record { connector = r.1; world = r.2; active = 1 }

abbrev twice : Pool toy
twice =
    let r = connect_init_bundle toy kube once.connector (init_bundle bundle) once.world in
    record { connector = r.1; world = r.2; active = 2 }

abbrev last : Pool toy
last = record {
  connector = twice.connector;
  world = (disconnect_init_bundle toy twice.connector twice.world).1;
  active = 1;
}

overlapping :
    Reach toy kube kube-TracksConns 2 (record { connector = fresh; world = up; active = 0 }) last
unfolding connect_init_bundle dial new_grpc
overlapping =
    next
      (next
        (next here (
          connects fresh up 0 (init_bundle bundle) (record { client = some 7 }) (omega arith) refl))
        (connects once.connector once.world 1 (init_bundle bundle) (record { client = some 8 })
          (omega arith) refl))
      (disconnects twice.connector twice.world 1)

closed_as_often_example :
    (length last.world.closed ≤ length last.world.opened)
    × (length last.world.opened ≤ length last.world.closed + 2)
    × (length last.world.opened ≡ length last.world.closed + 1)
unfolding kube-TracksConns
closed_as_often_example =
    closed_as_often toy kube toy-IsErrors kube-TracksConns toy-GrantsConns 2 fresh up last refl
      overlapping
