-- ===== src/Examples/Passes.antt =====
-- Whole reconciliations by the InitBundle controller in the small Central.
use provider_stackrox.Base.{◌≡◌, ◌⊎◌, refl, true, false, some, List, [], ◌∷◌, arith}
use provider_stackrox.Base.Named.{find_name}
use provider_stackrox.Api.InitBundle
use provider_stackrox.Api.Managed.{init_bundle}
use provider_stackrox.Central.{new_grpc, create_grpc_conn}
use provider_stackrox.Runs.{Call, created}
use provider_stackrox.Connector.{
  dial, connect_init_bundle, disconnect_init_bundle, close_init_bundle,
}
use provider_stackrox.InitBundle.{observe, create, get_init_bundle}
use provider_stackrox.InitBundle.Once.{IsIssued}
use provider_stackrox.InitBundle.Passes.{
  IsApart, Station, IsAside, looks, makes, create_after, Turn, unconnected, connected, Turns, idle,
  then_pass, then_read,
}
use provider_stackrox.InitBundle.First.{issues_at_first}
use provider_stackrox.InitBundle.Whole.{passes_issue_and_close}
use provider_stackrox.Examples.Toy.{World, toy, world}
use provider_stackrox.Examples.ToyLaws.{toy-IsErrors, toy-IsCmp, toy-ServesInitBundles}
use provider_stackrox.Examples.Samples.{bundle}
use provider_stackrox.Examples.Connectors.{kube, kube-TracksConns, fresh}

kube-IsApart : IsApart toy kube toy-ServesInitBundles kube-TracksConns
unfolding toy-ServesInitBundles kube-TracksConns
kube-IsApart = record {
  bundles-track = λ mg w. refl;
  bundles-config = λ n w. ground arith;
  bundles-extract = λ s l w. refl;
  bundles-grpc_connection = λ s endpoint name c i w. ground arith;
  bundles-close_conn = λ c w. refl;
  opened-get_init_bundles = λ c w. ground arith;
  closed-get_init_bundles = λ c w. ground arith;
  opened-generate_init_bundle = λ c n w. ground arith;
  closed-generate_init_bundle = λ c n w. ground arith;
  opened-revoke_init_bundle = λ c ids w. ground arith;
  closed-revoke_init_bundle = λ c ids w. ground arith;
}

abbrev Sequence : Station toy → List Call → Station toy → Type 0
Sequence = Turns toy kube toy-ServesInitBundles kube-TracksConns "b"

-- Central is down, and Connect fails.
abbrev cut : Station toy
cut = record { connector = fresh; managed = init_bundle bundle; world = world [] [] true }

abbrev not_reached : Station toy
not_reached =
    let r = connect_init_bundle toy kube cut.connector cut.managed cut.world in
    record { connector = r.1; managed = cut.managed; world = r.2 }

-- It is up again.
abbrev up_again : Station toy
up_again = record not_reached { world = world [] [] false }

-- The bundle is generated.
abbrev issued : Station toy
issued =
    let r = connect_init_bundle toy kube up_again.connector up_again.managed up_again.world in
    let c = create_after toy (some 7) up_again.managed r.2 in
    record {
      connector = r.1;
      managed = c.managed;
      world = (disconnect_init_bundle toy r.1 c.world).1;
    }

-- It is seen.
abbrev seen : Station toy
seen =
    let r = connect_init_bundle toy kube issued.connector issued.managed issued.world in
    let o = observe toy (some 8) issued.managed r.2 in
    record {
      connector = r.1;
      managed = o.managed;
      world = (disconnect_init_bundle toy r.1 o.world).1;
    }

untouched : (w : World) → IsAside toy kube toy-ServesInitBundles kube-TracksConns "b" w w
untouched w = record { found = refl; opened = refl; closed = refl }

first_pass : Turn toy kube toy-ServesInitBundles kube-TracksConns "b" cut [] not_reached
unfolding connect_init_bundle dial new_grpc
first_pass = unconnected cut.connector cut.managed cut.world (λ e h. cc)

second_pass :
    Turn toy kube toy-ServesInitBundles kube-TracksConns "b" up_again (created ∷ []) issued
unfolding connect_init_bundle dial new_grpc observe create get_init_bundle find_name
second_pass =
    let r = connect_init_bundle toy kube up_again.connector up_again.managed up_again.world in
    let c = create_after toy (some 7) up_again.managed r.2 in
    connected up_again.connector up_again.managed c.managed up_again.world r.2 c.world c.world
      (record { client = some 7 }) (created ∷ []) refl (untouched r.2)
      (makes up_again.managed r.2 refl refl refl) (untouched c.world)

third_pass : Turn toy kube toy-ServesInitBundles kube-TracksConns "b" issued [] seen
unfolding connect_init_bundle dial new_grpc observe create get_init_bundle find_name
    disconnect_init_bundle close_init_bundle InitBundle.set_conditions InitBundle.set_external_name
    InitBundle.set_at_provider
third_pass =
    let r = connect_init_bundle toy kube issued.connector issued.managed issued.world in
    let o = observe toy (some 8) issued.managed r.2 in
    connected issued.connector issued.managed o.managed issued.world r.2 o.world o.world
      (record { client = some 8 }) [] refl (untouched r.2) (looks issued.managed r.2)
      (untouched o.world)

three_passes : Sequence cut (created ∷ []) seen
unfolding connect_init_bundle dial new_grpc toy-ServesInitBundles kube-TracksConns find_name
three_passes =
    then_pass
      (then_pass
        (then_read not_reached.connector not_reached.managed not_reached.managed not_reached.world
          up_again.world (then_pass idle first_pass) refl
          (record { found = refl; opened = refl; closed = refl }))
        second_pass)
      third_pass

passes_issue_and_close_example :
    (kube-TracksConns.opened seen.world ≡ kube-TracksConns.closed seen.world)
    × ((◌≡◌ {A = List Call} (created ∷ []) [])
        ⊎ ((◌≡◌ {A = List Call} (created ∷ []) (created ∷ []))
            × IsIssued toy toy-ServesInitBundles "b" (seen.managed, seen.world)))
unfolding kube-TracksConns
passes_issue_and_close_example =
    passes_issue_and_close toy kube toy-IsErrors toy-ServesInitBundles kube-TracksConns kube-IsApart
      "b" toy-IsCmp refl refl three_passes

issues_at_first_example :
    (t : Station toy) × Turn toy kube toy-ServesInitBundles kube-TracksConns "b"
      (record { connector = fresh; managed = init_bundle bundle; world = world [] [] false })
      (created ∷ [])
      t
    × (kube-TracksConns.opened t.world ≡ kube-TracksConns.closed t.world)
    × IsIssued toy toy-ServesInitBundles "b" (t.managed, t.world)
unfolding InitBundle.get_provider_config_reference connect_init_bundle dial new_grpc
    toy-ServesInitBundles kube-TracksConns find_name create_grpc_conn
issues_at_first_example =
    issues_at_first toy kube toy-IsErrors toy-IsCmp toy-ServesInitBundles kube-TracksConns
      kube-IsApart fresh bundle "default" (world [] [] false) (record { client = some 7 }) refl
      (record { tracks = refl; configured = refl; credible = refl; connects = refl; client = refl })
      refl refl refl refl
