-- ===== src/Examples/Deletions.antt =====
-- Deletions in the small Central.
use provider_stackrox.Base.{◌+◌, ◌≤◌, refl, false, some, [], ◌∷◌}
use provider_stackrox.Base.Named.{find_name, remove_id}
use provider_stackrox.Api.Cluster as ClusterApi
use provider_stackrox.Api.InitBundle as BundleApi
use provider_stackrox.Api.Managed.{cluster, init_bundle}
use provider_stackrox.Runs.Removals.{Removals, start, quietly, removing}
use provider_stackrox.Cluster
use provider_stackrox.InitBundle
use provider_stackrox.Cluster.Convert.{generate_observation}
use provider_stackrox.Cluster.Runs.{Config}
use provider_stackrox.Cluster.Deletion.{left, Waiting, Removing, look, erase, deletes_bounded}
use provider_stackrox.InitBundle.Runs.{BundleConfig}
use provider_stackrox.InitBundle.Deletion as Revocation
use provider_stackrox.InitBundle.Deletion.{bundles_left, Revoking, revoke, revocations_bounded}
use provider_stackrox.Examples.Toy.{toy, world}
use provider_stackrox.Examples.ToyLaws.{
  toy-IsErrors, toy-IsCmp, toy-ServesClusters, toy-ServesInitBundles,
}
use provider_stackrox.Examples.Samples.{
  params, prod, prod_cluster, dev_cluster, bundle, stored_bundle,
}

-- Central stores two clusters of the name. The first one is deleted, then the second one; then there
-- is none to be seen.
abbrev two_left : Config toy
two_left = (
  cluster prod,
  world (dev_cluster ∷ prod_cluster ∷ (record prod_cluster { id = "c2" }) ∷ []) [] false,
)

abbrev after_delete : Config toy → Config toy
after_delete s =
    let o = Cluster.observe toy (some 1) s.0 s.1 in
    let d = Cluster.delete toy (some 1) o.managed o.world in (d.managed, d.world)

abbrev one_left : Config toy
one_left = after_delete two_left

abbrev none_left : Config toy
none_left = after_delete one_left

abbrev seen : Config toy
seen = let o = Cluster.observe toy (some 1) none_left.0 none_left.1 in (o.managed, o.world)

two_deleted : Removals (Waiting toy toy-ServesClusters "prod") (Removing toy) two_left 2 seen
unfolding Cluster.observe Cluster.delete Cluster.get_cluster find_name remove_id Cluster.observed
    ClusterApi.set_conditions ClusterApi.set_external_name ClusterApi.set_at_provider
    generate_observation
two_deleted =
    quietly
      (removing (removing start (erase (some 1) two_left.0 two_left.1 refl refl refl))
        (erase (some 1) one_left.0 one_left.1 refl refl refl))
      (look (some 1) none_left.0 none_left.1)

deletes_bounded_example :
    2 + left toy toy-ServesClusters "prod" seen ≤ left toy toy-ServesClusters "prod" two_left
deletes_bounded_example =
    deletes_bounded toy toy-IsErrors toy-ServesClusters params refl two_deleted

-- One bundle, which is revoked and then not seen any more.
abbrev held : BundleConfig toy
held = (init_bundle bundle, world [] (stored_bundle ∷ []) false)

abbrev revoked : BundleConfig toy
revoked =
    let o = InitBundle.observe toy (some 1) held.0 held.1 in
    let d = InitBundle.delete toy (some 1) o.managed o.world in (d.managed, d.world)

abbrev unseen : BundleConfig toy
unseen = let o = InitBundle.observe toy (some 1) revoked.0 revoked.1 in (o.managed, o.world)

one_revoked :
    Removals
      (Revocation.Waiting toy toy-ServesInitBundles "b")
      (Revoking toy toy-ServesInitBundles)
      held
      1
      unseen
unfolding InitBundle.observe InitBundle.delete InitBundle.get_init_bundle find_name remove_id
    InitBundle.observed BundleApi.set_conditions toy-ServesInitBundles
one_revoked =
    quietly (removing start (revoke (some 1) held.0 held.1 refl refl refl refl))
      (Revocation.look (some 1) revoked.0 revoked.1)

revocations_bounded_example :
    1 + bundles_left toy toy-ServesInitBundles "b" unseen
    ≤ bundles_left toy toy-ServesInitBundles "b" held
revocations_bounded_example =
    revocations_bounded toy toy-IsErrors toy-IsCmp toy-ServesInitBundles "b" refl one_revoked
