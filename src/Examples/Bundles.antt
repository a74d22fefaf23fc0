-- ===== src/Examples/Bundles.antt =====
-- The theorems about the InitBundle controller at concrete inputs.
use provider_stackrox.Base.{
  String, true, false, ◌≡◌, ◌≢◌, ◌⊎◌, refl, none, some, [], ◌∷◌, map, eq_iff, arith,
}
use provider_stackrox.Base.GoMap.{Entries, get}
use provider_stackrox.Base.Named.{find_name, Unnamed, IsFirst}
use provider_stackrox.Api.InitBundle
use provider_stackrox.Api.Managed.{init_bundle, no_observation, no_creation, no_update, returned}
use provider_stackrox.InitBundle.{observed, observe, record_meta, create, delete, update}
use provider_stackrox.InitBundle.Convert.{generate_observation}
use provider_stackrox.InitBundle.Observation.{last_value, impacted, generate_observation_lists}
use provider_stackrox.InitBundle.Observe.{in_sync, never_out_of_date, observe_bundle_answered}
use provider_stackrox.InitBundle.Lifecycle.{reply, create_bundle_outcome, update_revokes}
use provider_stackrox.InitBundle.Rounds.{created_bundle_observed, revoked_bundle_gone}
use provider_stackrox.Examples.Toy.{Bundle, World, toy, world}
use provider_stackrox.Examples.ToyLaws.{
  toy-IsErrors, toy-IsRuntime, toy-IsStamped, toy-IsCmp, toy-ServesInitBundles,
}
use provider_stackrox.Examples.Samples.{bundle, stored_bundle}

abbrev other_bundle : Bundle
other_bundle = record {
  id = "b0";
  name = "a";
  attributes = ("role", "Admin") ∷ ("email", "a@b") ∷ ("role", "Analyst") ∷ [];
  impacted = ("c0", "dev") ∷ ("c1", "prod") ∷ [];
}

abbrev up : World
up = world [] (other_bundle ∷ stored_bundle ∷ []) false

abbrev without : World
without = world [] (other_bundle ∷ []) false

abbrev cut : World
cut = world [] (other_bundle ∷ stored_bundle ∷ []) true

a-ne-b : ◌≢◌ {A = String} "a" "b"
a-ne-b = ground (arith, eq_iff "a" "b")

never_out_of_date_example :
    let o = (observe toy (some 1) (init_bundle bundle) up).value in
    (o.resource_up_to_date ≡ o.resource_exists) × (o.diff ≡ "")
never_out_of_date_example =
    never_out_of_date toy toy-IsErrors toy-IsCmp (some 1) (init_bundle bundle) up

observe_bundle_answered_example :
    let w' = (toy.get_init_bundles (some 1) up).2 in
    let o = observe toy (some 1) (init_bundle bundle) up in
    ((b : Bundle) × IsFirst toy.bundle_name "b" up.bundles b
      × (o ≡ returned toy in_sync none (init_bundle (observed toy bundle b w')) w'))
    ⊎ (Unnamed toy.bundle_name "b" up.bundles
        × (o ≡ returned toy no_observation none (init_bundle bundle) w'))
unfolding toy-ServesInitBundles
observe_bundle_answered_example =
    observe_bundle_answered toy toy-IsCmp toy-ServesInitBundles (some 1) bundle up refl

generate_observation_lists_example :
    let o = generate_observation toy other_bundle in
    ((key : String) → get o.created_by.attributes key ≡ last_value key other_bundle.attributes)
    × (o.impacted_clusters ≡ some (map impacted other_bundle.impacted))
    × ((m : Entries String) × (o.created_by.attributes ≡ some m))
generate_observation_lists_example = generate_observation_lists toy other_bundle

create_bundle_outcome_example :
    let cr' = InitBundle.set_conditions toy bundle (toy.creating without) in
    let (meta, helm, kubectl, err, w') = reply toy (some 1) bundle without in
    let c = create toy (some 1) (init_bundle bundle) without in
    ((err ≡ none)
      × (c
          ≡ returned toy
              (record {
                connection_details =
                    some (("helmValuesBundle", helm) ∷ ("kubectlBundle", kubectl) ∷ []);
              })
              none
              (init_bundle (record_meta toy cr' meta))
              w'))
    ⊎ ((e : String) × (err ≡ some e)
        × (c
            ≡ returned toy
                (no_creation toy)
                (some (toy-IsErrors.wrapped e "cannot create init bundle"))
                (init_bundle cr')
                w'))
create_bundle_outcome_example = create_bundle_outcome toy toy-IsErrors (some 1) bundle without

update_revokes_example :
    let d = delete toy (some 1) (init_bundle bundle) up in
    update toy (some 1) (init_bundle bundle) up
    ≡ returned toy (no_update toy) none d.managed d.world
unfolding delete toy-IsErrors toy-IsStamped InitBundle.get_condition
update_revokes_example =
    update_revokes toy toy-IsRuntime toy-IsStamped toy-IsErrors (some 1) bundle up
      (λ h. ground arith)

created_bundle_observed_example :
    let c = create toy (some 1) (init_bundle bundle) without in
    let o = observe toy (some 1) c.managed c.world in
    (c.error ≡ none) × (o.error ≡ none) × (o.value ≡ in_sync)
unfolding find_name toy-ServesInitBundles
created_bundle_observed_example =
    created_bundle_observed toy toy-IsCmp toy-ServesInitBundles toy-IsErrors (some 1) bundle without
      refl refl refl

revoked_bundle_gone_example :
    let o = observe toy (some 1) (init_bundle bundle) up in
    let d = delete toy (some 1) o.managed o.world in
    let o' = observe toy (some 1) d.managed d.world in
    (o.error ≡ none) × (d.error ≡ none) × (o'.error ≡ none) × (o'.value.resource_exists ≡ false)
unfolding find_name toy-ServesInitBundles
revoked_bundle_gone_example =
    revoked_bundle_gone toy toy-IsCmp toy-ServesInitBundles toy-IsErrors (some 1) bundle up
      stored_bundle refl (λ e. absurd (a-ne-b e), (λ e. refl, tt)) refl refl refl
