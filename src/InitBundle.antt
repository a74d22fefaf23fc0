-- ===== src/InitBundle.antt =====
-- pkg/controller/initbundle/initbundle.go: the external client that reconciles an InitBundle
-- resource with Central. Central has no call that changes an init bundle.
pub mod Convert
pub mod Observation
pub mod Observe
pub mod Lifecycle
pub mod Rounds
pub mod Runs
pub mod Success
pub mod Once
pub mod Passes
pub mod Deletion
pub mod First
pub mod Connections
pub mod Whole
use provider_stackrox.Base.{
  String, Bool, true, false, Option, none, some, List, [], ◌∷◌, ◌||◌, if◌then◌else◌,
}
use provider_stackrox.Base.Named.{find_name}
use provider_stackrox.Deps.{Deps}
use provider_stackrox.Api.InitBundle
use provider_stackrox.Api.InitBundle.{InitBundle}
use provider_stackrox.Api.Managed.{
  Managed, init_bundle, Returned, returned, no_observation, no_creation, no_update,
  ExternalObservation, ExternalCreation, ExternalUpdate,
}
use provider_stackrox.InitBundle.Convert.{generate_observation, is_up_to_date}

abbrev pub err_not_init_bundle : String
err_not_init_bundle = "managed resource is not a InitBundle custom resource"

abbrev pub err_get_failed : String
err_get_failed = "cannot get init bundle"

abbrev pub err_observe_failed : String
err_observe_failed = "cannot observe init bundle"

abbrev pub err_create_failed : String
err_create_failed = "cannot create init bundle"

abbrev pub err_update_failed : String
err_update_failed = "cannot update init bundle"

abbrev pub err_delete_failed : String
err_delete_failed = "cannot delete init bundle"

module _ (D : Deps) where
  -- `none` beside a nil error is the `nil, nil` of the source.
  unfoldable pub get_init_bundle :
      Option D.ClientConn
      → InitBundle D
      → D.World
      → Option D.InitBundleMeta × Option D.Error × D.World
  get_init_bundle client cr w =
      let (items, err, w') = D.get_init_bundles client w in
      elim err [
        | some e ↦ (none, D.wrap (some e) err_get_failed, w')
        | none ↦ (find_name D.bundle_name cr.spec.for_provider.name items, none, w')
      ]

  -- The writes that Observe makes to the resource once it has found the bundle.
  unfoldable pub observed : InitBundle D → D.InitBundleMeta → D.World → InitBundle D
  observed cr bundle w =
      let cr1 = InitBundle.set_at_provider D cr (generate_observation D bundle) in
      let cr2 = InitBundle.set_conditions D cr1 (D.available w) in
      InitBundle.set_external_name D cr2 (D.bundle_name bundle)

  unfoldable pub observe :
      Option D.ClientConn → Managed D → D.World → Returned D ExternalObservation
  unfolding observed
  observe client (init_bundle cr) w =
      let (found, err, w') = get_init_bundle client cr w in
      elim err [
        | some e ↦
            returned D no_observation (D.wrap (some e) err_observe_failed) (init_bundle cr) w'
        | none ↦ elim found [
          | none ↦ returned D no_observation none (init_bundle cr) w'
          | some bundle ↦
              let cr' = observed cr bundle w' in
              let (up_to_date, diff) = is_up_to_date D cr' bundle in
              returned D
                (record { resource_exists = true; resource_up_to_date = up_to_date; diff = diff })
                none (init_bundle cr') w'
        ]
      ]
  observe client mg w = returned D no_observation (some (D.new_error err_not_init_bundle)) mg w

  -- `if m := resp.GetMeta(); m != nil { … }`
  unfoldable pub record_meta : InitBundle D → Option D.InitBundleMeta → InitBundle D
  record_meta cr none = cr
  record_meta cr (some m) =
      InitBundle.set_external_name D (InitBundle.set_at_provider D cr (generate_observation D m))
        (D.bundle_name m)

  -- The two secrets of a new bundle are handed on as connection details.
  unfoldable pub create :
      Option D.ClientConn → Managed D → D.World → Returned D (ExternalCreation D)
  unfolding record_meta
  create client (init_bundle cr) w =
      let cr' = InitBundle.set_conditions D cr (D.creating w) in
      let (meta, helm, kubectl, err, w') =
        D.generate_init_bundle client cr'.spec.for_provider.name w in
      elim err [
        | some e ↦
            returned D (no_creation D) (D.wrap (some e) err_create_failed) (init_bundle cr') w'
        | none ↦
            returned D
              (record {
                connection_details =
                    some (("helmValuesBundle", helm) ∷ ("kubectlBundle", kubectl) ∷ []);
              })
              none (init_bundle (record_meta cr' meta)) w'
      ]
  create client mg w = returned D (no_creation D) (some (D.new_error err_not_init_bundle)) mg w

  unfoldable pub delete : Option D.ClientConn → Managed D → D.World → Returned D (Unit {0})
  delete client (init_bundle cr) w =
      let cr' = InitBundle.set_conditions D cr (D.deleting w) in
      let (err, w') = D.revoke_init_bundle client (cr'.status.at_provider.id ∷ []) w in
      returned D tt (D.wrap err err_delete_failed) (init_bundle cr') w'
  delete client mg w = returned D tt (some (D.new_error err_not_init_bundle)) mg w

  -- The guard of Update: the condition Ready is `==` to one that is made at this moment.
  unfoldable pub in_transition : InitBundle D → D.World → Bool
  in_transition cr w =
      D.condition_eq (InitBundle.get_condition D cr D.type_ready) (D.creating w)
      || D.condition_eq (InitBundle.get_condition D cr D.type_ready) (D.deleting w)

  unfoldable pub update : Option D.ClientConn → Managed D → D.World → Returned D (ExternalUpdate D)
  unfolding in_transition
  update client (init_bundle cr) w =
      if in_transition cr w
      then returned D (no_update D) none (init_bundle cr) w
      else (let d = delete client (init_bundle cr) w in
          returned D (no_update D) (D.wrap d.error err_update_failed) d.managed d.world)
  update client mg w = returned D (no_update D) (some (D.new_error err_not_init_bundle)) mg w
