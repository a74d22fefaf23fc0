-- ===== src/InitBundle/Deletion.antt =====
-- initbundle.go: the deletion of an InitBundle over time, as Cluster/Deletion has it of a Cluster.
use mathlib.Core.Option.{some-injective, none-ne-some}
use provider_stackrox.Base.{
  ℕ, suc, arith, ◌+◌, ◌≤◌, String, ◌≡◌, refl, sym, ◌∙◌, ap, inl, inr, Option, Option-cases, none,
  some, true, [], ◌∷◌,
}
use provider_stackrox.Base.Named.{remove_id}
use provider_stackrox.Base.Counted.{count_name, count_name-remove_first}
use provider_stackrox.Deps.{Deps}
use provider_stackrox.Deps.Errors.{IsErrors}
use provider_stackrox.Deps.Laws.{ServesInitBundles}
use provider_stackrox.Api.InitBundle
use provider_stackrox.Api.InitBundle.{InitBundle}
use provider_stackrox.Api.Parameters.{IsCmp}
use provider_stackrox.Api.Managed.{Managed, init_bundle}
use provider_stackrox.Runs.Removals.{Removals, Removals-left}
use provider_stackrox.InitBundle.Convert.{generate_observation}
use provider_stackrox.InitBundle.{observe, delete, observed}
use provider_stackrox.InitBundle.Observe.{observe_of_found}
use provider_stackrox.InitBundle.Lifecycle.{delete_bundle_outcome}
use provider_stackrox.InitBundle.Runs.{BundleConfig, asked_name}
use provider_stackrox.InitBundle.Success.{
  asked_name-observe, bundles-observe, answered, exists_iff_found,
}

module _ (D : Deps) (S : ServesInitBundles D) (name : String) where
  -- How many bundles of the name Central has.
  abbrev pub bundles_left : BundleConfig D → ℕ
  bundles_left s = count_name D.bundle_name name (S.bundles s.1)

-- A step that adds no bundle of this name: an Observe, which may fail; a Delete, whether it returns
-- an error or not; the resource read again, with the name it had; and any change of the world.
pub data Waiting (D : Deps) (S : ServesInitBundles D) (name : String)
    : BundleConfig D → BundleConfig D → Type 0 where
  look :
      (conn : Option D.ClientConn) (mg : Managed D) (w : D.World)
      → Waiting D S name (mg, w) ((observe D conn mg w).managed, (observe D conn mg w).world)
  delete_in_vain :
      (conn : Option D.ClientConn) (mg : Managed D) (w : D.World)
      → count_name D.bundle_name name (S.bundles (delete D conn mg w).world)
        ≤ count_name D.bundle_name name (S.bundles w)
      → Waiting D S name (mg, w) ((delete D conn mg w).managed, (delete D conn mg w).world)
  read_again :
      (mg mg' : Managed D) (w : D.World)
      → asked_name D mg' ≡ asked_name D mg
      → Waiting D S name (mg, w) (mg', w)
  elsewhere :
      (mg : Managed D) (w w' : D.World)
      → count_name D.bundle_name name (S.bundles w') ≤ count_name D.bundle_name name (S.bundles w)
      → Waiting D S name (mg, w) (mg, w')

-- The identifier in the status, which is what Delete sends.
abbrev pub recorded_id : {D : Deps} → Managed D → String
recorded_id (init_bundle cr) = cr.status.at_provider.id
recorded_id mg = ""

-- An Observe that reports that the resource exists, and a Delete that returns no error and whose
-- identifier is among those that Central's reply, which Delete discards, has as revoked.
pub data Revoking (D : Deps) (S : ServesInitBundles D)
    : BundleConfig D → BundleConfig D → Type 0 where
  revoke :
      (conn : Option D.ClientConn) (mg : Managed D) (w : D.World)
      → (observe D conn mg w).error ≡ none
      → (observe D conn mg w).value.resource_exists ≡ true
      → (delete D conn (observe D conn mg w).managed (observe D conn mg w).world).error ≡ none
      → S.revokes conn (recorded_id (observe D conn mg w).managed) (observe D conn mg w).world
        ≡ true
      → Revoking D S
          (mg, w)
          (
            (delete D conn (observe D conn mg w).managed (observe D conn mg w).world).managed,
            (delete D conn (observe D conn mg w).managed (observe D conn mg w).world).world,
          )

module _ (D : Deps) (E : IsErrors D.errors) (C : IsCmp D.cmp) (S : ServesInitBundles D) where
  asked_name-delete :
      (conn : Option D.ClientConn) (mg : Managed D) (w : D.World)
      → asked_name D (delete D conn mg w).managed ≡ asked_name D mg
  unfolding delete InitBundle.set_conditions
  asked_name-delete conn (init_bundle cr) w = refl
  asked_name-delete conn _ w = refl

  -- A Delete without an error has revoked the identifier in the status, if the reply says so.
  bundles-delete :
      (conn : Option D.ClientConn) (cr : InitBundle D) (w : D.World)
      → (delete D conn (init_bundle cr) w).error ≡ none
      → S.revokes conn cr.status.at_provider.id w ≡ true
      → S.bundles (delete D conn (init_bundle cr) w).world
        ≡ remove_id D.bundle_id cr.status.at_provider.id (S.bundles w)
  bundles-delete conn cr w fine said =
      let sent = D.revoke_init_bundle conn (cr.status.at_provider.id ∷ []) w in
      let at = delete_bundle_outcome D E conn cr w in
      elim (Option-cases sent.0) [
        | inl ok ↦ rw at (S.bundles-revoke_init_bundle conn cr.status.at_provider.id w ok said)
        | inr (e, bad) ↦ absurd (none-ne-some _ (sym fine ∙ (rw bad at (ap (λ r. r.error) at))))
      ]

  -- What Observe has recorded is the identifier of the first bundle of the name.
  revoked :
      (conn : Option D.ClientConn) (cr : InitBundle D) (w : D.World)
      → (observe D conn (init_bundle cr) w).error ≡ none
      → (observe D conn (init_bundle cr) w).value.resource_exists ≡ true
      → let o = observe D conn (init_bundle cr) w in
        (delete D conn o.managed o.world).error ≡ none
        → S.revokes conn (recorded_id o.managed) o.world ≡ true
        → suc (
            count_name D.bundle_name cr.spec.for_provider.name
              (S.bundles (delete D conn o.managed o.world).world))
          ≤ count_name D.bundle_name cr.spec.for_provider.name (S.bundles w)
  unfolding observed generate_observation InitBundle.set_at_provider InitBundle.set_conditions
      InitBundle.set_external_name
  revoked conn cr w fine here deleted said =
      let name = cr.spec.for_provider.name in
      let ok = answered D E C S conn cr w fine in
      elim (exists_iff_found D E C S conn cr w fine) [
        | inl (f, absent) ↦ cc (here, absent)
        | inr (b, f, at_all) ↦
            let w1 = (D.get_init_bundles conn w).2 in
            let at =
              observe_of_found D conn cr w C b ok (rw (S.get_init_bundles-bundles conn w ok) f) in
            let gone =
              bundles-delete conn (observed D cr b w1) w1 (rw at at deleted) (rw at at said) in
            rw at (
              rw (gone, S.bundles-get_init_bundles conn w)
                (count_name-remove_first D.bundle_name D.bundle_id name (S.bundles w) b f))
      ]

  module _ (name : String) where
    asked_removed :
        {s t : BundleConfig D}
        → Revoking D S s t
        → asked_name D s.0 ≡ some name
        → asked_name D t.0 ≡ some name
    asked_removed (revoke conn mg w fine here deleted said) asks =
        asked_name-delete conn (observe D conn mg w).managed (observe D conn mg w).world
        ∙ asked_name-observe D conn mg w
        ∙ asks

    asked_still :
        {s t : BundleConfig D}
        → Waiting D S name s t
        → asked_name D s.0 ≡ some name
        → asked_name D t.0 ≡ some name
    asked_still (look conn mg w) asks = asked_name-observe D conn mg w ∙ asks
    asked_still (delete_in_vain conn mg w fewer) asks = asked_name-delete conn mg w ∙ asks
    asked_still (read_again mg mg' w same) asks = same ∙ asks
    asked_still (elsewhere mg w w' fewer) asks = asks

    left_after :
        {s t : BundleConfig D}
        → Waiting D S name s t
        → bundles_left D S name t ≤ bundles_left D S name s
    left_after (look conn mg w) = rw (bundles-observe D S conn mg w) (omega arith)
    left_after (delete_in_vain conn mg w fewer) = fewer
    left_after (read_again mg mg' w same) = omega arith
    left_after (elsewhere mg w w' fewer) = fewer

    left_removed :
        {s t : BundleConfig D}
        → Revoking D S s t
        → asked_name D s.0 ≡ some name
        → suc (bundles_left D S name t) ≤ bundles_left D S name s
    left_removed (revoke conn (init_bundle cr) w fine here deleted said) asks =
        rw (sym (some-injective _ _ asks)) (revoked conn cr w fine here deleted said)
    left_removed (revoke conn _ w fine here deleted said) asks = absurd (none-ne-some name asks)

    -- Let RevokeInitBundle without an error remove the bundles of the identifier if its reply has
    -- the identifier as revoked; it may as well have refused it and return no error. Take any
    -- sequence of Observes, which may fail, of confirmed Deletes, which return no error and whose
    -- identifier the reply has as revoked, each right after an Observe that reports that the resource
    -- exists, of other Deletes that add no bundle of the resource's name, with an error or without,
    -- of reads of the resource with the same name, and of changes by others that add no bundle of the
    -- name. Then the confirmed Deletes are at most as many as Central had bundles of the name at the
    -- beginning, less those that it has at the end.
    pub revocations_bounded :
        {s t : BundleConfig D} {n : ℕ}
        → asked_name D s.0 ≡ some name
        → Removals (Waiting D S name) (Revoking D S) s n t
        → n + bundles_left D S name t ≤ bundles_left D S name s
    revocations_bounded asks r =
        Removals-left
          (record {
            asks_after = λ q a. asked_still q a;
            asks_removed = λ x a. asked_removed x a;
            left_after = λ q. left_after q;
            left_removed = λ x a. left_removed x a;
          })
          asks r
