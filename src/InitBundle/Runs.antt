-- ===== src/InitBundle/Runs.antt =====
-- What a reconciler does with an InitBundle over time, as Cluster/Runs has it of a Cluster.
use provider_stackrox.Base.{String, ◌≡◌, Option, none, some, true, false}
use provider_stackrox.Base.Named.{find_name}
use provider_stackrox.Deps.{Deps}
use provider_stackrox.Deps.Laws.{ServesInitBundles}
use provider_stackrox.Api.Managed.{Managed, init_bundle}
use provider_stackrox.Runs.{Call, created, updated}
use provider_stackrox.InitBundle.{observe, create, update}

module _ (D : Deps) where
  -- The resource, as the reconciler holds it, and the world.
  abbrev pub BundleConfig : Type 0
  BundleConfig = Managed D × D.World

  -- mg.Spec.ForProvider.Name of an InitBundle
  abbrev pub asked_name : Managed D → Option String
  asked_name (init_bundle cr) = some cr.spec.for_provider.name
  asked_name mg = none

-- A step that generates nothing in Central: an Observe, which may fail; a Create that fails and
-- leaves the first bundle of this name as it is; the resource read again, with the name it had; and
-- any change of the world that leaves the first bundle of this name as it is.
pub data Quiet (D : Deps) (S : ServesInitBundles D) (name : String)
    : BundleConfig D → BundleConfig D → Type 0 where
  look :
      (conn : Option D.ClientConn) (mg : Managed D) (w : D.World)
      → Quiet D S name (mg, w) ((observe D conn mg w).managed, (observe D conn mg w).world)
  make_in_vain :
      (conn : Option D.ClientConn) (mg : Managed D) (w : D.World) (e : D.Error)
      → (create D conn mg w).error ≡ some e
      → find_name D.bundle_name name (S.bundles (create D conn mg w).world)
        ≡ find_name D.bundle_name name (S.bundles w)
      → Quiet D S name (mg, w) ((create D conn mg w).managed, (create D conn mg w).world)
  read_again :
      (mg mg' : Managed D) (w : D.World)
      → asked_name D mg' ≡ asked_name D mg
      → Quiet D S name (mg, w) (mg', w)
  elsewhere :
      (mg : Managed D) (w w' : D.World)
      → find_name D.bundle_name name (S.bundles w') ≡ find_name D.bundle_name name (S.bundles w)
      → Quiet D S name (mg, w) (mg, w')

-- An Observe and the call that it asks for: a Create that succeeds, or an Update, which may fail.
pub data Write (D : Deps) : Call → BundleConfig D → BundleConfig D → Type 0 where
  make :
      (conn : Option D.ClientConn) (mg : Managed D) (w : D.World)
      → (observe D conn mg w).error ≡ none
      → (observe D conn mg w).value.resource_exists ≡ false
      → (create D conn (observe D conn mg w).managed (observe D conn mg w).world).error ≡ none
      → Write D created
          (mg, w)
          (
            (create D conn (observe D conn mg w).managed (observe D conn mg w).world).managed,
            (create D conn (observe D conn mg w).managed (observe D conn mg w).world).world,
          )
  change :
      (conn : Option D.ClientConn) (mg : Managed D) (w : D.World)
      → (observe D conn mg w).error ≡ none
      → (observe D conn mg w).value.resource_exists ≡ true
      → (observe D conn mg w).value.resource_up_to_date ≡ false
      → Write D updated
          (mg, w)
          (
            (update D conn (observe D conn mg w).managed (observe D conn mg w).world).managed,
            (update D conn (observe D conn mg w).managed (observe D conn mg w).world).world,
          )
