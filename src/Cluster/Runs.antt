-- ===== src/Cluster/Runs.antt =====
-- What a reconciler does with a Cluster resource over time. managed.Reconciler calls Create only after
-- an Observe that has reported no resource, and Update only after one that has reported a difference;
-- between its calls it may read the resource again, and others may change theirs in Central.
use provider_stackrox.Base.{String, ◌≡◌, Option, none, some, true, false}
use provider_stackrox.Base.Named.{find_name}
use provider_stackrox.Deps.{Deps}
use provider_stackrox.Deps.Laws.{ServesClusters}
use provider_stackrox.Api.Parameters.{ClusterParameters}
use provider_stackrox.Api.Managed.{Managed, cluster}
use provider_stackrox.Runs.{Call, created, updated}
use provider_stackrox.Cluster.{observe, create, update}

module _ (D : Deps) where
  -- The resource, as the reconciler holds it, and the world.
  abbrev pub Config : Type 0
  Config = Managed D × D.World

  -- mg.Spec.ForProvider of a Cluster
  abbrev pub parameters : Managed D → Option ClusterParameters
  parameters (cluster cr) = some cr.spec.for_provider
  parameters mg = none

-- A step that writes nothing to Central: an Observe, which may fail; a Create or an Update that fails
-- and leaves the first cluster of this name as it is; the resource read again, with the parameters it
-- had; and any change of the world that leaves the first cluster of this name as it is.
pub data Quiet (D : Deps) (S : ServesClusters D) (name : String)
    : Config D → Config D → Type 0 where
  look :
      (conn : Option D.ClientConn) (mg : Managed D) (w : D.World)
      → Quiet D S name (mg, w) ((observe D conn mg w).managed, (observe D conn mg w).world)
  make_in_vain :
      (conn : Option D.ClientConn) (mg : Managed D) (w : D.World) (e : D.Error)
      → (create D conn mg w).error ≡ some e
      → find_name D.get_name name (S.stored (create D conn mg w).world)
        ≡ find_name D.get_name name (S.stored w)
      → Quiet D S name (mg, w) ((create D conn mg w).managed, (create D conn mg w).world)
  change_in_vain :
      (conn : Option D.ClientConn) (mg : Managed D) (w : D.World) (e : D.Error)
      → (update D conn mg w).error ≡ some e
      → find_name D.get_name name (S.stored (update D conn mg w).world)
        ≡ find_name D.get_name name (S.stored w)
      → Quiet D S name (mg, w) ((update D conn mg w).managed, (update D conn mg w).world)
  read_again :
      (mg mg' : Managed D) (w : D.World)
      → parameters D mg' ≡ parameters D mg
      → Quiet D S name (mg, w) (mg', w)
  elsewhere :
      (mg : Managed D) (w w' : D.World)
      → find_name D.get_name name (S.stored w') ≡ find_name D.get_name name (S.stored w)
      → Quiet D S name (mg, w) (mg, w')

-- A step that writes to Central, and succeeds: an Observe and the call that it asks for.
pub data Write (D : Deps) : Call → Config D → Config D → Type 0 where
  make :
      (conn : Option D.ClientConn) (mg : Managed D) (w : D.World)
      → (observe D conn mg w).error ≡ none
      → (observe D conn mg w).value.resource_exists ≡ false
      → (create D conn (observe D conn mg w).managed (observe D conn mg w).world).error ≡ none
      → Write D created
          (mg, w)
          (
            (create D conn (observe D conn mg w).managed (observe D conn mg w).world).managed,
            (create D conn (observe D conn mg w).managed (observe D conn mg w).world).world,
          )
  change :
      (conn : Option D.ClientConn) (mg : Managed D) (w : D.World)
      → (observe D conn mg w).error ≡ none
      → (observe D conn mg w).value.resource_exists ≡ true
      → (observe D conn mg w).value.resource_up_to_date ≡ false
      → (update D conn (observe D conn mg w).managed (observe D conn mg w).world).error ≡ none
      → Write D updated
          (mg, w)
          (
            (update D conn (observe D conn mg w).managed (observe D conn mg w).world).managed,
            (update D conn (observe D conn mg w).managed (observe D conn mg w).world).world,
          )
