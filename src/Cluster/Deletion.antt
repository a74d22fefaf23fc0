-- ===== src/Cluster/Deletion.antt =====
-- cluster.go: the deletion of a Cluster resource over time. While a resource is to be deleted,
-- managed.Reconciler calls Delete after each Observe that reports that it exists.
use mathlib.Core.Option.{some-injective, none-ne-some}
use provider_stackrox.Base.{
  ℕ, suc, ◌+◌, ◌≤◌, String, ◌≡◌, refl, sym, ◌∙◌, ap, inl, inr, Option, Option-cases, none, some,
  true, arith,
}
use provider_stackrox.Base.Named.{remove_id}
use provider_stackrox.Base.Counted.{count_name, count_name-remove_first}
use provider_stackrox.Deps.{Deps}
use provider_stackrox.Deps.Errors.{IsErrors}
use provider_stackrox.Deps.Laws.{ServesClusters}
use provider_stackrox.Api.Cluster
use provider_stackrox.Api.Cluster.{Cluster}
use provider_stackrox.Api.Parameters.{ClusterParameters}
use provider_stackrox.Api.Managed.{Managed, cluster}
use provider_stackrox.Runs.Removals.{Removals, Removals-left}
use provider_stackrox.Cluster.Convert.{generate_observation}
use provider_stackrox.Cluster.{observe, delete, observed}
use provider_stackrox.Cluster.Observe.{observe_of_found, stored-observe}
use provider_stackrox.Cluster.Writes.{delete_outcome}
use provider_stackrox.Cluster.Runs.{Config, parameters}
use provider_stackrox.Cluster.Success.{answered, present}
use provider_stackrox.Cluster.Settled.{parameters-observe}

module _ (D : Deps) (S : ServesClusters D) (name : String) where
  -- How many clusters of the name Central stores.
  abbrev pub left : Config D → ℕ
  left s = count_name D.get_name name (S.stored s.1)

-- A step that adds no cluster of this name: an Observe, which may fail; a Delete that fails; the
-- resource read again, with the parameters it had; and any change of the world.
pub data Waiting (D : Deps) (S : ServesClusters D) (name : String)
    : Config D → Config D → Type 0 where
  look :
      (conn : Option D.ClientConn) (mg : Managed D) (w : D.World)
      → Waiting D S name (mg, w) ((observe D conn mg w).managed, (observe D conn mg w).world)
  delete_in_vain :
      (conn : Option D.ClientConn) (mg : Managed D) (w : D.World) (e : D.Error)
      → (delete D conn mg w).error ≡ some e
      → count_name D.get_name name (S.stored (delete D conn mg w).world)
        ≤ count_name D.get_name name (S.stored w)
      → Waiting D S name (mg, w) ((delete D conn mg w).managed, (delete D conn mg w).world)
  read_again :
      (mg mg' : Managed D) (w : D.World)
      → parameters D mg' ≡ parameters D mg
      → Waiting D S name (mg, w) (mg', w)
  elsewhere :
      (mg : Managed D) (w w' : D.World)
      → count_name D.get_name name (S.stored w') ≤ count_name D.get_name name (S.stored w)
      → Waiting D S name (mg, w) (mg, w')

-- An Observe that reports that the resource exists, and a Delete that succeeds.
pub data Removing (D : Deps) : Config D → Config D → Type 0 where
  erase :
      (conn : Option D.ClientConn) (mg : Managed D) (w : D.World)
      → (observe D conn mg w).error ≡ none
      → (observe D conn mg w).value.resource_exists ≡ true
      → (delete D conn (observe D conn mg w).managed (observe D conn mg w).world).error ≡ none
      → Removing D
          (mg, w)
          (
            (delete D conn (observe D conn mg w).managed (observe D conn mg w).world).managed,
            (delete D conn (observe D conn mg w).managed (observe D conn mg w).world).world,
          )

module _ (D : Deps) (E : IsErrors D.errors) (S : ServesClusters D) where
  parameters-delete :
      (conn : Option D.ClientConn) (mg : Managed D) (w : D.World)
      → parameters D (delete D conn mg w).managed ≡ parameters D mg
  unfolding delete Cluster.set_conditions
  parameters-delete conn (cluster cr) w = refl
  parameters-delete conn _ w = refl

  -- A Delete without an error has removed the identifier in the status.
  stored-delete :
      (conn : Option D.ClientConn) (cr : Cluster D) (w : D.World)
      → (delete D conn (cluster cr) w).error ≡ none
      → S.stored (delete D conn (cluster cr) w).world
        ≡ remove_id D.get_id cr.status.at_provider.id (S.stored w)
  stored-delete conn cr w fine =
      let sent = D.delete_cluster conn cr.status.at_provider.id w in
      let at = delete_outcome D E conn cr w in
      elim (Option-cases sent.0) [
        | inl ok ↦ rw at (S.stored-delete_cluster conn cr.status.at_provider.id w ok)
        | inr (e, bad) ↦ absurd (none-ne-some _ (sym fine ∙ (rw bad at (ap (λ r. r.error) at))))
      ]

  -- What Observe has recorded is the identifier of the first cluster of the name.
  erased :
      (conn : Option D.ClientConn) (cr : Cluster D) (w : D.World)
      → (observe D conn (cluster cr) w).error ≡ none
      → (observe D conn (cluster cr) w).value.resource_exists ≡ true
      → let o = observe D conn (cluster cr) w in
        (delete D conn o.managed o.world).error ≡ none
        → suc (
            count_name D.get_name cr.spec.for_provider.name
              (S.stored (delete D conn o.managed o.world).world))
          ≤ count_name D.get_name cr.spec.for_provider.name (S.stored w)
  unfolding observed generate_observation Cluster.set_at_provider Cluster.set_conditions
      Cluster.set_external_name
  erased conn cr w fine here deleted =
      let name = cr.spec.for_provider.name in
      let ok = answered D E S conn cr w fine in
      let (c, f) = present D E S conn cr w fine here in
      let w1 = (D.get_clusters conn w).2 in
      let at = observe_of_found D conn cr w c ok (rw (S.get_clusters-stored conn w ok) f) in
      let gone = stored-delete conn (observed D cr c w1) w1 (rw at at deleted) in
      rw at (
        rw (gone, S.stored-get_clusters conn w)
          (count_name-remove_first D.get_name D.get_id name (S.stored w) c f))

  module _ (p : ClusterParameters) where
    asks_removed :
        {s t : Config D} → Removing D s t → parameters D s.0 ≡ some p → parameters D t.0 ≡ some p
    asks_removed (erase conn mg w fine here deleted) asks =
        parameters-delete conn (observe D conn mg w).managed (observe D conn mg w).world
        ∙ parameters-observe D conn mg w
        ∙ asks

    asks_still :
        {s t : Config D}
        → Waiting D S p.name s t
        → parameters D s.0 ≡ some p
        → parameters D t.0 ≡ some p
    asks_still (look conn mg w) asks = parameters-observe D conn mg w ∙ asks
    asks_still (delete_in_vain conn mg w e fails fewer) asks = parameters-delete conn mg w ∙ asks
    asks_still (read_again mg mg' w same) asks = same ∙ asks
    asks_still (elsewhere mg w w' fewer) asks = asks

    left_after : {s t : Config D} → Waiting D S p.name s t → left D S p.name t ≤ left D S p.name s
    left_after (look conn mg w) = rw (stored-observe D S conn mg w) (omega arith)
    left_after (delete_in_vain conn mg w e fails fewer) = fewer
    left_after (read_again mg mg' w same) = omega arith
    left_after (elsewhere mg w w' fewer) = fewer

    left_removed :
        {s t : Config D}
        → Removing D s t
        → parameters D s.0 ≡ some p
        → suc (left D S p.name t) ≤ left D S p.name s
    left_removed (erase conn (cluster cr) w fine here deleted) asks =
        rw (sym (some-injective _ _ asks)) (erased conn cr w fine here deleted)
    left_removed (erase conn _ w fine here deleted) asks = absurd (none-ne-some p asks)

    -- Take any sequence of Observes, which may fail, of Deletes that succeed, each right after an
    -- Observe that reports that the resource exists, of Deletes that fail and add no cluster of the
    -- resource's name, of reads of the resource with the same parameters, and of changes by others
    -- that add no cluster of the name. Then the Deletes that succeed are at most as many as Central
    -- stored clusters of the name at the beginning, less those that it stores at the end.
    pub deletes_bounded :
        {s t : Config D} {n : ℕ}
        → parameters D s.0 ≡ some p
        → Removals (Waiting D S p.name) (Removing D) s n t
        → n + left D S p.name t ≤ left D S p.name s
    deletes_bounded asks r =
        Removals-left
          (record {
            asks_after = λ q a. asks_still q a;
            asks_removed = λ x a. asks_removed x a;
            left_after = λ q. left_after q;
            left_removed = λ x a. left_removed x a;
          })
          asks r
