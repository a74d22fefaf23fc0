-- ===== src/Cluster/Once.antt =====
-- cluster.go: a run writes to Central once at most, and not at all once Central stores what the
-- resource asks for.
use mathlib.Core.Option.{some-injective, none-ne-some}
use provider_stackrox.Base.{
  String, List, [], ◌∷◌, ◌≡◌, ◌⊎◌, sym, ◌∙◌, ap, Option, none, some, true, false, refl,
}
use provider_stackrox.Base.Named.{find_name}
use provider_stackrox.Deps.{Deps}
use provider_stackrox.Deps.Errors.{IsErrors}
use provider_stackrox.Deps.Storage.{IsStorage}
use provider_stackrox.Deps.Laws.{ServesClusters}
use provider_stackrox.Api.Parameters.{ClusterParameters, IsCmp}
use provider_stackrox.Api.Managed.{Managed, cluster}
use provider_stackrox.Cluster.{observe}
use provider_stackrox.Cluster.Convergence.{in_sync, observe-in_sync}
use provider_stackrox.Cluster.Drift.{IsAdmitted, DeclaresNames}
use provider_stackrox.Cluster.Observe.{stored-observe}
use provider_stackrox.Cluster.Runs.{Config, parameters, Quiet, Write, make, change}
use provider_stackrox.Runs.{
  Call, created, updated, Run, KeepsSettled, WritesOnce, run_settled, run_once,
}
use provider_stackrox.Cluster.Success.{answered, absent, present}
use provider_stackrox.Cluster.Settled.{
  IsSettled, IsShown, IsSettled-IsShown, KeepsConfigured, Quiet-IsShown, parameters-observe,
  asks_after, found_after, Quiet-IsSettled, create_asked, update_asked,
}

-- The call that it takes, by what Central stores under the name.
abbrev pub call_for : {A : Type 0} → Option A → Call
call_for none = created
call_for (some c) = updated

abbrev pub needed : (D : Deps) → ServesClusters D → String → Config D → Call
needed D S name s = call_for (find_name D.get_name name (S.stored s.1))

module _ (D : Deps) (E : IsErrors D.errors) (L : IsStorage D.storage) (C : IsCmp D.cmp)
    (S : ServesClusters D) where
  module _ (p : ClusterParameters) where
    absent_asked :
        (conn : Option D.ClientConn) (mg : Managed D) (w : D.World)
        → parameters D mg ≡ some p
        → (observe D conn mg w).error ≡ none
        → (observe D conn mg w).value.resource_exists ≡ false
        → find_name D.get_name p.name (S.stored w) ≡ none
    absent_asked conn (cluster cr) w asks fine gone =
        rw (sym (some-injective _ _ asks)) (absent D E S conn cr w fine gone)
    absent_asked conn _ w asks fine gone = absurd (none-ne-some p asks)

    present_asked :
        (conn : Option D.ClientConn) (mg : Managed D) (w : D.World)
        → parameters D mg ≡ some p
        → (observe D conn mg w).error ≡ none
        → (observe D conn mg w).value.resource_exists ≡ true
        → (c : D.StorageCluster) × (find_name D.get_name p.name (S.stored w) ≡ some c)
    present_asked conn (cluster cr) w asks fine here =
        rw (sym (some-injective _ _ asks)) (present D E S conn cr w fine here)
    present_asked conn _ w asks fine here = absurd (none-ne-some p asks)

    -- An Observe that does not fail reports a resource in sync if Central shows its parameters.
    observe_shown :
        (conn : Option D.ClientConn) (mg : Managed D) (w : D.World)
        → IsShown D S p (mg, w)
        → (observe D conn mg w).error ≡ none
        → (observe D conn mg w).value ≡ in_sync
    observe_shown conn (cluster cr) w h fine =
        observe-in_sync D C S p conn cr w h.remote (some-injective _ _ h.asks)
          (answered D E S conn cr w fine) h.stores h.shows
    observe_shown conn _ w h fine = absurd (none-ne-some p h.asks)

    shown_is_not_written : {c : Call} {s t : Config D} → IsShown D S p s → ¬ Write D c s t
    shown_is_not_written h (make conn mg w fine gone sent) =
        cc (ap (λ v. v.resource_exists) (observe_shown conn mg w h fine), gone)
    shown_is_not_written h (change conn mg w fine here drifts sent) =
        cc (ap (λ v. v.resource_up_to_date) (observe_shown conn mg w h fine), drifts)

    cluster-KeepsSettled : KeepsSettled (Quiet D S p.name) (Write D) (IsSettled D S p)
    cluster-KeepsSettled = record {
      settled_after = λ q h. Quiet-IsSettled D S p q h;
      settled_unwritten = λ h x. shown_is_not_written (IsSettled-IsShown D S p h) x;
    }

    IsShown-KeepsSettled : KeepsSettled (Quiet D S p.name) (Write D) (IsShown D S p)
    IsShown-KeepsSettled = record {
      settled_after = λ q h. Quiet-IsShown D S p q h;
      settled_unwritten = λ h x. shown_is_not_written h x;
    }

    -- Let Central's first cluster of the resource's name read back as the resource's parameters. Take
    -- any sequence of Observes, which may fail, of Creates and Updates that fail and leave that
    -- cluster the first of its name as it is, of Creates and Updates that succeed, each right after an
    -- Observe that asks for it, of reads of the resource with the same parameters, and of changes by
    -- others that leave that cluster the first of its name as it is. Then none of the Creates and
    -- Updates in the sequence succeeds, and at its end the cluster still reads back as the parameters.
    pub Run-IsSettled :
        {s t : Config D} {l : List Call}
        → IsSettled D S p s
        → Run (Quiet D S p.name) (Write D) s l t
        → (l ≡ []) × IsSettled D S p t
    Run-IsSettled h r = run_settled cluster-KeepsSettled h r

    Write-needed :
        {c : Call} {s t : Config D}
        → parameters D s.0 ≡ some p
        → Write D c s t
        → c ≡ needed D S p.name s
    Write-needed asks (make conn mg w fine gone sent) =
        rw (absent_asked conn mg w asks fine gone) refl
    Write-needed asks (change conn mg w fine here drifts sent) =
        let (c, f) = present_asked conn mg w asks fine here in rw f refl

    module _ (N : DeclaresNames D) (K : KeepsConfigured D S p) (a : IsAdmitted p) where
      Write-IsShown :
          {c : Call} {s t : Config D} → parameters D s.0 ≡ some p → Write D c s t → IsShown D S p t
      Write-IsShown asks (make conn mg w fine gone sent) =
          create_asked D E L S N p K a conn (observe D conn mg w).managed
            (observe D conn mg w).world (parameters-observe D conn mg w ∙ asks)
            (ap (find_name D.get_name p.name) (stored-observe D S conn mg w)
              ∙ absent_asked conn mg w asks fine gone)
            sent
      Write-IsShown asks (change conn mg w fine here drifts sent) =
          let (c, f) = present_asked conn mg w asks fine here in
          update_asked D E L S N p K a conn (observe D conn mg w).managed
            (observe D conn mg w).world c (parameters-observe D conn mg w ∙ asks)
            (ap (find_name D.get_name p.name) (stored-observe D S conn mg w) ∙ f) sent

      cluster-WritesOnce :
          WritesOnce
            (Quiet D S p.name)
            (Write D)
            (λ s. parameters D s.0 ≡ some p)
            (IsShown D S p)
            (needed D S p.name)
      cluster-WritesOnce = record {
        keeps = IsShown-KeepsSettled;
        needs_after = λ q. ap call_for (found_after D S p q);
        write_needed = λ h x. Write-needed h x;
        asks_after = λ q h. asks_after D S p q ∙ h;
        settled_asks = λ h. h.asks;
        write_settles = λ h x. Write-IsShown h x;
      }

      -- Let the enumerators of the resource's parameters be admitted, and let Central keep, nil
      -- and empty labels counting as one, the twelve fields that a resource configures in every
      -- cluster that is sent for these parameters; it may rewrite all else, but not the identifier
      -- of a cluster that is put. Take any sequence of Observes, which may fail, of Creates and
      -- Updates that fail and leave the first cluster of the resource's name as it is, of Creates
      -- and Updates that succeed, each right after an Observe that asks for it, of reads of the
      -- resource with the same parameters, and of changes by others that leave the first cluster
      -- of the name as it is. Then no Create and no Update in the sequence succeeds; or exactly
      -- one call does, a Create if Central stored no cluster of the name at the beginning and an
      -- Update if it did, and at the end the first cluster of the name in Central shows the
      -- parameters in all twelve fields.
      pub writes_at_most_once :
          {s t : Config D} {l : List Call}
          → parameters D s.0 ≡ some p
          → Run (Quiet D S p.name) (Write D) s l t
          → (l ≡ []) ⊎ ((l ≡ needed D S p.name s ∷ []) × IsShown D S p t)
      writes_at_most_once asks r = run_once cluster-WritesOnce asks r
