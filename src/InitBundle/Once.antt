-- ===== src/InitBundle/Once.antt =====
-- initbundle.go: a run generates one bundle at most.
use mathlib.Core.Option.{some-injective, none-ne-some}
use provider_stackrox.Base.{
  List, [], ◌∷◌, String, ◌≡◌, ◌≢◌, ◌⊎◌, refl, sym, ◌∙◌, ap, Option, none, some, true, false, inl,
  inr,
}
use provider_stackrox.Base.Named.{find_name, find_name-append}
use provider_stackrox.Deps.{Deps}
use provider_stackrox.Deps.Errors.{IsErrors}
use provider_stackrox.Deps.Laws.{ServesInitBundles}
use provider_stackrox.Api.InitBundle
use provider_stackrox.Api.InitBundle.{InitBundle}
use provider_stackrox.Api.Parameters.{IsCmp}
use provider_stackrox.Api.Managed.{Managed, init_bundle}
use provider_stackrox.InitBundle.{observe, create}
use provider_stackrox.InitBundle.Observe.{never_out_of_date}
use provider_stackrox.InitBundle.Lifecycle.{reply, create_bundle_outcome}
use provider_stackrox.InitBundle.Rounds.{spec-record_meta}
use provider_stackrox.InitBundle.Runs.{
  BundleConfig, asked_name, Quiet, look, make_in_vain, read_again, elsewhere, Write, make, change,
}
use provider_stackrox.Runs.{Call, created, updated, Run, WritesOnce, run_once}
use provider_stackrox.InitBundle.Success.{
  asked_name-observe, asked_name-create, bundles-observe, exists_iff_found,
}

module _ (D : Deps) (S : ServesInitBundles D) (name : String) where
  -- The resource asks for the name, and Central has a bundle of it.
  pub record IsIssued (s : BundleConfig D) : Type 0 where
    pub asks : asked_name D s.0 ≡ some name
    pub bundle : D.InitBundleMeta
    pub has : find_name D.bundle_name name (S.bundles s.1) ≡ some bundle

  pub name_after : {s t : BundleConfig D} → Quiet D S name s t → asked_name D t.0 ≡ asked_name D s.0
  name_after (look conn mg w) = asked_name-observe D conn mg w
  name_after (make_in_vain conn mg w e fails as_before) = asked_name-create D conn mg w
  name_after (read_again mg mg' w h) = h
  name_after (elsewhere mg w w' h) = refl

  bundle_after :
      {s t : BundleConfig D}
      → Quiet D S name s t
      → find_name D.bundle_name name (S.bundles t.1) ≡ find_name D.bundle_name name (S.bundles s.1)
  bundle_after (look conn mg w) = ap (find_name D.bundle_name name) (bundles-observe D S conn mg w)
  bundle_after (make_in_vain conn mg w e fails as_before) = as_before
  bundle_after (read_again mg mg' w h) = refl
  bundle_after (elsewhere mg w w' h) = h

  Quiet-IsIssued : {s t : BundleConfig D} → Quiet D S name s t → IsIssued s → IsIssued t
  Quiet-IsIssued q h = record {
    asks = name_after q ∙ h.asks;
    bundle = h.bundle;
    has = bundle_after q ∙ h.has;
  }

module _ (D : Deps) (E : IsErrors D.errors) (C : IsCmp D.cmp) (S : ServesInitBundles D) where
  generated :
      (conn : Option D.ClientConn) (cr : InitBundle D) (w : D.World)
      → find_name D.bundle_name cr.spec.for_provider.name (S.bundles w) ≡ none
      → (create D conn (init_bundle cr) w).error ≡ none
      → let c = create D conn (init_bundle cr) w in
        IsIssued D S cr.spec.for_provider.name (c.managed, c.world)
  unfolding InitBundle.set_conditions
  generated conn cr w f fine = elim (create_bundle_outcome D E conn cr w) [
    | inl (ok, at) ↦
        let name = cr.spec.for_provider.name in
        rw at (record {
          asks =
              ap (λ x. some x.for_provider.name)
                (spec-record_meta D C S (InitBundle.set_conditions D cr (D.creating w))
                  (reply D conn cr w).0);
          bundle = S.generated conn name w;
          has = rw (S.bundles-generate_init_bundle conn name w ok) (
              find_name-append D.bundle_name name (S.bundles w) (S.generated conn name w) f
                (S.bundle_name-generated conn name w));
        })
    | inr (e, bad, at) ↦ absurd (none-ne-some _ (sym fine ∙ ap (λ r. r.error) at))
  ]

  module _ (name : String) where
    observed_absent :
        (conn : Option D.ClientConn) (mg : Managed D) (w : D.World)
        → asked_name D mg ≡ some name
        → (observe D conn mg w).error ≡ none
        → (observe D conn mg w).value.resource_exists ≡ false
        → find_name D.bundle_name name (S.bundles w) ≡ none
    observed_absent conn (init_bundle cr) w asks fine gone =
        elim (exists_iff_found D E C S conn cr w fine) [
          | inl (f, absent) ↦ rw (sym (some-injective _ _ asks)) f
          | inr (b, f, here) ↦ cc (here, gone)
        ]
    observed_absent conn _ w asks fine gone = absurd (none-ne-some name asks)

    create_issues :
        (conn : Option D.ClientConn) (mg : Managed D) (w : D.World)
        → asked_name D mg ≡ some name
        → find_name D.bundle_name name (S.bundles w) ≡ none
        → (create D conn mg w).error ≡ none
        → IsIssued D S name ((create D conn mg w).managed, (create D conn mg w).world)
    create_issues conn (init_bundle cr) w asks f fine =
        let own = some-injective _ _ asks in rw (sym own) (generated conn cr w (rw own f) fine)
    create_issues conn _ w asks f fine = absurd (none-ne-some name asks)

    -- No Update is asked for, ever.
    change_never :
        (conn : Option D.ClientConn) (mg : Managed D) (w : D.World)
        → (observe D conn mg w).value.resource_exists ≡ true
        → (observe D conn mg w).value.resource_up_to_date ≢ false
    change_never conn mg w here = λ drifts. cc ((never_out_of_date D E C conn mg w).0, here, drifts)

    nothing_is_updated : {s t : BundleConfig D} → ¬ Write D updated s t
    nothing_is_updated (change conn mg w fine here drifts) = change_never conn mg w here drifts

    Write-IsIssued :
        {c : Call} {s t : BundleConfig D}
        → asked_name D s.0 ≡ some name
        → Write D c s t
        → IsIssued D S name t
    Write-IsIssued asks (make conn mg w fine gone sent) =
        create_issues conn (observe D conn mg w).managed (observe D conn mg w).world
          (asked_name-observe D conn mg w ∙ asks)
          (ap (find_name D.bundle_name name) (bundles-observe D S conn mg w)
            ∙ observed_absent conn mg w asks fine gone)
          sent
    Write-IsIssued asks (change conn mg w fine here drifts) =
        absurd (change_never conn mg w here drifts)

    issued_is_not_written :
        {c : Call} {s t : BundleConfig D} → IsIssued D S name s → ¬ Write D c s t
    issued_is_not_written h (make conn mg w fine gone sent) =
        none-ne-some _ (sym (observed_absent conn mg w h.asks fine gone) ∙ h.has)
    issued_is_not_written h (change conn mg w fine here drifts) = change_never conn mg w here drifts

    created_only : {s t : BundleConfig D} (c : Call) → Write D c s t → c ≡ created
    created_only created x = refl
    created_only updated x = absurd (nothing_is_updated x)

    bundle-WritesOnce :
        WritesOnce
          (Quiet D S name)
          (Write D)
          (λ s. asked_name D s.0 ≡ some name)
          (IsIssued D S name)
          (λ s. created)
    bundle-WritesOnce = record {
      keeps = record {
        settled_after = λ q h. Quiet-IsIssued D S name q h;
        settled_unwritten = λ h x. issued_is_not_written h x;
      };
      asks_after = λ q h. name_after D S name q ∙ h;
      settled_asks = λ h. h.asks;
      needs_after = λ q. refl;
      write_needed = λ h x. created_only _ x;
      write_settles = λ h x. Write-IsIssued h x;
    }

    -- Take any sequence of Observes, which may fail, of Creates that fail and leave the first bundle
    -- of the resource's name as it is, of Creates that succeed, each right after an Observe that
    -- reports no resource, of Updates, each right after an Observe that reports a difference, of
    -- reads of the resource with the same name, and of changes by others that leave the first bundle
    -- of the name as it is. Then there is no Update in the sequence, and no Create that succeeds or
    -- exactly one; and if there is one, Central has at the end a bundle of the name.
    pub one_bundle_at_most :
        {s t : BundleConfig D} {l : List Call}
        → asked_name D s.0 ≡ some name
        → Run (Quiet D S name) (Write D) s l t
        → (l ≡ []) ⊎ ((l ≡ created ∷ []) × IsIssued D S name t)
    one_bundle_at_most asks r = run_once bundle-WritesOnce asks r
