-- ===== src/InitBundle/Whole.antt =====
-- initbundle.go: whole reconciliations, from Connect to Disconnect, as runs.
use provider_stackrox.Base.{
  String, ◌≡◌, ◌≢◌, ◌⊎◌, refl, sym, ◌∙◌, ap, Option, none, some, List, [], ◌∷◌, ◌++◌,
}
use provider_stackrox.Base.Named.{find_name}
use provider_stackrox.Deps.{Deps}
use provider_stackrox.Deps.Errors.{IsErrors}
use provider_stackrox.Deps.Laws.{ServesInitBundles}
use provider_stackrox.Api.Parameters.{IsCmp}
use provider_stackrox.Runs.{Call, created, Run, start, quietly, writing}
use provider_stackrox.Connector.{
  Kubernetes, External, Attempt, done, failed, panicked, connect_init_bundle,
  disconnect_init_bundle,
}
use provider_stackrox.Connector.Sessions.{of_client, connect_conns, disconnect_conns}
use provider_stackrox.Connector.Tracking.{TracksConns, made}
use provider_stackrox.InitBundle.{observe}
use provider_stackrox.InitBundle.Runs.{
  BundleConfig, asked_name, Quiet, look, make_in_vain, read_again, elsewhere, Write, make, change,
}
use provider_stackrox.InitBundle.Once.{IsIssued, one_bundle_at_most}
use provider_stackrox.InitBundle.Passes.{
  IsApart, ClientCalls, looks, tries, makes, changes, Station, Turn, unconnected, connected, Turns,
  idle, then_pass, then_read,
}
use provider_stackrox.InitBundle.Connections.{
  bundles-connect, bundles-disconnect, SameConns, conns-observe, conns-create, conns-update,
}

module _ (D : Deps) (K : Kubernetes D) (E : IsErrors D.errors) (S : ServesInitBundles D)
    (T : TracksConns D K) (A : IsApart D K S T) (name : String) where
  -- The runs from a resource and a world.
  abbrev RunFrom : BundleConfig D → List Call → BundleConfig D → Type 0
  RunFrom = Run (Quiet D S name) (Write D)

  abbrev config : Station D → BundleConfig D
  config s = (s.managed, s.world)

  run_of_work :
      {conn : Option D.ClientConn} {r s t : BundleConfig D} {l l' : List Call}
      → RunFrom r l s
      → ClientCalls D S name conn s l' t
      → RunFrom r (l' ++ l) t
  run_of_work {conn = conn} r (looks mg w) = quietly r (look conn mg w)
  run_of_work {conn = conn} r (tries mg w e fine gone fails as_before) =
      let o = observe D conn mg w in
      quietly (quietly r (look conn mg w)) (make_in_vain conn o.managed o.world e fails as_before)
  run_of_work {conn = conn} r (makes mg w fine gone sent) =
      writing r (make conn mg w fine gone sent)
  run_of_work {conn = conn} r (changes mg w fine here drifts) =
      writing r (change conn mg w fine here drifts)

  conns-work :
      {conn : Option D.ClientConn} {s t : BundleConfig D} {l : List Call}
      → ClientCalls D S name conn s l t
      → SameConns D K S T A s.1 t.1
  conns-work {conn = conn} (looks mg w) = conns-observe D K S T A conn mg w
  conns-work {conn = conn} (tries mg w e fine gone fails as_before) =
      let o = observe D conn mg w in
      let (oo, oc) = conns-observe D K S T A conn mg w in
      let (co, cc') = conns-create D K S T A conn o.managed o.world in (co ∙ oo, cc' ∙ oc)
  conns-work {conn = conn} (makes mg w fine gone sent) =
      let o = observe D conn mg w in
      let (oo, oc) = conns-observe D K S T A conn mg w in
      let (co, cc') = conns-create D K S T A conn o.managed o.world in (co ∙ oo, cc' ∙ oc)
  conns-work {conn = conn} (changes mg w fine here drifts) =
      let o = observe D conn mg w in
      let (oo, oc) = conns-observe D K S T A conn mg w in
      let (uo, uc) = conns-update D K S T A conn o.managed o.world in (uo ∙ oo, uc ∙ oc)

  -- A reconciliation is a run of its external client's calls.
  run_of_pass :
      {r : BundleConfig D} {s t : Station D} {l l' : List Call}
      → RunFrom r l (config s)
      → Turn D K S T name s l' t
      → RunFrom r (l' ++ l) (config t)
  run_of_pass r (unconnected c mg w fails) = quietly r (
      elsewhere mg w (connect_init_bundle D K c mg w).2
        (ap (find_name D.bundle_name name) (bundles-connect D K S T A c mg w)))
  run_of_pass r (connected c mg mg' w w1 w2 w3 e l ok before work after) =
      let c' = (connect_init_bundle D K c mg w).1 in
      let at_work = quietly r (
        elsewhere mg w w1
          (before.found ∙ ap (find_name D.bundle_name name) (bundles-connect D K S T A c mg w))) in
      quietly (run_of_work at_work work) (
        elsewhere mg' w2 (disconnect_init_bundle D c' w3).1
          (ap (find_name D.bundle_name name) (bundles-disconnect D K S T A c' w3) ∙ after.found))

  of_no_client :
      (a : Attempt D (External D)) (l : List D.ClientConn)
      → ((e : External D) → a ≢ done e)
      → of_client D K E T a l ≡ l
  of_no_client (done e) l fails = absurd (fails e refl)
  of_no_client (failed err) l fails = refl
  of_no_client panicked l fails = refl

  -- A reconciliation closes the connection that it has made.
  pass_closes :
      {s t : Station D} {l : List Call}
      → Turn D K S T name s l t
      → T.opened s.world ≡ T.closed s.world
      → T.opened t.world ≡ T.closed t.world
  pass_closes (unconnected c mg w fails) even =
      let (o, l, h) = connect_conns D K E T c mg w in
      o ∙ of_no_client (connect_init_bundle D K c mg w).0 (T.opened w) fails ∙ even ∙ sym l
  pass_closes (connected c mg mg' w w1 w2 w3 e l ok before work after) even =
      let r = connect_init_bundle D K c mg w in
      let (o, still, h) = connect_conns D K E T c mg w in
      let (oo, oc) = conns-work work in
      let holds : r.1.external ≡ some e = ap (λ k. k.external) (rw ok at h) in
      let (d_opened, d_closed) = disconnect_conns D K E T r.1 e w3 holds in
      d_opened
      ∙ after.opened
      ∙ oo
      ∙ before.opened
      ∙ (rw ok at o)
      ∙ ap (made e.client none) (even ∙ sym still ∙ sym before.closed ∙ sym oc ∙ sym after.closed)
      ∙ sym d_closed

  run_of_passes :
      {s t : Station D} {l : List Call} → Turns D K S T name s l t → RunFrom (config s) l (config t)
  run_of_passes idle = start
  run_of_passes (then_pass before x) = run_of_pass (run_of_passes before) x
  run_of_passes (then_read c mg mg' w w' before same aside) =
      quietly (quietly (run_of_passes before) (read_again mg mg' w same))
        (elsewhere mg' w w' aside.found)

  passes_close :
      {s t : Station D} {l : List Call}
      → Turns D K S T name s l t
      → T.opened s.world ≡ T.closed s.world
      → T.opened t.world ≡ T.closed t.world
  passes_close idle even = even
  passes_close (then_pass before x) even = pass_closes x (passes_close before even)
  passes_close (then_read c mg mg' w w' before same aside) even =
      aside.opened ∙ passes_close before even ∙ sym aside.closed

  -- Take any number of whole reconciliations of one worker, one after another. In each, Connect
  -- fails, and it ends; or Connect succeeds and the calls of its external client follow: an Observe,
  -- which may fail, and then at most one call: a Create after an Observe that reports no resource,
  -- which succeeds, or fails and leaves the first bundle of the resource's name as it is, or an
  -- Update after an Observe that reports a difference; and at the end Disconnect. Between
  -- reconciliations the resource may be read again with the same name, and at any time others may
  -- change what is neither the first bundle of the name nor a connection. Let every connection that
  -- was made have been closed before, in that order. Then so it is at the end; and no Update was
  -- called and no Create has succeeded, or exactly one Create has, and Central has a bundle of the
  -- name.
  pub passes_issue_and_close :
      IsCmp D.cmp
      → {s t : Station D} {l : List Call} → asked_name D s.managed ≡ some name
      → T.opened s.world ≡ T.closed s.world
      → Turns D K S T name s l t
      → (T.opened t.world ≡ T.closed t.world)
        × ((l ≡ []) ⊎ ((l ≡ created ∷ []) × IsIssued D S name (t.managed, t.world)))
  passes_issue_and_close C asks even x =
      (passes_close x even, one_bundle_at_most D E C S name asks (run_of_passes x))
