-- ===== src/Setup/Registered.antt =====
-- apis/stackrox.go and the init functions of the types, for the controllers: the scheme of the
-- manager knows the types under the kinds that the controllers ask it for.
use mathlib.Core.List.{Memᴰ}
use mathlib.Core.List.Memᴰ.{head, tail}
use provider_stackrox.Base.{
  ◌≡◌, refl, ◌∙◌, ap, inl, inr, Option, Bool-cases, none, List, [], ◌∷◌, arith,
}
use provider_stackrox.Deps.{Deps}
use provider_stackrox.Deps.Scheme.{
  GroupVersion, GroupVersionKind, SchemeLib, IsSchemeLib, with_kind,
}
use provider_stackrox.Deps.Manager.{ManagerLib}
use provider_stackrox.Api.Kinds.{
  ApiType, type_name, provider_config_type, provider_config_list_type, provider_config_usage_type,
  provider_config_usage_list_type, store_config_type, store_config_list_type, cluster_type,
  cluster_list_type, init_bundle_type, init_bundle_list_type, stackrox_version, cluster_version,
  init_bundle_version, stackrox_builder, cluster_builder, init_bundle_builder, init_provider_config,
  init_provider_config_usage, init_store_config, init_cluster, init_init_bundle, init_stackrox,
  add_to_scheme,
}
use provider_stackrox.Setup.{
  external_secret_stores, Options, Reconciler, provider_config_reconciler, managed_reconciler,
  Publisher, api_secret_publisher, details_manager, publishers, config_controller,
  cluster_controller, init_bundle_controller,
}

module _ {World Error : Type 0} {S : SchemeLib World Error ApiType}
    (I : IsSchemeLib S type_name) where
  -- The builders as the init functions have left them.
  stackrox_builder_types :
      I.registered (stackrox_builder S)
      ≡ provider_config_type ∷ provider_config_list_type ∷ provider_config_usage_type
        ∷ provider_config_usage_list_type ∷ store_config_type ∷ store_config_list_type ∷ []
  unfolding init_provider_config init_provider_config_usage init_store_config
  stackrox_builder_types =
      rw (I.registered-register, I.registered-register, I.registered-register, I.registered-builder)
        refl

  stackrox_builder_version : I.version_of (stackrox_builder S) ≡ stackrox_version
  unfolding init_provider_config init_provider_config_usage init_store_config
  stackrox_builder_version =
      rw (I.version_of-register, I.version_of-register, I.version_of-register, I.version_of-builder)
        refl

  cluster_builder_types : I.registered (cluster_builder S) ≡ cluster_type ∷ cluster_list_type ∷ []
  unfolding init_cluster
  cluster_builder_types = rw (I.registered-register, I.registered-builder) refl

  cluster_builder_version : I.version_of (cluster_builder S) ≡ cluster_version
  unfolding init_cluster
  cluster_builder_version = rw (I.version_of-register, I.version_of-builder) refl

  init_bundle_builder_types :
      I.registered (init_bundle_builder S) ≡ init_bundle_type ∷ init_bundle_list_type ∷ []
  unfolding init_init_bundle
  init_bundle_builder_types = rw (I.registered-register, I.registered-builder) refl

  init_bundle_builder_version : I.version_of (init_bundle_builder S) ≡ init_bundle_version
  unfolding init_init_bundle
  init_bundle_builder_version = rw (I.version_of-register, I.version_of-builder) refl

  -- A builder that adds its types without an error adds each under its name.
  knows_type :
      (b : S.Builder) (types : List ApiType) (gv : GroupVersion) (s : S.Scheme) (w : World)
      → I.registered b ≡ types
      → I.version_of b ≡ gv
      → (S.add_to_scheme b s w).0 ≡ none
      → (t : ApiType) → Memᴰ t types
      → I.Knows s (S.add_to_scheme b s w).1 t (with_kind gv (type_name t))
  knows_type b types gv s w ht hv ok t m = rw hv at (I.knows_added b s w ok t (rw ht m))

  -- A function that is applied without an error, before others.
  goes_on :
      (f : S.Scheme → World → Option Error × World)
      (rest : List (S.Scheme → World → Option Error × World)) (s : S.Scheme) (w : World)
      → (S.apply_all (f ∷ rest) s w).0 ≡ none
      → ((f s w).0 ≡ none) × (S.apply_all (f ∷ rest) s w ≡ S.apply_all rest s (f s w).1)
  goes_on f rest s w ok = ground (arith, I.apply_all_first f rest s w)

  module _ (s : S.Scheme) (w : World) where
    -- The worlds between the three builders.
    abbrev w1 : World
    w1 = (S.add_to_scheme (stackrox_builder S) s w).1

    abbrev w2 : World
    w2 = (S.add_to_scheme (cluster_builder S) s w1).1

    abbrev w3 : World
    w3 = (S.add_to_scheme (init_bundle_builder S) s w2).1

    all_three :
        (add_to_scheme S s w).0 ≡ none
        → ((S.add_to_scheme (stackrox_builder S) s w).0 ≡ none)
          × ((S.add_to_scheme (cluster_builder S) s w1).0 ≡ none)
          × ((S.add_to_scheme (init_bundle_builder S) s w2).0 ≡ none)
          × ((add_to_scheme S s w).1 ≡ w3)
    unfolding add_to_scheme init_stackrox
    all_three ok =
        let (ok1, rest1) = goes_on _ _ s w ok in
        let (ok2, rest2) = goes_on _ _ s w1 (rw rest1 at ok) in
        let (ok3, rest3) = goes_on _ _ s w2 (rw rest2 at (rw rest1 at ok)) in
        (ok1, ok2, ok3, ap (λ p. p.1) (rest1 ∙ rest2 ∙ rest3 ∙ I.apply_all_none s w3))

    -- The scheme after AddToScheme has returned without an error.
    knows_stackrox :
        (add_to_scheme S s w).0 ≡ none
        → (t : ApiType)
        → Memᴰ t (
            provider_config_type ∷ provider_config_list_type ∷ provider_config_usage_type
            ∷ provider_config_usage_list_type ∷ store_config_type ∷ store_config_list_type ∷ [])
        → I.Knows s (add_to_scheme S s w).1 t (with_kind stackrox_version (type_name t))
    knows_stackrox ok t m =
        let (ok1, ok2, ok3, end) = all_three ok in
        rw end (
          I.knows_still (init_bundle_builder S) s w2 t _ (
            I.knows_still (cluster_builder S) s w1 t _ (
              knows_type (stackrox_builder S) _ _ s w stackrox_builder_types
                stackrox_builder_version ok1 t m)))

    knows_cluster :
        (add_to_scheme S s w).0 ≡ none
        → (t : ApiType) → Memᴰ t (cluster_type ∷ cluster_list_type ∷ [])
        → I.Knows s (add_to_scheme S s w).1 t (with_kind cluster_version (type_name t))
    knows_cluster ok t m =
        let (ok1, ok2, ok3, end) = all_three ok in
        rw end (
          I.knows_still (init_bundle_builder S) s w2 t _ (
            knows_type (cluster_builder S) _ _ s w1 cluster_builder_types cluster_builder_version
              ok2 t m))

    knows_init_bundle :
        (add_to_scheme S s w).0 ≡ none
        → (t : ApiType) → Memᴰ t (init_bundle_type ∷ init_bundle_list_type ∷ [])
        → I.Knows s (add_to_scheme S s w).1 t (with_kind init_bundle_version (type_name t))
    knows_init_bundle ok t m =
        let (ok1, ok2, ok3, end) = all_three ok in
        rw end (
          knows_type (init_bundle_builder S) _ _ s w2 init_bundle_builder_types
            init_bundle_builder_version ok3 t m)

abbrev pub Each : {A : Type 0} → (A → Type 0) → List A → Type 0
Each P [] = Unit {0}
Each P (k ∷ rest) = P k × Each P rest

module _ (D : Deps) (L : ManagerLib D.World D.Error) where
  -- The kind that a controller's reconciler asks the scheme for.
  abbrev pub reconciles : Reconciler D L → GroupVersionKind
  reconciles (provider_config_reconciler config usage_list logger recorder) = config
  reconciles (managed_reconciler kind connecting logger recorder publishers) = kind

  -- The kinds of lists of usages that it asks for.
  abbrev pub usage_lists : Reconciler D L → List GroupVersionKind
  usage_lists (provider_config_reconciler config usage_list logger recorder) = usage_list ∷ []
  usage_lists (managed_reconciler kind connecting logger recorder publishers) = []

  -- The kinds of store configs that its publishers ask for.
  abbrev pub stores : List (Publisher D L) → List GroupVersionKind
  stores [] = []
  stores (api_secret_publisher c s ∷ rest) = stores rest
  stores (details_manager c kind ∷ rest) = kind ∷ stores rest

  -- Let AddToScheme return no error for the scheme of the manager. Then, for each of the three
  -- controllers, the scheme knows the type that the controller is for by the kind that its
  -- reconciler asks for; and it knows the lists of usages by the kind that the first one asks for,
  -- and StoreConfigs by the kind that the publishers of the other two ask for.
  pub kinds_registered :
      (I : IsSchemeLib L.schemes type_name) (mgr : L.Manager) (o : Options D L) (w : D.World)
      → (add_to_scheme L.schemes (L.get_scheme mgr) w).0 ≡ none
      → let know = I.Knows (L.get_scheme mgr) (add_to_scheme L.schemes (L.get_scheme mgr) w).1 in
        let configs = config_controller D L mgr o in
        let clusters = cluster_controller D L mgr o in
        let bundles = init_bundle_controller D L mgr o in
        Each (λ c. know c.for_type (reconciles c.reconciler)) (configs ∷ clusters ∷ bundles ∷ [])
        × Each (know provider_config_usage_list_type) (usage_lists configs.reconciler)
        × Each (know store_config_type) (stores (publishers D L mgr o))
  unfolding config_controller cluster_controller init_bundle_controller publishers
  kinds_registered I mgr o w ok =
      let s = L.get_scheme mgr in
      let of_stackrox = knows_stackrox I s w ok in
      (
        (
          of_stackrox provider_config_type (head refl),
          (
            knows_cluster I s w ok cluster_type (head refl),
            (knows_init_bundle I s w ok init_bundle_type (head refl), tt),
          ),
        ),
        (of_stackrox provider_config_usage_list_type (tail (tail (tail (head refl)))), tt),
        elim (Bool-cases (L.enabled o.features external_secret_stores)) [
          | inl on ↦
              rw on (of_stackrox store_config_type (tail (tail (tail (tail (head refl))))), tt)
          | inr off ↦ rw off tt
        ],
      )
