-- ===== src/Accessors/ConfigLaws.antt =====
-- The accessors of a ProviderConfig, a ProviderConfigUsage and a StoreConfig do not disturb one another.
use provider_stackrox.Base.{ℤ, List, ◌≡◌, refl, ◌∙◌}
use provider_stackrox.Memory.Foreign.{MemTypes}
use provider_stackrox.Memory.Config.{ProviderConfig, ProviderConfigUsage, StoreConfig}
use provider_stackrox.Accessors.Config.{
  ConfigLib, IsConfigLib, get_users, set_users, get_config_condition, set_config_conditions,
  get_usage_provider_config_reference, get_usage_resource_reference,
  set_usage_provider_config_reference, set_usage_resource_reference, get_store_config,
  get_store_condition, set_store_conditions,
}

module _ (T : MemTypes) (C : ConfigLib T) (L : IsConfigLib T C) where
  -- SetUsers and SetConditions of a ProviderConfig, in either order.
  pub users_apart :
      (p : ProviderConfig T) (n : ℤ) (c : List C.Condition) (t : C.ConditionType)
      → (get_users T C (set_config_conditions T C (set_users T C p n) c) ≡ n)
        × (get_config_condition T C (set_users T C (set_config_conditions T C p c) n) t
            ≡ get_config_condition T C (set_config_conditions T C p c) t)
        × ((set_config_conditions T C (set_users T C p n) c).spec ≡ p.spec)
  unfolding get_users set_users get_config_condition set_config_conditions
  users_apart p n c t =
      let s = p.status.provider_config_status in
      (
        L.users_kept (C.set_status_users s n) c ∙ L.users-set s n,
        L.conditions_kept (C.set_status_conditions s c) n t,
        refl,
      )

  -- The two setters of a ProviderConfigUsage.
  pub references_apart :
      (u : ProviderConfigUsage T) (r : C.Reference) (q : C.TypedReference)
      → let u' = set_usage_resource_reference T C (set_usage_provider_config_reference T C u r) q in
        (get_usage_provider_config_reference T C u' ≡ r)
        × (get_usage_resource_reference T C u' ≡ q)
        × (u'.object_meta ≡ u.object_meta)
  unfolding get_usage_provider_config_reference get_usage_resource_reference
      set_usage_provider_config_reference set_usage_resource_reference
  references_apart u r q =
      let x = C.set_usage_provider_config_reference u.provider_config_usage r in
      (
        L.provider_config_reference_kept x q
            ∙ L.provider_config_reference-set u.provider_config_usage r,
        L.resource_reference-set x q,
        refl,
      )

  -- SetConditions of a StoreConfig leaves its configuration.
  pub store_conditions_apart :
      (s : StoreConfig T) (c : List C.Condition) (t : C.ConditionType)
      → let s' = set_store_conditions T C s c in
        (get_store_config T C s' ≡ get_store_config T C s)
        × (get_store_condition T C s' t
            ≡ C.store_condition (C.set_store_conditions s.status.conditioned_status c) t)
  unfolding get_store_config get_store_condition set_store_conditions
  store_conditions_apart s c t = (refl, refl)
