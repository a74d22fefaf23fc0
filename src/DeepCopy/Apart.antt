-- ===== src/DeepCopy/Apart.antt =====
-- DeepCopyObject makes a deep copy, and a copy and its source change apart from each other.
use provider_stackrox.Base.{some, List, ◌≡◌, refl, ap}
use provider_stackrox.Memory.Apart.{write_each, WritesOld, WritesNew, source_kept, copy_kept}
use provider_stackrox.DeepCopy.Kinds.{
  object_view, object_refs, object_layout, object_layout-IsLocal, cluster_value, cluster_list_value,
  init_bundle_value, init_bundle_list_value, provider_config_value, provider_config_list_value,
  provider_config_usage_value, provider_config_usage_list_value, store_config_value,
  store_config_list_value,
}
use provider_stackrox.Memory.Heap.{Heap, Addr, InUse}
use provider_stackrox.Memory.Layout.{Layout, Copied}
use provider_stackrox.Memory.Foreign.{MemTypes}
use provider_stackrox.Memory.Cell.{Cell}
use provider_stackrox.Memory.Libraries.{MemLib, IsMemLib}
use provider_stackrox.DeepCopy.{as_object, copy_pointer}
use provider_stackrox.DeepCopy.Cluster.{deep_copy_cluster, deep_copy_cluster_list}
use provider_stackrox.DeepCopy.InitBundle.{deep_copy_init_bundle, deep_copy_init_bundle_list}
use provider_stackrox.DeepCopy.Config.{
  deep_copy_provider_config, deep_copy_provider_config_list, deep_copy_provider_config_usage,
  deep_copy_provider_config_usage_list, deep_copy_store_config, deep_copy_store_config_list,
}
use provider_stackrox.DeepCopy.ClusterLaws.{cluster_copier-IsDeep, cluster_list_copier-IsDeep}
use provider_stackrox.DeepCopy.InitBundleLaws.{
  init_bundle_copier-IsDeep, init_bundle_list_copier-IsDeep,
}
use provider_stackrox.DeepCopy.ProviderConfigLaws.{
  provider_config_copier-IsDeep, provider_config_list_copier-IsDeep,
  provider_config_usage_copier-IsDeep, provider_config_usage_list_copier-IsDeep,
}
use provider_stackrox.DeepCopy.StoreConfigLaws.{
  store_config_copier-IsDeep, store_config_list_copier-IsDeep,
}
use provider_stackrox.DeepCopy.Object.{
  Object, deep_copy_object, cluster, cluster_list, init_bundle, init_bundle_list, provider_config,
  provider_config_list, provider_config_usage, provider_config_usage_list, store_config,
  store_config_list, deep_copy_object_cluster, deep_copy_object_cluster_list,
  deep_copy_object_init_bundle, deep_copy_object_init_bundle_list, deep_copy_object_provider_config,
  deep_copy_object_provider_config_list, deep_copy_object_provider_config_usage,
  deep_copy_object_provider_config_usage_list, deep_copy_object_store_config,
  deep_copy_object_store_config_list,
}

in_object :
    {C A B V W : Type 0} {l : Layout C A V} {m : Layout C B W} (f : A → B) (g : V → W)
    {h h' : Heap C} {x x' : A}
    → ((y : A) (k : Heap C) → m.view (f y) k ≡ g (l.view y k))
    → ((y : A) (k : Heap C) → m.refs (f y) k ≡ l.refs y k)
    → Copied l h x h' x'
    → Copied m h (f x) h' (f x')
in_object f g {h} {h'} {x} {x'} views refs c = record {
  same = rw (views x' h') (rw (views x h) (ap g c.same));
  new = rw (refs x' h') c.new;
  in_use = rw (refs x' h') c.in_use;
  extends = c.extends;
}

module _ {T : MemTypes} (L : MemLib T) (W : IsMemLib L) where
  -- DeepCopyObject of each of the ten kinds of object, lists included, on an object that is not nil
  -- and whose addresses are in use: it returns an object and not nil; the object reads as the
  -- source, maps and slices followed; each address in it is new, in use afterwards and so none of
  -- the source's; and no cell that was in memory has changed. The condition is that the deep copies
  -- of the libraries' types make deep copies.
  pub deep_copy_object-Copied :
      (o : Object T) (h : Heap (Cell T))
      → InUse h (object_refs L o h)
      → (c : Object T) × ((deep_copy_object L o h).0 ≡ some c)
        × Copied (object_layout L) h o (deep_copy_object L o h).1 c
  unfolding object_view object_refs deep_copy_object as_object copy_pointer deep_copy_object_cluster
      deep_copy_cluster deep_copy_object_cluster_list deep_copy_cluster_list
      deep_copy_object_init_bundle deep_copy_init_bundle deep_copy_object_init_bundle_list
      deep_copy_init_bundle_list deep_copy_object_provider_config deep_copy_provider_config
      deep_copy_object_provider_config_list deep_copy_provider_config_list
      deep_copy_object_provider_config_usage deep_copy_provider_config_usage
      deep_copy_object_provider_config_usage_list deep_copy_provider_config_usage_list
      deep_copy_object_store_config deep_copy_store_config deep_copy_object_store_config_list
      deep_copy_store_config_list
  deep_copy_object-Copied (cluster x) h used = (
    _,
    refl,
    in_object cluster cluster_value (λ y k. refl) (λ y k. refl)
        ((cluster_copier-IsDeep L W).copies_deep x h used),
  )
  deep_copy_object-Copied (cluster_list x) h used = (
    _,
    refl,
    in_object cluster_list cluster_list_value (λ y k. refl) (λ y k. refl)
        ((cluster_list_copier-IsDeep L W).copies_deep x h used),
  )
  deep_copy_object-Copied (init_bundle x) h used = (
    _,
    refl,
    in_object init_bundle init_bundle_value (λ y k. refl) (λ y k. refl)
        ((init_bundle_copier-IsDeep L W).copies_deep x h used),
  )
  deep_copy_object-Copied (init_bundle_list x) h used = (
    _,
    refl,
    in_object init_bundle_list init_bundle_list_value (λ y k. refl) (λ y k. refl)
        ((init_bundle_list_copier-IsDeep L W).copies_deep x h used),
  )
  deep_copy_object-Copied (provider_config x) h used = (
    _,
    refl,
    in_object provider_config provider_config_value (λ y k. refl) (λ y k. refl)
        ((provider_config_copier-IsDeep L W).copies_deep x h used),
  )
  deep_copy_object-Copied (provider_config_list x) h used = (
    _,
    refl,
    in_object provider_config_list provider_config_list_value (λ y k. refl) (λ y k. refl)
        ((provider_config_list_copier-IsDeep L W).copies_deep x h used),
  )
  deep_copy_object-Copied (provider_config_usage x) h used = (
    _,
    refl,
    in_object provider_config_usage provider_config_usage_value (λ y k. refl) (λ y k. refl)
        ((provider_config_usage_copier-IsDeep L W).copies_deep x h used),
  )
  deep_copy_object-Copied (provider_config_usage_list x) h used = (
    _,
    refl,
    in_object provider_config_usage_list provider_config_usage_list_value (λ y k. refl)
        (λ y k. refl) ((provider_config_usage_list_copier-IsDeep L W).copies_deep x h used),
  )
  deep_copy_object-Copied (store_config x) h used = (
    _,
    refl,
    in_object store_config store_config_value (λ y k. refl) (λ y k. refl)
        ((store_config_copier-IsDeep L W).copies_deep x h used),
  )
  deep_copy_object-Copied (store_config_list x) h used = (
    _,
    refl,
    in_object store_config_list store_config_list_value (λ y k. refl) (λ y k. refl)
        ((store_config_list_copier-IsDeep L W).copies_deep x h used),
  )

  -- What is written afterwards, for an object whose addresses are in use: DeepCopyObject returns an
  -- object, not nil; any number of writes at addresses that were not in use before the copy, all those
  -- of the copy among them, leave what the source reads as; and any number of writes at addresses that
  -- were in use, all those of the source among them, leave what the copy reads as. The condition is
  -- that the deep copies of the libraries' types make deep copies.
  pub deep_copy_object_apart :
      (o : Object T) (h : Heap (Cell T)) (to_copy to_source : List (Addr × Cell T))
      → InUse h (object_refs L o h)
      → WritesNew h to_copy
      → WritesOld h to_source
      → let (r, h') = deep_copy_object L o h in
        (c : Object T) × (r ≡ some c)
        × (object_view L o (write_each to_copy h') ≡ object_view L o h)
        × (object_view L c (write_each to_source h') ≡ object_view L o h)
  deep_copy_object_apart o h to_copy to_source used new old =
      let (c, made, copied) = deep_copy_object-Copied o h used in
      let h' = (deep_copy_object L o h).1 in
      let local = object_layout-IsLocal L W in
      (
        c,
        made,
        source_kept (object_layout L) local h h' o c used copied to_copy new,
        copy_kept (object_layout L) local h h' o c copied to_source old,
      )
