-- ===== src/Examples/Copies.antt =====
-- A cluster list in a small memory, with library types that are maps of strings.
use provider_stackrox.Base.{
  zero, suc, String, Option, none, some, List, [], ◌∷◌, ◌≡◌, refl, true, false, arith,
}
use provider_stackrox.Memory.Heap.{Heap, Addr, InUse, alloc}
use provider_stackrox.Memory.Layout.{Copied}
use provider_stackrox.Memory.Apart.{write_each}
use provider_stackrox.Memory.Copier.{
  Copier, IsDeep, pointer, pointer-IsDeep, strings_copier, strings_copier-IsDeep,
}
use provider_stackrox.Memory.Foreign.{MemTypes}
use provider_stackrox.Memory.Cell.{
  Cell, string_map, cluster_array, strings_slot, strings_slot-IsSlot, clusters_slot,
  init_bundles_slot, provider_config_usages_slot,
}
use provider_stackrox.Memory.Items.{PointsToItems}
use provider_stackrox.Accessors.Items.{
  cluster_items, init_bundle_items, provider_config_usage_items,
}
use provider_stackrox.Accessors.Pointers.{items-PointsToItems}
use provider_stackrox.Memory.Cluster.{Cluster, ClusterList}
use provider_stackrox.Memory.InitBundle.{InitBundleList}
use provider_stackrox.Memory.Config.{ProviderConfigUsageList}
use provider_stackrox.Memory.Libraries.{MemLib, IsMemLib}
use provider_stackrox.Memory.Cells.{copy_behind}
use provider_stackrox.DeepCopy.{as_object, copy_pointer}
use provider_stackrox.DeepCopy.Cluster.{copy_cluster_list, deep_copy_cluster_list}
use provider_stackrox.DeepCopy.Object.{Object, deep_copy_object, cluster_list}
use provider_stackrox.DeepCopy.Kinds.{object_layout, object_refs, object_view}
use provider_stackrox.DeepCopy.Apart.{deep_copy_object-Copied, deep_copy_object_apart}

abbrev maps : MemTypes
maps = record {
  TypeMeta = String;
  CredentialsSource = String;
  ObjectMeta = Option Addr;
  ListMeta = Option Addr;
  Time = Option Addr;
  ResourceSpec = Option Addr;
  ResourceStatus = Option Addr;
  CommonCredentialSelectors = Option Addr;
  UsersStatus = Option Addr;
  Usage = Option Addr;
  SecretStoreConfig = Option Addr;
  ConditionedStatus = Option Addr;
  Content = String;
  Value = Option (String → Option String);
}

abbrev map_copier : Copier (Cell maps) (Option Addr) (Option (String → Option String))
map_copier = pointer strings_slot [] strings_copier

map_copier-IsDeep : IsDeep map_copier
map_copier-IsDeep = pointer-IsDeep strings_slot [] (strings_slot-IsSlot maps) strings_copier-IsDeep

abbrev map_lib : MemLib maps
map_lib = record {
  object_meta = map_copier;
  list_meta = map_copier;
  time = map_copier;
  resource_spec = map_copier;
  resource_status = map_copier;
  common_credential_selectors = map_copier;
  users_status = map_copier;
  usage = map_copier;
  secret_store_config = map_copier;
  conditioned_status = map_copier;
}

map_lib-IsMemLib : IsMemLib map_lib
map_lib-IsMemLib = record {
  object_meta-IsDeep = map_copier-IsDeep;
  list_meta-IsDeep = map_copier-IsDeep;
  time-IsDeep = map_copier-IsDeep;
  resource_spec-IsDeep = map_copier-IsDeep;
  resource_status-IsDeep = map_copier-IsDeep;
  common_credential_selectors-IsDeep = map_copier-IsDeep;
  users_status-IsDeep = map_copier-IsDeep;
  usage-IsDeep = map_copier-IsDeep;
  secret_store_config-IsDeep = map_copier-IsDeep;
  conditioned_status-IsDeep = map_copier-IsDeep;
}

-- A cluster with annotations at address 1 and labels at address 2, in the array at address 0.
abbrev cluster_in_memory : Cluster maps
cluster_in_memory = record {
  type_meta = "Cluster";
  object_meta = some 1;
  spec = record {
    resource_spec = none;
    for_provider = record {
      admission_controller = true;
      admission_controller_events = false;
      admission_controller_updates = false;
      central_api_endpoint = "central:443";
      collection_method = "EBPF";
      collector_image = "collector";
      labels = some 2;
      main_image = "main";
      name = "north";
      slim_collector = false;
      tolerations = false;
      type = "KUBERNETES_CLUSTER";
    };
  };
  status = record {
    resource_status = none;
    at_provider = record {
      admission_controller = true;
      admission_controller_events = false;
      admission_controller_updates = false;
      central_api_endpoint = "central:443";
      collection_method = "EBPF";
      collector_image = "collector";
      id = "1";
      init_bundle_id = "";
      labels = some 2;
      main_image = "main";
      managed_by = "";
      most_recent_sensor = record {
        app_namespace = "";
        app_namespace_id = "";
        app_service_account_id = "";
        default_namespace_id = "";
        k8s_node_name = "";
        system_namespace_id = "";
      };
      name = "north";
      slim_collector = false;
      tolerations = false;
      type = "KUBERNETES_CLUSTER";
    };
  };
}

at : List (Cell maps) → Addr → Option (Cell maps)
at [] a = none
at (c ∷ rest) zero = some c
at (c ∷ rest) (suc a) = at rest a

abbrev renamed : Cluster maps
renamed = record cluster_in_memory { type_meta = "Other" }

small_cells : Addr → Option (Cell maps)
unfolding at
small_cells = at (
    cluster_array (cluster_in_memory ∷ [])
    ∷ string_map (("external-name", "1") ∷ [])
    ∷ string_map (("env", "prod") ∷ [])
    ∷ [])

abbrev small : Heap (Cell maps)
small = record { next = 3; cell = small_cells }

abbrev one_listed : ClusterList maps
one_listed = record { type_meta = "ClusterList"; list_meta = none; items = some 0 }

abbrev listed : Object maps
listed = cluster_list one_listed

listed-InUse : InUse small (object_refs map_lib listed small)
unfolding object_refs small_cells
listed-InUse = (omega arith, (omega arith, (omega arith, (omega arith, tt))))

-- The new array is at the first free address.
copied_list :
    (deep_copy_object map_lib listed small).0
    ≡ some (cluster_list (record { type_meta = "ClusterList"; list_meta = none; items = some 3 }))
unfolding deep_copy_object as_object deep_copy_cluster_list copy_pointer copy_cluster_list
    copy_behind alloc
copied_list = refl

deep_copy_object-Copied_example :
    (c : Object maps) × ((deep_copy_object map_lib listed small).0 ≡ some c)
    × Copied (object_layout map_lib) small listed (deep_copy_object map_lib listed small).1 c
deep_copy_object-Copied_example =
    deep_copy_object-Copied map_lib map_lib-IsMemLib listed small listed-InUse

deep_copy_object_apart_example :
    let (r, h') = deep_copy_object map_lib listed small in
    (c : Object maps) × (r ≡ some c)
    × (object_view map_lib listed (write_each ((5, string_map (("env", "test") ∷ [])) ∷ []) h')
        ≡ object_view map_lib listed small)
    × (object_view map_lib c (write_each ((2, string_map []) ∷ (0, cluster_array []) ∷ []) h')
        ≡ object_view map_lib listed small)
deep_copy_object_apart_example =
    deep_copy_object_apart map_lib map_lib-IsMemLib listed small
      ((5, string_map (("env", "test") ∷ [])) ∷ [])
      ((2, string_map []) ∷ (0, cluster_array []) ∷ []) listed-InUse (omega arith, tt)
      (omega arith, (omega arith, tt))

abbrev no_bundles : InitBundleList maps
no_bundles = record { type_meta = "InitBundleList"; list_meta = none; items = none }

abbrev no_usages : ProviderConfigUsageList maps
no_usages = record { type_meta = "ProviderConfigUsageList"; list_meta = none; items = none }

items-PointsToItems_example :
    PointsToItems clusters_slot (some 0) small (cluster_items one_listed small)
    × PointsToItems init_bundles_slot none small (init_bundle_items no_bundles small)
    × PointsToItems provider_config_usages_slot none small
        (provider_config_usage_items no_usages small)
items-PointsToItems_example = items-PointsToItems maps one_listed no_bundles no_usages small
