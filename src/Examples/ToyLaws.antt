-- ===== src/Examples/ToyLaws.antt =====
-- The small model meets every law that the theorems rely on.
use Prim.Native.Nat.{ℕ}
use provider_stackrox.Base.{
  String, ◌<>◌, ◌≡◌, ◌↔◌, refl, ℤ, pos, true, Option, none, some, [], ◌∷◌, ◌++◌, arith, eq_iff, inl,
  inr,
}
use provider_stackrox.Base.Named.{replace_id, remove_id}
use provider_stackrox.Deps.Errors.{IsErrors}
use provider_stackrox.Deps.Runtime.{IsRuntime, IsStamped}
use provider_stackrox.Deps.Storage.{IsEnum, IsStorage, view}
use provider_stackrox.Deps.Laws.{ServesClusters, ServesInitBundles}
use provider_stackrox.Api.Parameters.{IsCmp, IsCollectionMethod, IsClusterType}
use provider_stackrox.Cluster.Roundtrip.{Known}
use provider_stackrox.Cluster.Drift.{DeclaresNames}
use provider_stackrox.Examples.Maps.{cmp_lib-IsCmp}
use provider_stackrox.Examples.Toy.{
  Stored, World, Condition, toy, assigned, made_bundle, method_name, method_value, manager_name,
  manager_value, type_name, type_value,
}

unfoldable pub toy-IsErrors : IsErrors toy.errors
toy-IsErrors = record {
  message-new_error = λ text. refl;
  wrap_nil = λ text. refl;
  wrapped = λ e text. text <> (": " <> e);
  wrap_err = λ e text. refl;
  message-wrapped = λ e text. refl;
  with_stack_nil = refl;
  stacked = λ e. e;
  with_stack_err = λ e. refl;
  message-stacked = λ e. refl;
}

pub condition_eq_iff : (a b : Condition) → (toy.condition_eq a b ≡ true) ↔ (a ≡ b)
condition_eq_iff a b = ground arith

unfoldable pub toy-IsRuntime : IsRuntime toy.runtime
toy-IsRuntime = record {
  condition_eq_iff = condition_eq_iff;
  SameState = λ a b. a.state ≡ b.state;
  ready-set_available = λ s w. refl;
  ready-set_creating = λ s w. refl;
  ready-set_deleting = λ s w. refl;
  external_name-set = λ m name. refl;
}

unfoldable pub toy-IsStamped : IsStamped toy.runtime
toy-IsStamped = record {
  Instant = ℕ;
  now = λ w. w.clock;
  last_transition_time = λ c. c.time;
  creating_now = λ w. refl;
  deleting_now = λ w. refl;
}

method-name-value : (s : String) (n : ℤ) → method_value s ≡ some n → method_name n ≡ some s
method-name-value s n h = ground (
  arith,
  eq_iff s "UNSET_COLLECTION",
  eq_iff s "NO_COLLECTION",
  eq_iff s "KERNEL_MODULE",
  eq_iff s "EBPF",
)

method-value-name : (s : String) (n : ℤ) → method_name n ≡ some s → method_value s ≡ some n
method-value-name s n h = ground (
  arith,
  eq_iff s "UNSET_COLLECTION",
  eq_iff s "NO_COLLECTION",
  eq_iff s "KERNEL_MODULE",
  eq_iff s "EBPF",
  eq_iff "UNSET_COLLECTION" "UNSET_COLLECTION",
  eq_iff "UNSET_COLLECTION" "NO_COLLECTION",
  eq_iff "UNSET_COLLECTION" "KERNEL_MODULE",
  eq_iff "UNSET_COLLECTION" "EBPF",
  eq_iff "NO_COLLECTION" "UNSET_COLLECTION",
  eq_iff "NO_COLLECTION" "NO_COLLECTION",
  eq_iff "NO_COLLECTION" "KERNEL_MODULE",
  eq_iff "NO_COLLECTION" "EBPF",
  eq_iff "KERNEL_MODULE" "UNSET_COLLECTION",
  eq_iff "KERNEL_MODULE" "NO_COLLECTION",
  eq_iff "KERNEL_MODULE" "KERNEL_MODULE",
  eq_iff "KERNEL_MODULE" "EBPF",
  eq_iff "EBPF" "UNSET_COLLECTION",
  eq_iff "EBPF" "NO_COLLECTION",
  eq_iff "EBPF" "KERNEL_MODULE",
  eq_iff "EBPF" "EBPF",
)

method-IsEnum : IsEnum (record { name = method_name; value = method_value })
method-IsEnum = record {
  name-value = method-name-value;
  value-name = method-value-name;
  zero_name = "UNSET_COLLECTION";
  name_zero = refl;
}

manager-name-value : (s : String) (n : ℤ) → manager_value s ≡ some n → manager_name n ≡ some s
manager-name-value s n h =
    ground (arith, eq_iff s "MANAGER_TYPE_UNKNOWN", eq_iff s "MANAGER_TYPE_MANUAL")

manager-value-name : (s : String) (n : ℤ) → manager_name n ≡ some s → manager_value s ≡ some n
manager-value-name s n h = ground (
  arith,
  eq_iff s "MANAGER_TYPE_UNKNOWN",
  eq_iff s "MANAGER_TYPE_MANUAL",
  eq_iff "MANAGER_TYPE_UNKNOWN" "MANAGER_TYPE_UNKNOWN",
  eq_iff "MANAGER_TYPE_UNKNOWN" "MANAGER_TYPE_MANUAL",
  eq_iff "MANAGER_TYPE_MANUAL" "MANAGER_TYPE_UNKNOWN",
  eq_iff "MANAGER_TYPE_MANUAL" "MANAGER_TYPE_MANUAL",
)

manager-IsEnum : IsEnum (record { name = manager_name; value = manager_value })
manager-IsEnum = record {
  name-value = manager-name-value;
  value-name = manager-value-name;
  zero_name = "MANAGER_TYPE_UNKNOWN";
  name_zero = refl;
}

type-name-value : (s : String) (n : ℤ) → type_value s ≡ some n → type_name n ≡ some s
type-name-value s n h = ground (
  arith,
  eq_iff s "GENERIC_CLUSTER",
  eq_iff s "KUBERNETES_CLUSTER",
  eq_iff s "OPENSHIFT_CLUSTER",
  eq_iff s "OPENSHIFT4_CLUSTER",
)

type-value-name : (s : String) (n : ℤ) → type_name n ≡ some s → type_value s ≡ some n
type-value-name s n h = ground (
  arith,
  eq_iff s "GENERIC_CLUSTER",
  eq_iff s "KUBERNETES_CLUSTER",
  eq_iff s "OPENSHIFT_CLUSTER",
  eq_iff s "OPENSHIFT4_CLUSTER",
  eq_iff "GENERIC_CLUSTER" "GENERIC_CLUSTER",
  eq_iff "GENERIC_CLUSTER" "KUBERNETES_CLUSTER",
  eq_iff "GENERIC_CLUSTER" "OPENSHIFT_CLUSTER",
  eq_iff "GENERIC_CLUSTER" "OPENSHIFT4_CLUSTER",
  eq_iff "KUBERNETES_CLUSTER" "GENERIC_CLUSTER",
  eq_iff "KUBERNETES_CLUSTER" "KUBERNETES_CLUSTER",
  eq_iff "KUBERNETES_CLUSTER" "OPENSHIFT_CLUSTER",
  eq_iff "KUBERNETES_CLUSTER" "OPENSHIFT4_CLUSTER",
  eq_iff "OPENSHIFT_CLUSTER" "GENERIC_CLUSTER",
  eq_iff "OPENSHIFT_CLUSTER" "KUBERNETES_CLUSTER",
  eq_iff "OPENSHIFT_CLUSTER" "OPENSHIFT_CLUSTER",
  eq_iff "OPENSHIFT_CLUSTER" "OPENSHIFT4_CLUSTER",
  eq_iff "OPENSHIFT4_CLUSTER" "GENERIC_CLUSTER",
  eq_iff "OPENSHIFT4_CLUSTER" "KUBERNETES_CLUSTER",
  eq_iff "OPENSHIFT4_CLUSTER" "OPENSHIFT_CLUSTER",
  eq_iff "OPENSHIFT4_CLUSTER" "OPENSHIFT4_CLUSTER",
)

type-IsEnum : IsEnum (record { name = type_name; value = type_value })
type-IsEnum = record {
  name-value = type-name-value;
  value-name = type-value-name;
  zero_name = "GENERIC_CLUSTER";
  name_zero = refl;
}

pub toy-IsStorage : IsStorage toy.storage
unfolding view
toy-IsStorage = record {
  collection_methods-IsEnum = method-IsEnum;
  manager_types-IsEnum = manager-IsEnum;
  cluster_types-IsEnum = type-IsEnum;
  disabled-nil = refl;
  disabled-tolerations = λ b. refl;
  view-set_admission_controller = λ c v. refl;
  view-set_admission_controller_events = λ c v. refl;
  view-set_admission_controller_updates = λ c v. refl;
  view-set_central_api_endpoint = λ c v. refl;
  view-set_collection_method = λ c v. refl;
  view-set_collector_image = λ c v. refl;
  view-set_labels = λ c v. refl;
  view-set_main_image = λ c v. refl;
  view-set_name = λ c v. refl;
  view-set_slim_collector = λ c v. refl;
  view-set_tolerations_config = λ c v. refl;
  view-set_cluster_type = λ c v. refl;
}

pub toy-IsCmp : IsCmp toy.cmp
toy-IsCmp = cmp_lib-IsCmp

method_declared : (s : String) → IsCollectionMethod s → Known toy.collection_methods s
method_declared s h = elim h [
  | inl e ↦ (pos 0, rw e refl)
  | inr (inl e) ↦ (pos 1, rw e refl)
  | inr (inr (inl e)) ↦ (pos 2, rw e refl)
  | inr (inr (inr e)) ↦ (pos 3, rw e refl)
]

type_declared : (s : String) → IsClusterType s → Known toy.cluster_types s
type_declared s h = elim h [
  | inl e ↦ (pos 0, rw e refl)
  | inr (inl e) ↦ (pos 1, rw e refl)
  | inr (inr (inl e)) ↦ (pos 2, rw e refl)
  | inr (inr (inr e)) ↦ (pos 5, rw e refl)
]

pub toy-DeclaresNames : DeclaresNames toy
toy-DeclaresNames = record { collection_methods = method_declared; cluster_types = type_declared }

pub toy-get_clusters :
    (c : Option ℕ) (w : World)
    → (toy.get_clusters c w).1 ≡ none
    → (toy.get_clusters c w).0 ≡ w.clusters
toy-get_clusters c w ok = ground arith

pub toy-get_clusters_keeps :
    (c : Option ℕ) (w : World) → (toy.get_clusters c w).2.clusters ≡ w.clusters
toy-get_clusters_keeps c w = ground arith

pub toy-post_cluster :
    (c : Option ℕ) (req : Stored) (w : World)
    → (toy.post_cluster c req w).1 ≡ none
    → (toy.post_cluster c req w).2.clusters ≡ w.clusters ++ (assigned req w ∷ [])
toy-post_cluster c req w ok = ground arith

pub toy-put_cluster :
    (c : Option ℕ) (req : Stored) (w : World)
    → (toy.put_cluster c req w).1 ≡ none
    → (toy.put_cluster c req w).2.clusters ≡ replace_id toy.get_id req w.clusters
toy-put_cluster c req w ok = ground arith

pub toy-delete_cluster :
    (c : Option ℕ) (id : String) (w : World)
    → (toy.delete_cluster c id w).0 ≡ none
    → (toy.delete_cluster c id w).1.clusters ≡ remove_id toy.get_id id w.clusters
toy-delete_cluster c id w ok = ground arith

pub toy-get_init_bundles :
    (c : Option ℕ) (w : World)
    → (toy.get_init_bundles c w).1 ≡ none
    → (toy.get_init_bundles c w).0 ≡ w.bundles
toy-get_init_bundles c w ok = ground arith

pub toy-get_init_bundles_keeps :
    (c : Option ℕ) (w : World) → (toy.get_init_bundles c w).2.bundles ≡ w.bundles
toy-get_init_bundles_keeps c w = ground arith

pub toy-generate_init_bundle :
    (c : Option ℕ) (name : String) (w : World)
    → (toy.generate_init_bundle c name w).3 ≡ none
    → (toy.generate_init_bundle c name w).4.bundles ≡ w.bundles ++ (made_bundle name w ∷ [])
toy-generate_init_bundle c name w ok = ground arith

pub toy-revoke_init_bundle :
    (c : Option ℕ) (id : String) (w : World)
    → (toy.revoke_init_bundle c (id ∷ []) w).0 ≡ none
    → (toy.revoke_init_bundle c (id ∷ []) w).1.bundles ≡ remove_id toy.bundle_id id w.bundles
toy-revoke_init_bundle c id w ok = ground arith

unfoldable pub toy-ServesClusters : ServesClusters toy
toy-ServesClusters = record {
  stored = λ w. w.clusters;
  get_clusters-stored = toy-get_clusters;
  stored-get_clusters = toy-get_clusters_keeps;
  added = λ c req w. assigned req w;
  stored-post_cluster = toy-post_cluster;
  get_name-added = λ c req w. refl;
  kept = λ c req w. req;
  stored-put_cluster = toy-put_cluster;
  get_name-kept = λ c req w. refl;
  get_id-kept = λ c req w. refl;
  stored-delete_cluster = toy-delete_cluster;
}

unfoldable pub toy-ServesInitBundles : ServesInitBundles toy
toy-ServesInitBundles = record {
  bundles = λ w. w.bundles;
  get_init_bundles-bundles = toy-get_init_bundles;
  bundles-get_init_bundles = toy-get_init_bundles_keeps;
  generated = λ c name w. made_bundle name w;
  bundles-generate_init_bundle = toy-generate_init_bundle;
  bundle_name-generated = λ c name w. refl;
  revokes = λ c id w. true;
  bundles-refused = λ c id w ok no. ground arith;
  bundles-revoke_init_bundle = λ c id w ok yes. toy-revoke_init_bundle c id w ok;
}
