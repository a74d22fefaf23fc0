-- ===== src/Examples/World.antt =====
-- The state of the small model of everything outside the repository, and what it computes with.
use Prim.Native.Nat.{ℕ, compare, Ordering}
use provider_stackrox.Base.{
  String, ◌<>◌, ℤ, pos, Bool, true, false, Option, none, some, List, [], ◌∷◌, ◌==◌, if◌then◌else◌,
}
use provider_stackrox.Base.GoMap.{GoMap}
use provider_stackrox.Base.Named.{remove_id}

-- storage.Cluster, with the sensor and the unnamed fields as texts.
pub record Stored : Type 0 where
  pub admission_controller : Bool
  pub admission_controller_events : Bool
  pub admission_controller_updates : Bool
  pub central_api_endpoint : String
  pub collection_method : ℤ
  pub collector_image : String
  pub labels : GoMap String
  pub main_image : String
  pub name : String
  pub slim_collector : Bool
  pub tolerations_config : Option Bool
  pub cluster_type : ℤ
  pub id : String
  pub managed_by : ℤ
  pub most_recent_sensor_id : String
  pub rest : String

pub record Bundle : Type 0 where
  pub id : String
  pub name : String
  pub attributes : List (String × String)
  pub impacted : List (String × String)

-- `clock` is the time; `down` makes every call to Central fail, `read_only` those that change a
-- cluster.
pub record World : Type 0 where
  pub clusters : List Stored
  pub bundles : List Bundle
  pub opened : List ℕ
  pub closed : List ℕ
  pub next : ℕ
  pub clock : ℕ
  pub down : Bool
  pub read_only : Bool

-- xpv1.ResourceSpec: a reference is the name of what it refers to.
pub record ResourceSpec : Type 0 where
  pub deletion_policy : String
  pub provider_config_reference : Option String
  pub provider_reference : Option String
  pub publish_connection_details_to : Option String
  pub write_connection_secret_to_reference : Option String

abbrev pub referring : Option String → ResourceSpec
referring r = record {
  deletion_policy = "Delete";
  provider_config_reference = r;
  provider_reference = none;
  publish_connection_details_to = none;
  write_connection_secret_to_reference = none;
}

-- A condition is a state (0 available, 1 creating, 2 deleting) and the time it was set at.
pub record Condition : Type 0 where
  pub state : ℕ
  pub time : ℕ

abbrev pub at : ℕ → World → Condition
at state w = record { state = state; time = w.clock }

abbrev pub last : Condition → List Condition → Condition
last s [] = s
last s (c ∷ rest) = last c rest

abbrev pub num_eq : ℕ → ℕ → Bool
num_eq a b = elim (compare a b) [ Ordering.eq ↦ true | _ ↦ false ]

abbrev pub method_name : ℤ → Option String
method_name n = elim n [
  | ℤ.pos k ↦
      (if num_eq k 0
        then some "UNSET_COLLECTION"
        else if num_eq k 1
        then some "NO_COLLECTION"
        else if num_eq k 2
        then some "KERNEL_MODULE"
        else if num_eq k 3
        then some "EBPF"
        else none)
  | ℤ.negsuc k ↦ none
]

abbrev pub method_value : String → Option ℤ
method_value s =
    if s == "UNSET_COLLECTION"
    then some (pos 0)
    else if s == "NO_COLLECTION"
    then some (pos 1)
    else if s == "KERNEL_MODULE"
    then some (pos 2)
    else if s == "EBPF"
    then some (pos 3)
    else none

abbrev pub manager_name : ℤ → Option String
manager_name n = elim n [
  | ℤ.pos k ↦
      (if num_eq k 0
        then some "MANAGER_TYPE_UNKNOWN"
        else if num_eq k 1
        then some "MANAGER_TYPE_MANUAL"
        else none)
  | ℤ.negsuc k ↦ none
]

abbrev pub manager_value : String → Option ℤ
manager_value s =
    if s == "MANAGER_TYPE_UNKNOWN"
    then some (pos 0)
    else if s == "MANAGER_TYPE_MANUAL"
    then some (pos 1)
    else none

abbrev pub type_name : ℤ → Option String
type_name n = elim n [
  | ℤ.pos k ↦
      (if num_eq k 0
        then some "GENERIC_CLUSTER"
        else if num_eq k 1
        then some "KUBERNETES_CLUSTER"
        else if num_eq k 2
        then some "OPENSHIFT_CLUSTER"
        else if num_eq k 5
        then some "OPENSHIFT4_CLUSTER"
        else none)
  | ℤ.negsuc k ↦ none
]

abbrev pub type_value : String → Option ℤ
type_value s =
    if s == "GENERIC_CLUSTER"
    then some (pos 0)
    else if s == "KUBERNETES_CLUSTER"
    then some (pos 1)
    else if s == "OPENSHIFT_CLUSTER"
    then some (pos 2)
    else if s == "OPENSHIFT4_CLUSTER"
    then some (pos 5)
    else none

abbrev pub remove_all : List String → List Bundle → List Bundle
remove_all [] bs = bs
remove_all (id ∷ rest) bs = remove_all rest (remove_id (λ x. x.id) id bs)

-- Errors are their texts.
abbrev pub wrap_text : Option String → String → Option String
wrap_text none text = none
wrap_text (some e) text = some (text <> (": " <> e))

abbrev pub answer : {A : Type 0} → World → A → A → World → A × Option String × World
answer w bad good w' = if w.down then (bad, some "unavailable", w) else (good, none, w')

-- A call that changes a cluster.
abbrev pub changed : {A : Type 0} → World → A → A → World → A × Option String × World
changed w bad good w' = if w.read_only then (bad, some "read only", w) else answer w bad good w'

abbrev pub assigned : Stored → World → Stored
assigned c w = record c {
  id = "new";
  managed_by = pos 1;
  most_recent_sensor_id = "none";
  rest = "healthy";
}

abbrev pub made_bundle : String → World → Bundle
made_bundle name w = record { id = "bundle"; name = name; attributes = []; impacted = [] }

abbrev pub world : List Stored → List Bundle → Bool → World
world cs bs down = record {
  clusters = cs;
  bundles = bs;
  opened = [];
  closed = [];
  next = 7;
  clock = 1000;
  down = down;
  read_only = false;
}

abbrev pub empty : Stored
empty = record {
  admission_controller = false;
  admission_controller_events = false;
  admission_controller_updates = false;
  central_api_endpoint = "";
  collection_method = pos 0;
  collector_image = "";
  labels = none;
  main_image = "";
  name = "";
  slim_collector = false;
  tolerations_config = none;
  cluster_type = pos 0;
  id = "";
  managed_by = pos 0;
  most_recent_sensor_id = "";
  rest = "";
}
