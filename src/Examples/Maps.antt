-- ===== src/Examples/Maps.antt =====
-- A decision of the equality that go-cmp makes with EquateEmpty, on parameters.
use provider_stackrox.Base.{
  String, ◌≡◌, ◌≢◌, ◌↔◌, refl, ◌∙◌, sym, Bool, true, false, ◌&&◌, ◌||◌, Option, none, some, List,
  [], ◌∷◌, inl, inr, arith, ◌==◌, eq_iff, Bool-cases, if◌then◌else◌,
}
use provider_stackrox.Base.GoMap.{Entries, GoMap, find, get, SameMap}
use provider_stackrox.Api.Parameters.{
  ClusterParameters, SameParameters, InitBundleParameters, CmpLib, IsCmp,
}

option_eq : Option String → Option String → Bool
option_eq none none = true
option_eq (some a) (some b) = a == b
option_eq _ _ = false

option_eq_iff : (a b : Option String) → (option_eq a b ≡ true) ↔ (a ≡ b)
unfolding option_eq
option_eq_iff none none = (λ _. refl, λ _. refl)
option_eq_iff none (some b) = (λ h. cc, λ h. cc)
option_eq_iff (some a) none = (λ h. cc, λ h. cc)
option_eq_iff (some a) (some b) = ground (arith, eq_iff a b)

contains : List String → String → Bool
contains [] key = false
contains (k ∷ rest) key = k == key || contains rest key

entry_keys : Entries String → List String
entry_keys [] = []
entry_keys ((k, v) ∷ rest) = k ∷ entry_keys rest

keys : GoMap String → List String
keys none = []
keys (some m) = entry_keys m

find-absent :
    (m : Entries String) (key : String) → contains (entry_keys m) key ≡ false → find m key ≡ none
unfolding contains entry_keys find
find-absent [] key h = refl
find-absent ((k, v) ∷ rest) key h = ground (arith, find-absent rest key)

get-absent : (m : GoMap String) (key : String) → contains (keys m) key ≡ false → get m key ≡ none
unfolding keys
get-absent none key h = refl
get-absent (some m) key h = find-absent m key h

agree : (m n : GoMap String) → List String → Bool
agree m n [] = true
agree m n (k ∷ rest) = option_eq (get m k) (get n k) && agree m n rest

agree_sound :
    (m n : GoMap String) (ks : List String) (key : String)
    → agree m n ks ≡ true
    → contains ks key ≡ true
    → get m key ≡ get n key
unfolding agree contains
agree_sound m n [] key h c = cc
agree_sound m n (k ∷ rest) key h c =
    ground (arith, eq_iff k key, option_eq_iff (get m k) (get n k), agree_sound m n rest key)

agree_complete : (m n : GoMap String) (ks : List String) → SameMap m n → agree m n ks ≡ true
unfolding agree
agree_complete m n [] same = refl
agree_complete m n (k ∷ rest) same =
    rw ((option_eq_iff (get m k) (get n k)).1 (same k)) (agree_complete m n rest same)

same_map : (m n : GoMap String) → Bool
same_map m n = agree m n (keys m) && agree m n (keys n)

same_map_sound : (m n : GoMap String) → same_map m n ≡ true → SameMap m n
unfolding same_map
same_map_sound m n h key = elim (Bool-cases (contains (keys m) key)) [
  | inl here ↦ agree_sound m n (keys m) key (ground arith) here
  | inr out ↦ elim (Bool-cases (contains (keys n) key)) [
    | inl there ↦ agree_sound m n (keys n) key (ground arith) there
    | inr nowhere ↦ get-absent m key out ∙ sym (get-absent n key nowhere)
  ]
]

same_map_complete : (m n : GoMap String) → SameMap m n → same_map m n ≡ true
unfolding same_map
same_map_complete m n same =
    rw (agree_complete m n (keys m) same) (agree_complete m n (keys n) same)

bool_eq : Bool → Bool → Bool
bool_eq true b = b
bool_eq false true = false
bool_eq false false = true

same_parameters : ClusterParameters → ClusterParameters → Bool
same_parameters p q =
    bool_eq p.admission_controller q.admission_controller
    && (bool_eq p.admission_controller_events q.admission_controller_events
        && (bool_eq p.admission_controller_updates q.admission_controller_updates
            && ((p.central_api_endpoint == q.central_api_endpoint)
                && ((p.collection_method == q.collection_method)
                    && ((p.collector_image == q.collector_image)
                        && (same_map p.labels q.labels
                            && ((p.main_image == q.main_image)
                                && ((p.name == q.name)
                                    && (bool_eq p.slim_collector q.slim_collector
                                        && (bool_eq p.tolerations q.tolerations
                                            && (p.type == q.type)))))))))))

bool_eq_iff : (a b : Bool) → (bool_eq a b ≡ true) ↔ (a ≡ b)
unfolding bool_eq
bool_eq_iff a b = ground arith

and_true_iff : (a b : Bool) → ((a && b) ≡ true) ↔ ((a ≡ true) × (b ≡ true))
and_true_iff a b = ground arith

same_parameters_iff : (p q : ClusterParameters) → (same_parameters p q ≡ true) ↔ SameParameters p q
unfolding same_parameters
same_parameters_iff p q = (
  λ h. record {
    admission_controller =
        (bool_eq_iff p.admission_controller q.admission_controller).0 (ground arith);
    admission_controller_events =
        (bool_eq_iff p.admission_controller_events q.admission_controller_events).0 (ground arith);
    admission_controller_updates =
        (bool_eq_iff p.admission_controller_updates q.admission_controller_updates).0
          (ground arith);
    central_api_endpoint = (eq_iff p.central_api_endpoint q.central_api_endpoint).0 (ground arith);
    collection_method = (eq_iff p.collection_method q.collection_method).0 (ground arith);
    collector_image = (eq_iff p.collector_image q.collector_image).0 (ground arith);
    labels = same_map_sound p.labels q.labels (ground arith);
    main_image = (eq_iff p.main_image q.main_image).0 (ground arith);
    name = (eq_iff p.name q.name).0 (ground arith);
    slim_collector = (bool_eq_iff p.slim_collector q.slim_collector).0 (ground arith);
    tolerations = (bool_eq_iff p.tolerations q.tolerations).0 (ground arith);
    type = (eq_iff p.type q.type).0 (ground arith);
  },
  λ h. rw (
    ((bool_eq_iff p.admission_controller q.admission_controller).1 h.admission_controller),
    ((bool_eq_iff p.admission_controller_events q.admission_controller_events).1
        h.admission_controller_events),
    ((bool_eq_iff p.admission_controller_updates q.admission_controller_updates).1
        h.admission_controller_updates),
    ((eq_iff p.central_api_endpoint q.central_api_endpoint).1 h.central_api_endpoint),
    ((eq_iff p.collection_method q.collection_method).1 h.collection_method),
    ((eq_iff p.collector_image q.collector_image).1 h.collector_image),
    (same_map_complete p.labels q.labels h.labels),
    ((eq_iff p.main_image q.main_image).1 h.main_image),
    ((eq_iff p.name q.name).1 h.name),
    ((bool_eq_iff p.slim_collector q.slim_collector).1 h.slim_collector),
    ((bool_eq_iff p.tolerations q.tolerations).1 h.tolerations),
    ((eq_iff p.type q.type).1 h.type),
  ),
)

text_iff :
    {P : Type 0} (b : Bool)
    → (b ≡ true) ↔ P
    → (◌≡◌ {A = String} (if b then "" else "they differ") "") ↔ P
text_iff true h = (λ _. h.0 refl, λ _. refl)
text_iff false h = (λ e. absurd (differ_ne e), λ p. cc (h.1 p))
  where
    differ_ne : ◌≢◌ {A = String} "they differ" ""
    differ_ne = ground (arith, eq_iff "they differ" "")

same_name_iff : (p q : InitBundleParameters) → ((p.name == q.name) ≡ true) ↔ (p ≡ q)
same_name_iff p q = ground (arith, eq_iff p.name q.name)

unfoldable pub cmp_lib : CmpLib
unfolding same_parameters same_map bool_eq agree keys entry_keys option_eq
cmp_lib = record {
  diff_clusters = λ p q. if same_parameters p q then "" else "they differ";
  diff_bundles = λ p q. if p.name == q.name then "" else "they differ";
}

pub cmp_lib-IsCmp : IsCmp cmp_lib
unfolding cmp_lib
cmp_lib-IsCmp = record {
  diff_clusters_empty = λ p q. text_iff (same_parameters p q) (same_parameters_iff p q);
  diff_bundles_empty = λ p q. text_iff (p.name == q.name) (same_name_iff p q);
}
