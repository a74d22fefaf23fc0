-- ===== src/InitBundle/Observation.antt =====
-- initbundle.go: what generateObservation makes of the lists in a bundle's meta data.
use mathlib.Core.List.{append-nil, append_assoc}
use provider_stackrox.Base.{
  String, ◌≡◌, refl, ◌∙◌, sym, Option, none, some, List, [], ◌∷◌, ◌++◌, map, arith, ◌==◌,
  if◌then◌else◌,
}
use provider_stackrox.Base.GoMap.{Entries, find, assign, get, find-assign}
use provider_stackrox.Deps.{Deps}
use provider_stackrox.Api.InitBundle.{ImpactedCluster}
use provider_stackrox.InitBundle.Convert.{
  collect_attributes, collect_impacted, generate_observation,
}

-- The value that comes last under the key.
abbrev pub last_value : String → List (String × String) → Option String
last_value key [] = none
last_value key ((k, v) ∷ rest) = elim (last_value key rest) [
  | some later ↦ some later
  | none ↦ if k == key then some v else none
]

abbrev pub impacted : String × String → ImpactedCluster
impacted (id, name) = record { id = id; name = name }

find-collect_attributes :
    (att : Entries String) (l : List (String × String)) (key : String)
    → find (collect_attributes att l) key
      ≡ (elim (last_value key l) [ some v ↦ some v | none ↦ find att key ])
unfolding collect_attributes
find-collect_attributes att [] key = refl
find-collect_attributes att ((k, v) ∷ rest) key =
    ground (arith, find-collect_attributes (assign att k v) rest key, find-assign att k v key)

collect_impacted-eq-append :
    (ic : List ImpactedCluster) (l : List (String × String))
    → collect_impacted ic l ≡ ic ++ map impacted l
unfolding collect_impacted
collect_impacted-eq-append ic [] = sym (append-nil ic)
collect_impacted-eq-append ic ((id, name) ∷ rest) =
    collect_impacted-eq-append (ic ++ (record { id = id; name = name } ∷ [])) rest ∙ rw append_assoc

-- The observed attributes of the creator map each key to the value that comes last under it in
-- the message, and no other key; the impacted clusters are those of the message, in its order.
-- Neither is nil, however empty.
pub generate_observation_lists :
    (D : Deps) (bundle : D.InitBundleMeta)
    → let o = generate_observation D bundle in
      ((key : String)
        → get o.created_by.attributes key
          ≡ last_value key (D.creator_attributes (D.created_by bundle)))
      × (o.impacted_clusters ≡ some (map impacted (D.impacted_clusters_of bundle)))
      × ((m : Entries String) × (o.created_by.attributes ≡ some m))
unfolding generate_observation find
generate_observation_lists D bundle = (
  λ key.
      ground (arith, find-collect_attributes [] (D.creator_attributes (D.created_by bundle)) key),
  rw collect_impacted-eq-append,
  (collect_attributes [] (D.creator_attributes (D.created_by bundle)), refl),
)
