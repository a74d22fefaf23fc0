-- ===== src/InitBundle/Convert.antt =====
-- pkg/controller/initbundle/initbundle.go: what the provider reads of an init bundle.
use provider_stackrox.Base.{
  String, ◌<>◌, Bool, true, false, not, some, List, [], ◌∷◌, ◌++◌, ◌==◌, if◌then◌else◌,
}
use provider_stackrox.Base.GoMap.{Entries, assign}
use provider_stackrox.Deps.{Deps}
use provider_stackrox.Api.Parameters.{InitBundleParameters}
use provider_stackrox.Api.InitBundle.{InitBundle, InitBundleObservation, ImpactedCluster}

-- `for _, it := range attributes { att[it.GetKey()] = it.GetValue() }`
unfoldable pub collect_attributes : Entries String → List (String × String) → Entries String
collect_attributes att [] = att
collect_attributes att ((key, value) ∷ rest) = collect_attributes (assign att key value) rest

-- `for _, it := range impacted { ic = append(ic, …) }`
unfoldable pub collect_impacted :
    List ImpactedCluster → List (String × String) → List ImpactedCluster
collect_impacted ic [] = ic
collect_impacted ic ((id, name) ∷ rest) =
    collect_impacted (ic ++ (record { id = id; name = name } ∷ [])) rest

module _ (D : Deps) where
  unfoldable pub generate_observation : D.InitBundleMeta → InitBundleObservation D
  generate_observation in_ =
      let creator = D.created_by in_ in
      record {
        created_at = D.new_time (D.seconds (D.created_at in_)) (D.nanos (D.created_at in_));
        created_by = record {
          attributes = some (collect_attributes [] (D.creator_attributes creator));
          auth_provider_id = D.auth_provider_id creator;
          id = D.creator_id creator;
        };
        expires_at = D.new_time (D.seconds (D.expires_at in_)) (D.nanos (D.expires_at in_));
        id = D.bundle_id in_;
        impacted_clusters = some (collect_impacted [] (D.impacted_clusters_of in_));
        name = D.bundle_name in_;
      }

  unfoldable pub is_up_to_date : InitBundle D → D.InitBundleMeta → Bool × String
  is_up_to_date in_ observed =
      let observed_params : InitBundleParameters = record { name = D.bundle_name observed } in
      let diff = D.diff_bundles in_.spec.for_provider observed_params in
      if not (diff == "")
      then (false, "Observed difference in init bundle\n" <> diff)
      else (true, "")
