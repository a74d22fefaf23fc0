-- ===== src/Deps/Laws.antt =====
-- What Central is relied on for: a list of stored clusters, and what the four calls do to it.
use provider_stackrox.Base.{String, Bool, true, false, ◌≡◌, Option, none, List, [], ◌∷◌, ◌++◌}
use provider_stackrox.Base.Named.{replace_id, remove_id}
use provider_stackrox.Deps.{Deps}

module _ (D : Deps) where
  -- A failed call is not described. Of the clusters that are sent, what Central stores is its own:
  -- it chooses the identifier of a new cluster, and may fill in or rewrite what it likes. The name
  -- stays, and the identifier of a cluster that is put.
  pub record ServesClusters : Type 0 where
    pub stored : D.World → List D.StorageCluster
    pub get_clusters-stored :
        (c : Option D.ClientConn) (w : D.World)
        → (D.get_clusters c w).1 ≡ none
        → (D.get_clusters c w).0 ≡ stored w
    pub stored-get_clusters :
        (c : Option D.ClientConn) (w : D.World) → stored (D.get_clusters c w).2 ≡ stored w
    pub added : Option D.ClientConn → D.StorageCluster → D.World → D.StorageCluster
    pub stored-post_cluster :
        (c : Option D.ClientConn) (req : D.StorageCluster) (w : D.World)
        → (D.post_cluster c req w).1 ≡ none
        → stored (D.post_cluster c req w).2 ≡ stored w ++ (added c req w ∷ [])
    pub get_name-added :
        (c : Option D.ClientConn) (req : D.StorageCluster) (w : D.World)
        → D.get_name (added c req w) ≡ D.get_name req
    pub kept : Option D.ClientConn → D.StorageCluster → D.World → D.StorageCluster
    pub stored-put_cluster :
        (c : Option D.ClientConn) (req : D.StorageCluster) (w : D.World)
        → (D.put_cluster c req w).1 ≡ none
        → stored (D.put_cluster c req w).2 ≡ replace_id D.get_id (kept c req w) (stored w)
    pub get_name-kept :
        (c : Option D.ClientConn) (req : D.StorageCluster) (w : D.World)
        → D.get_name (kept c req w) ≡ D.get_name req
    pub get_id-kept :
        (c : Option D.ClientConn) (req : D.StorageCluster) (w : D.World)
        → D.get_id (kept c req w) ≡ D.get_id req
    pub stored-delete_cluster :
        (c : Option D.ClientConn) (id : String) (w : D.World)
        → (D.delete_cluster c id w).0 ≡ none
        → stored (D.delete_cluster c id w).1 ≡ remove_id D.get_id id (stored w)

module _ (D : Deps) where
  -- The same of init bundles: a new bundle has the name that was asked for. RevokeInitBundle replies
  -- with the identifiers that are revoked and with those that are not; it may have no error although
  -- the one identifier that is sent is not revoked.
  pub record ServesInitBundles : Type 0 where
    pub bundles : D.World → List D.InitBundleMeta
    pub get_init_bundles-bundles :
        (c : Option D.ClientConn) (w : D.World)
        → (D.get_init_bundles c w).1 ≡ none
        → (D.get_init_bundles c w).0 ≡ bundles w
    pub bundles-get_init_bundles :
        (c : Option D.ClientConn) (w : D.World) → bundles (D.get_init_bundles c w).2 ≡ bundles w
    pub generated : Option D.ClientConn → String → D.World → D.InitBundleMeta
    pub bundles-generate_init_bundle :
        (c : Option D.ClientConn) (name : String) (w : D.World)
        → (D.generate_init_bundle c name w).3 ≡ none
        → bundles (D.generate_init_bundle c name w).4 ≡ bundles w ++ (generated c name w ∷ [])
    pub bundle_name-generated :
        (c : Option D.ClientConn) (name : String) (w : D.World)
        → D.bundle_name (generated c name w) ≡ name
    -- Whether the reply has the identifier among those that are revoked
    pub revokes : Option D.ClientConn → String → D.World → Bool
    pub bundles-refused :
        (c : Option D.ClientConn) (id : String) (w : D.World)
        → (D.revoke_init_bundle c (id ∷ []) w).0 ≡ none
        → revokes c id w ≡ false
        → bundles (D.revoke_init_bundle c (id ∷ []) w).1 ≡ bundles w
    pub bundles-revoke_init_bundle :
        (c : Option D.ClientConn) (id : String) (w : D.World)
        → (D.revoke_init_bundle c (id ∷ []) w).0 ≡ none
        → revokes c id w ≡ true
        → bundles (D.revoke_init_bundle c (id ∷ []) w).1 ≡ remove_id D.bundle_id id (bundles w)
