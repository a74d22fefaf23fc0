-- ===== src/Deps.antt =====
-- The code outside the repository that the provider calls, as one record of operations, and what
-- is relied on of it, as records of laws.
pub mod Errors
pub mod Runtime
pub mod Storage
pub mod Services
pub mod Laws
pub mod Scheme
pub mod Kingpin
pub mod Manager
use provider_stackrox.Deps.Errors.{ErrorLib}
use provider_stackrox.Deps.Runtime.{RuntimeLib}
use provider_stackrox.Deps.Storage.{StorageLib}
use provider_stackrox.Api.Parameters.{CmpLib}
use provider_stackrox.Base.{Option}
use provider_stackrox.Deps.Services.{Network, ClustersService, BundleMessages, ClusterInitService}

-- Everything together. `World` is the state of all that lies outside the process.
pub record Deps : Type 1 where
  pub errors : ErrorLib
  pub open errors use *
  pub runtime : RuntimeLib
  pub open runtime use *
  pub storage : StorageLib
  pub open storage use *
  pub bundle_messages : BundleMessages
  pub open bundle_messages use *
  pub network : Network World Error
  pub open network use *
  pub clusters : ClustersService World Error (Option ClientConn) StorageCluster
  pub open clusters use *
  pub cluster_init : ClusterInitService World Error (Option ClientConn) InitBundleMeta Bytes
  pub open cluster_init use *
  pub cmp : CmpLib
  pub open cmp use *
