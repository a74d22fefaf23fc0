-- ===== src/Deps/Services.antt =====
-- The services that the provider talks to. Each call gets the world and returns it as it is
-- afterwards, beside the reply and the error, as in Go.
use provider_stackrox.Base.{String, ℤ, Option, List}

-- clientconn, netutil, mtls, tokenbased and grpc
pub record Network (World Error : Type 0) : Type 1 where
  pub ClientConn : Type 0
  pub Creds : Type 0
  pub Subject : Type 0
  pub Interceptors : Type 0
  -- netutil.ParseEndpoint: the host, the zone, the port
  pub parse_endpoint : String → String × String × String × Option Error
  -- tokenbased.PerRPCCredentials
  pub per_rpc_credentials : String → Creds
  pub central_subject : Subject
  -- the two interceptors of grpc_retry, from the base of the exponential backoff in milliseconds
  -- and the number of attempts
  pub retry_interceptors : (backoff_ms attempts : ℤ) → Interceptors
  -- clientconn.GRPCConnection, with the server name and the credentials of its options
  pub grpc_connection :
      Subject
      → (endpoint server_name : String) → Creds
      → Interceptors
      → World
      → Option ClientConn × Option Error × World
  pub close_conn : ClientConn → World → Option Error × World

-- v1.ClustersServiceClient. Of the replies only GetClusters() and GetCluster() are read.
pub record ClustersService (World Error Conn Cluster : Type 0) : Type 0 where
  pub get_clusters : Conn → World → List Cluster × Option Error × World
  pub post_cluster : Conn → Cluster → World → Option Cluster × Option Error × World
  pub put_cluster : Conn → Cluster → World → Option Cluster × Option Error × World
  pub delete_cluster : Conn → String → World → Option Error × World

-- v1.InitBundleMeta and the messages in it; a nil message has the getters' zero values
pub record BundleMessages : Type 1 where
  pub InitBundleMeta : Type 0
  pub Creator : Type 0
  pub Timestamp : Type 0
  pub bundle_id : InitBundleMeta → String
  pub bundle_name : InitBundleMeta → String
  pub created_by : InitBundleMeta → Creator
  pub created_at : InitBundleMeta → Timestamp
  pub expires_at : InitBundleMeta → Timestamp
  pub creator_id : Creator → String
  pub auth_provider_id : Creator → String
  -- the keys and values of the attributes, the ids and names of the impacted clusters
  pub creator_attributes : Creator → List (String × String)
  pub impacted_clusters_of : InitBundleMeta → List (String × String)
  pub seconds : Timestamp → ℤ
  pub nanos : Timestamp → ℤ

-- v1.ClusterInitServiceClient. GenerateInitBundle replies with the meta data, the Helm values and
-- the manifest for kubectl.
pub record ClusterInitService (World Error Conn Meta Bytes : Type 0) : Type 0 where
  pub get_init_bundles : Conn → World → List Meta × Option Error × World
  pub generate_init_bundle :
      Conn → String → World → Option Meta × Bytes × Bytes × Option Error × World
  pub revoke_init_bundle : Conn → List String → World → Option Error × World
