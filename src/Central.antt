-- ===== src/Central.antt =====
-- pkg/clients/central/central.go: a gRPC connection to Central. The contexts of Go, which carry
-- deadlines and cancellation only, are left out here and everywhere.
use provider_stackrox.Base.{String, ℤ, pos, Option, none, some}
use provider_stackrox.Deps.{Deps}

abbrev pub err_new_client : String
err_new_client = "cannot create central client"

abbrev pub err_close_client : String
err_close_client = "cannot close central client"

-- The two options that are set of clientconn.Options, and the endpoint.
pub record GrpcConfig (D : Deps) : Type 0 where
  pub server_name : String
  pub per_rpc_creds : D.Creds
  pub endpoint : String

-- initialBackoffDuration, in milliseconds
abbrev pub initial_backoff : ℤ
initial_backoff = pos 100

module _ (D : Deps) where
  unfoldable pub create_grpc_conn :
      GrpcConfig D → D.World → Option D.ClientConn × Option D.Error × D.World
  create_grpc_conn c w =
      let retry = D.retry_interceptors initial_backoff (pos 3) in
      let (connection, err, w') =
        D.grpc_connection D.central_subject c.endpoint c.server_name c.per_rpc_creds retry w in
      (connection, D.with_stack err, w')

  unfoldable pub new_grpc :
      (endpoint api_token : String) → D.World → Option D.ClientConn × Option D.Error × D.World
  unfolding create_grpc_conn
  new_grpc endpoint api_token w =
      let (server_name, zone, port, err) = D.parse_endpoint endpoint in
      elim err [
        | some e ↦ (none, D.wrap (some e) "could not parse endpoint", w)
        | none ↦
            create_grpc_conn
              (record {
                server_name = server_name;
                per_rpc_creds = D.per_rpc_credentials api_token;
                endpoint = endpoint;
              })
              w
      ]
