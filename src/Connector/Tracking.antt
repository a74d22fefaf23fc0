-- ===== src/Connector/Tracking.antt =====
-- The connections that are made and closed, as Central and the process see them.
use provider_stackrox.Base.{String, ◌≡◌, Option, none, some, List, ◌∷◌}
use provider_stackrox.Deps.{Deps}
use provider_stackrox.Api.Managed.{Managed}
use provider_stackrox.Connector.{Kubernetes}

-- A connection is in the list once it has been made without an error.
abbrev pub made : {A : Type 0} → Option A → Option (Unit {0}) → List A → List A
made (some x) none l = x ∷ l
made c e l = l

abbrev pub is_nil : {A : Type 0} → Option A → Option (Unit {0})
is_nil none = none
is_nil (some e) = some tt

-- The connections that were made and those that were closed, the latest first. Only the two calls
-- of grpc change them.
pub record TracksConns (D : Deps) (K : Kubernetes D) : Type 0 where
  pub opened : D.World → List D.ClientConn
  pub closed : D.World → List D.ClientConn
  pub opened-track : (mg : Managed D) (w : D.World) → opened (K.track mg w).1 ≡ opened w
  pub closed-track : (mg : Managed D) (w : D.World) → closed (K.track mg w).1 ≡ closed w
  pub opened-config : (n : String) (w : D.World) → opened (K.get_provider_config n w).2 ≡ opened w
  pub closed-config : (n : String) (w : D.World) → closed (K.get_provider_config n w).2 ≡ closed w
  pub opened-extract :
      (s : D.CredentialsSource) (l : D.CommonCredentialSelectors) (w : D.World)
      → opened (K.common_credential_extractor s l w).2 ≡ opened w
  pub closed-extract :
      (s : D.CredentialsSource) (l : D.CommonCredentialSelectors) (w : D.World)
      → closed (K.common_credential_extractor s l w).2 ≡ closed w
  pub opened-grpc_connection :
      (s : D.Subject) (endpoint name : String) (c : D.Creds) (i : D.Interceptors) (w : D.World)
      → opened (D.grpc_connection s endpoint name c i w).2
        ≡ made
            (D.grpc_connection s endpoint name c i w).0
            (is_nil (D.grpc_connection s endpoint name c i w).1)
            (opened w)
  pub closed-grpc_connection :
      (s : D.Subject) (endpoint name : String) (c : D.Creds) (i : D.Interceptors) (w : D.World)
      → closed (D.grpc_connection s endpoint name c i w).2 ≡ closed w
  pub opened-close_conn : (c : D.ClientConn) (w : D.World) → opened (D.close_conn c w).1 ≡ opened w
  pub closed-close_conn :
      (c : D.ClientConn) (w : D.World) → closed (D.close_conn c w).1 ≡ c ∷ closed w
