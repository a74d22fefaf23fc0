-- ===== src/Connector/Workers.antt =====
-- The workers of the InitBundle controller, which share one connector, in any interleaving.
use Prim.Native.Nat.{◌<◌}
use provider_stackrox.Base.{ℕ, suc, ◌≡◌, ◌≢◌, none, some, List, [], ◌∷◌, String}
use provider_stackrox.Deps.{Deps}
use provider_stackrox.Api.Managed.{Managed}
use provider_stackrox.Connector.{
  Kubernetes, External, Connector, done, disconnect_init_bundle, connect_init_bundle,
}
use provider_stackrox.Connector.Tracking.{TracksConns}

abbrev pub length : {A : Type 0} → List A → ℕ
length [] = 0
length (x ∷ xs) = suc (length xs)

-- A connection that is granted without an error is there.
abbrev pub GrantsConns : Deps → Type 0
GrantsConns D =
    (s : D.Subject) (endpoint name : String) (c : D.Creds) (i : D.Interceptors) (w : D.World)
    → (D.grpc_connection s endpoint name c i w).1 ≡ none
    → (x : D.ClientConn) × ((D.grpc_connection s endpoint name c i w).0 ≡ some x)

-- The connector, the world, and how many workers have connected and not yet disconnected.
pub record Pool (D : Deps) : Type 0 where
  pub connector : Connector D
  pub world : D.World
  pub active : ℕ

-- A step of one of `k` workers, or of the world. A worker whose Connect does not succeed is free
-- again at once, and one whose Connect has succeeded disconnects when it is done.
pub data Step (D : Deps) (K : Kubernetes D) (T : TracksConns D K) (k : ℕ)
    : Pool D → Pool D → Type 0 where
  connects :
      (c : Connector D) (w : D.World) (n : ℕ) (mg : Managed D) (e : External D)
      → n < k
      → (connect_init_bundle D K c mg w).0 ≡ done e
      → Step D K T k
          (record { connector = c; world = w; active = n })
          (record {
            connector = (connect_init_bundle D K c mg w).1;
            world = (connect_init_bundle D K c mg w).2;
            active = suc n;
          })
  gives_up :
      (c : Connector D) (w : D.World) (n : ℕ) (mg : Managed D)
      → ((e : External D) → (connect_init_bundle D K c mg w).0 ≢ done e)
      → Step D K T k
          (record { connector = c; world = w; active = n })
          (record {
            connector = (connect_init_bundle D K c mg w).1;
            world = (connect_init_bundle D K c mg w).2;
            active = n;
          })
  disconnects :
      (c : Connector D) (w : D.World) (n : ℕ)
      → Step D K T k
          (record { connector = c; world = w; active = suc n })
          (record { connector = c; world = (disconnect_init_bundle D c w).1; active = n })
  elsewhere :
      (c : Connector D) (w w' : D.World) (n : ℕ)
      → T.opened w' ≡ T.opened w
      → T.closed w' ≡ T.closed w
      → Step D K T k
          (record { connector = c; world = w; active = n })
          (record { connector = c; world = w'; active = n })

pub data Reach (D : Deps) (K : Kubernetes D) (T : TracksConns D K) (k : ℕ) (s : Pool D)
    : Pool D → Type 0 where
  here : Reach D K T k s s
  next : {t u : Pool D} → Reach D K T k s t → Step D K T k t u → Reach D K T k s u
