-- ===== src/Main/Steps.antt =====
-- cmd/provider/main.go, one step: a call and the check of its error.
use provider_stackrox.Base.{String, ◌≡◌, Option, none, some, arith}
use provider_stackrox.Deps.{Deps}
use provider_stackrox.Main.{Run, going, exited, ◌>>=◌, ◌>>◌, fatal, fatal_if_error}

-- It goes on behind a call without an error, and ends with a call's error.
module _ (D : Deps) {B : Type 0} where
  pub going_on :
      {A : Type 0} (call : D.World → A × Option D.Error × D.World) (text : String)
      (f : A → D.World → Run D B × D.World) (w : D.World)
      → (call w).1 ≡ none
      → ◌>>=◌ D (fatal_if_error D call text) f w ≡ f (call w).0 (call w).2
  going_on call text f w h = ground arith

  pub ending :
      {A : Type 0} (call : D.World → A × Option D.Error × D.World) (text : String)
      (f : A → D.World → Run D B × D.World) (w : D.World) (e : D.Error)
      → (call w).1 ≡ some e
      → ◌>>=◌ D (fatal_if_error D call text) f w ≡ (exited text e, (call w).2)
  ending call text f w e h = ground arith

  pub going_on_checked :
      (call : D.World → Option D.Error × D.World) (text : String) (k : D.World → Run D B × D.World)
      (w : D.World)
      → (call w).0 ≡ none
      → ◌>>◌ D (fatal D call text) k w ≡ k (call w).1
  going_on_checked call text k w h = ground arith

  pub ending_checked :
      (call : D.World → Option D.Error × D.World) (text : String) (k : D.World → Run D B × D.World)
      (w : D.World) (e : D.Error)
      → (call w).0 ≡ some e
      → ◌>>◌ D (fatal D call text) k w ≡ (exited text e, (call w).1)
  ending_checked call text k w e h = ground arith

module _ (D : Deps) (call : D.World → Option D.Error × D.World) (text : String) (w : D.World) where
  pub going_last : (call w).0 ≡ none → fatal D call text w ≡ (going tt, (call w).1)
  going_last h = ground arith

  pub ending_last :
      (e : D.Error) → (call w).0 ≡ some e → fatal D call text w ≡ (exited text e, (call w).1)
  ending_last e h = ground arith
