-- ===== src/Deps/Errors.antt =====
-- github.com/pkg/errors. A Go `error` that may be nil is an `Option Error`.
use mathlib.Core.Option
use provider_stackrox.Base.{String, ◌<>◌, ◌≡◌, Option, none, some}

pub record ErrorLib : Type 1 where
  pub Error : Type 0
  -- err.Error()
  pub message : Error → String
  -- errors.New, errors.Wrap and errors.WithStack
  pub new_error : String → Error
  pub wrap : Option Error → String → Option Error
  pub with_stack : Option Error → Option Error

-- The documentation of the package: nil stays nil, and `Wrap` puts its text before the cause's.
pub record IsErrors (E : ErrorLib) : Type 0 where
  pub message-new_error : (text : String) → E.message (E.new_error text) ≡ text
  pub wrap_nil : (text : String) → E.wrap none text ≡ none
  pub wrapped : E.Error → String → E.Error
  pub wrap_err : (e : E.Error) (text : String) → E.wrap (some e) text ≡ some (wrapped e text)
  pub message-wrapped :
      (e : E.Error) (text : String) → E.message (wrapped e text) ≡ text <> (": " <> E.message e)
  pub with_stack_nil : E.with_stack none ≡ none
  pub stacked : E.Error → E.Error
  pub with_stack_err : (e : E.Error) → E.with_stack (some e) ≡ some (stacked e)
  pub message-stacked : (e : E.Error) → E.message (stacked e) ≡ E.message e

module _ (E : ErrorLib) (L : IsErrors E) where
  -- A wrapped error is one exactly if there was one.
  pub wrap-eq-map :
      (o : Option E.Error) (text : String) → E.wrap o text ≡ Option.map (λ e. L.wrapped e text) o
  wrap-eq-map none text = L.wrap_nil text
  wrap-eq-map (some e) text = L.wrap_err e text
