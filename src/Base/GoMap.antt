-- ===== src/Base/GoMap.antt =====
-- Go's maps with string keys: `nil`, or a list of entries in which the first one of a key counts.
-- The program never depends on the order of iteration.
use Prim.Native.String.{String}
use mathlib.Core.Path.{◌≡◌, refl}
use mathlib.Core.Option.{Option, none, some}
use mathlib.Core.List.{List, [], ◌∷◌}
use native.Mathlib.Omega.{arith}
use text.Mathlib.Text.{◌==◌}
use text.Mathlib.TextEquality.{eq_iff}
use provider_stackrox.Base.Tests.{if◌then◌else◌}

abbrev pub Entries {ℓ} : Type ℓ → Type ℓ
Entries V = List (String × V)

-- `none` is the nil map.
abbrev pub GoMap {ℓ} : Type ℓ → Type ℓ
GoMap V = Option (Entries V)

module _ {ℓ} {V : Type ℓ} where
  unfoldable pub find : Entries V → String → Option V
  find [] key = none
  find ((k, v) ∷ rest) key = if k == key then some v else find rest key

  -- `m[key] = value` on a map that is not nil.
  unfoldable pub assign : Entries V → String → V → Entries V
  assign [] key value = (key, value) ∷ []
  assign ((k, v) ∷ rest) key value =
      if k == key then (k, value) ∷ rest else (k, v) ∷ assign rest key value

  -- `m[key]`, with the `ok` of Go's two-valued read as the constructor.
  abbrev pub get : GoMap V → String → Option V
  get none key = none
  get (some m) key = find m key

  pub find-assign :
      (m : Entries V) (key : String) (value : V) (asked : String)
      → find (assign m key value) asked ≡ (if key == asked then some value else find m asked)
  unfolding find assign
  find-assign [] key value asked = refl
  find-assign ((k, v) ∷ rest) key value asked =
      ground
        (arith, find-assign rest key value asked, eq_iff k key, eq_iff k asked, eq_iff key asked)

-- The same keys with the same values; a nil map and an empty one agree.
abbrev pub SameMap {ℓ} : {V : Type ℓ} → GoMap V → GoMap V → Type ℓ
SameMap m n = (key : String) → get m key ≡ get n key
