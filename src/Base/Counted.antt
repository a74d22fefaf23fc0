-- ===== src/Base/Counted.antt =====
-- How many items of a list have a name, after a removal by identifier.
use Prim.Native.Nat.{ℕ, suc, ◌≤◌}
use Prim.Native.String.{String}
use mathlib.Core.Path.{◌≡◌}
use mathlib.Core.Option.{some}
use mathlib.Core.List.{List, [], ◌∷◌}
use native.Mathlib.Omega.{arith}
use text.Mathlib.Text.{◌==◌}
use text.Mathlib.TextEquality.{eq_iff}
use provider_stackrox.Base.Tests.{if◌then◌else◌}
use provider_stackrox.Base.Named.{find_name, remove_id}

module _ {A : Type 0} (name_of : A → String) where
  unfoldable pub count_name : String → List A → ℕ
  count_name name [] = 0
  count_name name (it ∷ rest) =
      let n = count_name name rest in if name_of it == name then suc n else n

module _ {A : Type 0} (name_of id_of : A → String) where
  count_name-remove_id :
      (name id : String) (l : List A)
      → count_name name_of name (remove_id id_of id l) ≤ count_name name_of name l
  unfolding count_name remove_id
  count_name-remove_id name id [] = ground arith
  count_name-remove_id name id (it ∷ rest) = ground (arith, count_name-remove_id name id rest)

  -- Removing the identifier of the first item of the name leaves fewer of the name.
  pub count_name-remove_first :
      (name : String) (l : List A) (c : A)
      → find_name name_of name l ≡ some c
      → suc (count_name name_of name (remove_id id_of (id_of c) l)) ≤ count_name name_of name l
  unfolding count_name find_name remove_id
  count_name-remove_first name [] c f = cc
  count_name-remove_first name (it ∷ rest) c f = ground (
    arith,
    eq_iff (id_of it) (id_of c),
    eq_iff (name_of it) name,
    count_name-remove_id name (id_of c) rest,
    count_name-remove_first name rest c,
  )
