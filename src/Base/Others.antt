-- ===== src/Base/Others.antt =====
-- Looking up another name than the one whose items are replaced, removed or added.
use Prim.Native.String.{String}
use mathlib.Core.Path.{◌≡◌, refl}
use mathlib.Core.Logic.{◌≢◌}
use mathlib.Core.List.{List, [], ◌∷◌, ◌++◌}
use native.Mathlib.Omega.{arith}
use text.Mathlib.TextEquality.{eq_iff}
use provider_stackrox.Base.Named.{find_name, replace_id, remove_id, OnlyId}

module _ {A : Type 0} (name_of id_of : A → String) where
  -- `OnlyId` with the functions exchanged: every item of this identifier has that name.
  pub find_name_other-replace_id :
      (name other : String) (l : List A) (req : A)
      → OnlyId id_of name_of (id_of req) name l
      → name_of req ≡ name
      → other ≢ name
      → find_name name_of other (replace_id id_of req l) ≡ find_name name_of other l
  unfolding find_name replace_id
  find_name_other-replace_id name other [] req h n o = refl
  find_name_other-replace_id name other (it ∷ rest) req h n o = ground (
    arith,
    eq_iff (name_of it) other,
    eq_iff (name_of req) other,
    eq_iff (id_of it) (id_of req),
    find_name_other-replace_id name other rest req,
  )

  pub find_name_other-remove_id :
      (name other id : String) (l : List A)
      → OnlyId id_of name_of id name l
      → other ≢ name
      → find_name name_of other (remove_id id_of id l) ≡ find_name name_of other l
  unfolding find_name remove_id
  find_name_other-remove_id name other id [] h o = refl
  find_name_other-remove_id name other id (it ∷ rest) h o = ground (
    arith,
    eq_iff (name_of it) other,
    eq_iff (id_of it) id,
    find_name_other-remove_id name other id rest,
  )

module _ {A : Type 0} (name_of : A → String) where
  pub find_name_other-append :
      (other : String) (l : List A) (c : A)
      → name_of c ≢ other
      → find_name name_of other (l ++ (c ∷ [])) ≡ find_name name_of other l
  unfolding find_name
  find_name_other-append other [] c o = ground (arith, eq_iff (name_of c) other)
  find_name_other-append other (it ∷ rest) c o =
      ground (arith, eq_iff (name_of it) other, find_name_other-append other rest c)
