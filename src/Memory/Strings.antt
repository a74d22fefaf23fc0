-- ===== src/Memory/Strings.antt =====
-- Maps of strings: a range over one, and the loop that copies one.
use mathlib.Core.Path.{fun_ext}
use provider_stackrox.Base.{
  String, Option, none, some, [], ◌∷◌, ◌≡◌, refl, arith, ◌==◌, eq_iff, if◌then◌else◌,
}
use provider_stackrox.Base.GoMap.{Entries, find, assign, find-assign}
use provider_stackrox.Memory.Heap.{Heap, Extends-refl}
use provider_stackrox.Memory.Layout.{Layout, IsLocal, CopiesDeep}

abbrev pub Strings : Type 0
Strings = Entries String

unfoldable pub forget : String → Strings → Strings
forget key [] = []
forget key ((k, v) ∷ rest) = if k == key then forget key rest else (k, v) ∷ forget key rest

-- A range visits each key once, with the value that a read of the key gives.
unfoldable pub range : Strings → Strings
unfolding forget
range [] = []
range ((k, v) ∷ rest) = (k, v) ∷ forget k (range rest)

-- `for key, val := range *in { (*out)[key] = val }`
unfoldable pub assign_each : Strings → Strings → Strings
assign_each out [] = out
assign_each out ((key, val) ∷ rest) = assign_each (assign out key val) rest

unfoldable pub copy_strings : {C : Type 0} → Strings → Heap C → Strings × Heap C
unfolding range assign_each
copy_strings in_ h = (assign_each [] (range in_), h)

-- A map is what reads of it give: the order of its entries is not in its value.
abbrev pub strings : {C : Type 0} → Layout C Strings (String → Option String)
strings = record { view = λ m h. find m; refs = λ m h. [] }

abbrev orelse : Option String → Option String → Option String
orelse none d = d
orelse (some v) d = some v

-- The value that comes last under the key.
abbrev late : Strings → String → Option String
late [] key = none
late ((k, v) ∷ rest) key = orelse (late rest key) (if k == key then some v else none)

find-assign_each :
    (out l : Strings) (key : String)
    → find (assign_each out l) key ≡ orelse (late l key) (find out key)
unfolding assign_each
find-assign_each out [] key = refl
find-assign_each out ((k, v) ∷ rest) key =
    ground (arith, find-assign_each (assign out k v) rest key, find-assign out k v key)

late-forget :
    (l : Strings) (k key : String) → late (forget k l) key ≡ (if k == key then none else late l key)
unfolding forget
late-forget [] k key = ground arith
late-forget ((j, v) ∷ rest) k key =
    ground (arith, late-forget rest k key, eq_iff j k, eq_iff j key, eq_iff k key)

late-range : (m : Strings) (key : String) → late (range m) key ≡ find m key
unfolding range find
late-range [] key = refl
late-range ((k, v) ∷ rest) key =
    ground (arith, late-forget (range rest) k key, late-range rest key, eq_iff k key)

copied : (m : Strings) (key : String) → find (assign_each [] (range m)) key ≡ find m key
unfolding find
copied m key = ground (arith, find-assign_each [] (range m) key, late-range m key)

module _ {C : Type 0} where
  pub strings-IsLocal : IsLocal (strings {C = C})
  strings-IsLocal m h h' agree = (refl, refl)

  pub copy_strings-CopiesDeep : CopiesDeep (strings {C = C}) copy_strings
  unfolding copy_strings
  copy_strings-CopiesDeep m h used = record {
    same = fun_ext (copied m);
    new = tt;
    in_use = tt;
    extends = Extends-refl h;
  }
