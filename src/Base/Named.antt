-- ===== src/Base/Named.antt =====
-- Lists of things that have a name and an identifier: the first of a name, as the controllers look
-- it up, and the list after a replacement or a removal by identifier.
use Prim.Native.String.{String}
use mathlib.Core.Path.{◌≡◌, refl, ap}
use mathlib.Core.Logic.{◌≢◌, ◌↔◌, inl, inr}
use mathlib.Core.Option.{Option, none, some, none-ne-some}
use mathlib.Core.List.{List, [], ◌∷◌, ◌++◌}
use native.Mathlib.Omega.{arith}
use text.Mathlib.Text.{◌==◌}
use text.Mathlib.TextEquality.{eq_iff}
use provider_stackrox.Base.Tests.{if◌then◌else◌, Bool-cases}

module _ {A : Type 0} (name_of : A → String) where
  -- `for _, it := range l { if it.GetName() == name { return it } }`, with `none` for falling through.
  unfoldable pub find_name : String → List A → Option A
  find_name name [] = none
  find_name name (it ∷ rest) = if name_of it == name then some it else find_name name rest

  -- No item of the list has the name.
  abbrev pub Unnamed : String → List A → Type 0
  Unnamed name [] = Unit
  Unnamed name (it ∷ rest) = (name_of it ≢ name) × Unnamed name rest

  -- The item is the first of its name.
  pub record IsFirst (name : String) (l : List A) (c : A) : Type 0 where
    pub before : List A
    pub after : List A
    pub split : l ≡ before ++ (c ∷ after)
    pub named : name_of c ≡ name
    pub before_unnamed : Unnamed name before

  pub find_name-none : (name : String) (l : List A) → (find_name name l ≡ none) ↔ Unnamed name l
  unfolding find_name
  find_name-none name [] = (λ _. tt, λ _. refl)
  find_name-none name (it ∷ rest) =
      ground (arith, eq_iff (name_of it) name, find_name-none name rest)

  pub find_name-named :
      (name : String) (l : List A) (c : A) → find_name name l ≡ some c → name_of c ≡ name
  unfolding find_name
  find_name-named name [] c h = cc
  find_name-named name (it ∷ rest) c h =
      ground (arith, eq_iff (name_of it) name, find_name-named name rest c)

  pub find_name-append :
      (name : String) (l : List A) (c : A)
      → find_name name l ≡ none
      → name_of c ≡ name
      → find_name name (l ++ (c ∷ [])) ≡ some c
  unfolding find_name
  find_name-append name [] c h n = ground (arith, eq_iff (name_of c) name)
  find_name-append name (it ∷ rest) c h n =
      ground (arith, eq_iff (name_of it) name, find_name-append name rest c)

  pub find_name-IsFirst :
      (name : String) (l : List A) (c : A) → find_name name l ≡ some c → IsFirst name l c
  unfolding find_name
  find_name-IsFirst name [] c h = absurd (none-ne-some c h)
  find_name-IsFirst name (it ∷ rest) c h = elim (Bool-cases (name_of it == name)) [
    | inl e ↦ record {
      before = [];
      after = rest;
      split = ground arith;
      named = ground (arith, eq_iff (name_of it) name);
      before_unnamed = tt;
    }
    | inr e ↦
        let later : IsFirst name rest c = find_name-IsFirst name rest c (ground arith) in
        record {
          before = it ∷ later.before;
          after = later.after;
          split = ap (λ l. it ∷ l) later.split;
          named = later.named;
          before_unnamed = (ground (arith, eq_iff (name_of it) name), later.before_unnamed);
        }
  ]

  find_name-past :
      (name : String) (before after : List A) (c : A)
      → name_of c ≡ name
      → Unnamed name before
      → find_name name (before ++ (c ∷ after)) ≡ some c
  unfolding find_name
  find_name-past name [] after c n u = ground (arith, eq_iff (name_of c) name)
  find_name-past name (it ∷ before) after c n u =
      ground (arith, eq_iff (name_of it) name, find_name-past name before after c n u.1)

  pub IsFirst-find_name :
      (name : String) (l : List A) (c : A) → IsFirst name l c → find_name name l ≡ some c
  IsFirst-find_name name l c h =
      rw h.split (find_name-past name h.before h.after c h.named h.before_unnamed)

module _ {A : Type 0} (id_of : A → String) where
  -- The list after every item of this identifier has been replaced, or removed.
  unfoldable pub replace_id : A → List A → List A
  replace_id new [] = []
  replace_id new (it ∷ rest) = (if id_of it == id_of new then new else it) ∷ replace_id new rest

  unfoldable pub remove_id : String → List A → List A
  remove_id id [] = []
  remove_id id (it ∷ rest) =
      let kept = remove_id id rest in if id_of it == id then kept else it ∷ kept

module _ {A : Type 0} (name_of id_of : A → String) where
  -- Every item of that name has this identifier.
  abbrev pub OnlyId : (name id : String) → List A → Type 0
  OnlyId name id [] = Unit
  OnlyId name id (it ∷ rest) = (name_of it ≡ name → id_of it ≡ id) × OnlyId name id rest

  pub OnlyId-append :
      (name : String) (l : List A) (x : A)
      → find_name name_of name l ≡ none
      → OnlyId name (id_of x) (l ++ (x ∷ []))
  unfolding find_name
  OnlyId-append name [] x h = (λ e. refl, tt)
  OnlyId-append name (it ∷ rest) x h = (
    λ e. ground (arith, eq_iff (name_of it) name, h),
    OnlyId-append name rest x (ground (arith, eq_iff (name_of it) name, h)),
  )

  pub find_name-replace_id :
      (name : String) (l : List A) (c req : A)
      → find_name name_of name l ≡ some c
      → name_of req ≡ name
      → id_of req ≡ id_of c
      → find_name name_of name (replace_id id_of req l) ≡ some req
  unfolding find_name replace_id
  find_name-replace_id name [] c req h n i = cc
  find_name-replace_id name (it ∷ rest) c req h n i = ground (
    arith,
    eq_iff (name_of it) name,
    eq_iff (name_of req) name,
    eq_iff (id_of it) (id_of req),
    find_name-replace_id name rest c req,
  )

  pub find_name-remove_id :
      (name id : String) (l : List A)
      → OnlyId name id l
      → find_name name_of name (remove_id id_of id l) ≡ none
  unfolding find_name remove_id
  find_name-remove_id name id [] h = refl
  find_name-remove_id name id (it ∷ rest) h =
      ground
        (arith, eq_iff (name_of it) name, eq_iff (id_of it) id, find_name-remove_id name id rest)
