-- ===== src/Deps/Scheme.antt =====
-- k8s.io/apimachinery (schema, runtime.Scheme, runtime.SchemeBuilder) and the Builder of
-- controller-runtime's package scheme. A scheme is behind a pointer: what it holds is in the world.
use mathlib.Core.List.{Memᴰ}
use provider_stackrox.Base.{String, ◌≡◌, Option, none, some, List, [], ◌∷◌, ◌++◌}

pub record GroupVersion : Type 0 where
  pub group : String
  pub version : String

pub record GroupVersionKind : Type 0 where
  pub group_version : GroupVersion
  pub kind : String

pub record GroupKind : Type 0 where
  pub group : String
  pub kind : String

-- GroupVersion.WithKind
abbrev pub with_kind : GroupVersion → String → GroupVersionKind
with_kind gv k = record { group_version = gv; kind = k }

pub record SchemeLib (World Error Object : Type 0) : Type 1 where
  -- GroupKind.String() and GroupVersion.String()
  pub group_kind_string : GroupKind → String
  pub group_version_string : GroupVersion → String
  pub Scheme : Type 0
  -- scheme.Builder: &scheme.Builder{GroupVersion: …}, Register and AddToScheme
  pub Builder : Type 0
  pub builder : GroupVersion → Builder
  pub register : Builder → List Object → Builder
  pub add_to_scheme : Builder → Scheme → World → Option Error × World
  -- runtime.SchemeBuilder.AddToScheme
  pub apply_all :
      List (Scheme → World → Option Error × World) → Scheme → World → Option Error × World

-- What is documented of them. A builder adds all the types that were registered with it, under the
-- names of the types; runtime.SchemeBuilder applies its functions in turn, and an error means that
-- one function failed and that the attempt was abandoned.
pub record IsSchemeLib {World Error Object : Type 0} (S : SchemeLib World Error Object)
    (type_name : Object → String) : Type 1 where
  pub version_of : S.Builder → GroupVersion
  pub registered : S.Builder → List Object
  pub version_of-builder : (gv : GroupVersion) → version_of (S.builder gv) ≡ gv
  pub registered-builder : (gv : GroupVersion) → registered (S.builder gv) ≡ []
  pub version_of-register :
      (b : S.Builder) (l : List Object) → version_of (S.register b l) ≡ version_of b
  pub registered-register :
      (b : S.Builder) (l : List Object) → registered (S.register b l) ≡ registered b ++ l
  -- The scheme knows objects of the type by this kind.
  pub Knows : S.Scheme → World → Object → GroupVersionKind → Type 0
  pub knows_added :
      (b : S.Builder) (s : S.Scheme) (w : World)
      → (S.add_to_scheme b s w).0 ≡ none
      → (o : Object) → Memᴰ o (registered b)
      → Knows s (S.add_to_scheme b s w).1 o (with_kind (version_of b) (type_name o))
  pub knows_still :
      (b : S.Builder) (s : S.Scheme) (w : World) (o : Object) (k : GroupVersionKind)
      → Knows s w o k
      → Knows s (S.add_to_scheme b s w).1 o k
  pub apply_all_none : (s : S.Scheme) (w : World) → S.apply_all [] s w ≡ (none, w)
  pub apply_all_first :
      (f : S.Scheme → World → Option Error × World)
      (rest : List (S.Scheme → World → Option Error × World)) (s : S.Scheme) (w : World)
      → S.apply_all (f ∷ rest) s w
        ≡ elim (f s w).0 [ some e ↦ (some e, (f s w).1) | none ↦ S.apply_all rest s (f s w).1 ]
