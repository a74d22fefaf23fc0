-- ===== src/Memory/Items.antt =====
-- Pointers to the elements of a slice, and GetItems of a list, whose result points into the list.
use mathlib.Core.Option
use mathlib.Core.Option.{none-ne-some}
use provider_stackrox.Base.{
  ℕ, zero, suc, ◌+◌, ◌≡◌, refl, sym, ap, ◌∙◌, Option, none, some, List, [], ◌∷◌, arith,
}
use provider_stackrox.Memory.Heap.{Addr, Heap, write}
use provider_stackrox.Memory.Cells.{Slot, IsSlot, read, read_written}

-- `&items[i]`: the address of the array, and the index.
abbrev pub Pointer : Type 0
Pointer = Addr × ℕ

module _ {A : Type 0} where
  abbrev pub get_elem? : List A → ℕ → Option A
  get_elem? [] i = none
  get_elem? (x ∷ xs) zero = some x
  get_elem? (x ∷ xs) (suc i) = get_elem? xs i

  -- The element at the index is replaced, if there is one.
  abbrev pub set_elem : List A → ℕ → A → List A
  set_elem [] i y = []
  set_elem (x ∷ xs) zero y = y ∷ xs
  set_elem (x ∷ xs) (suc i) y = x ∷ set_elem xs i y

  -- `for i := range l.Items { items[i] = &l.Items[i] }`, from the index `i` on
  unfoldable pub pointers : Addr → ℕ → List A → List Pointer
  pointers a i [] = []
  pointers a i (x ∷ xs) = (a, i) ∷ pointers a (suc i) xs

module _ {C A : Type 0} (s : Slot C (List A)) where
  unfoldable pub get_items : Option Addr → Heap C → List Pointer
  unfolding pointers
  get_items none h = []
  get_items (some a) h = pointers a 0 (read s a h)

  -- `*p`, and `*p = x`
  abbrev pub load : Heap C → Pointer → Option A
  load h p = get_elem? (read s p.0 h) p.1

  abbrev pub store : Pointer → A → Heap C → Heap C
  store p x h = write p.0 (s.put (set_elem (read s p.0 h) p.1 x)) h

module _ {A : Type 0} where
  -- The pointer at an index is there if the element is, and points to it.
  get_elem?-pointers :
      (a : Addr) (k : ℕ) (xs : List A) (i : ℕ)
      → get_elem? (pointers a k xs) i ≡ Option.map (λ x. (a, k + i)) (get_elem? xs i)
  unfolding pointers
  get_elem?-pointers a k [] i = refl
  get_elem?-pointers a k (x ∷ xs) zero = ap (λ n. some (a, n)) (omega arith)
  get_elem?-pointers a k (x ∷ xs) (suc i) =
      get_elem?-pointers a (suc k) xs i
      ∙ ap (λ n. Option.map (λ y. (a, n)) (get_elem? xs i)) (omega arith)

  set_elem-absent : (xs : List A) (i : ℕ) (y : A) → get_elem? xs i ≡ none → set_elem xs i y ≡ xs
  set_elem-absent [] i y e = refl
  set_elem-absent (x ∷ xs) zero y e = absurd (none-ne-some x (sym e))
  set_elem-absent (x ∷ xs) (suc i) y e = ap (λ r. x ∷ r) (set_elem-absent xs i y e)

module _ {C A : Type 0} (s : Slot C (List A)) where
  abbrev pub follow : Heap C → Option Pointer → Option A
  follow h none = none
  follow h (some p) = load s h p

  get_elem?-get_items :
      (a : Addr) (h : Heap C) (i : ℕ)
      → get_elem? (get_items s (some a) h) i ≡ Option.map (λ y. (a, i)) (get_elem? (read s a h) i)
  unfolding get_items
  get_elem?-get_items a h i =
      get_elem?-pointers a 0 (read s a h) i
      ∙ ap (λ n. Option.map (λ y. (a, n)) (get_elem? (read s a h) i)) (omega arith)

  follow_back :
      (a : Addr) (h : Heap C) (i : ℕ) (o : Option A)
      → o ≡ get_elem? (read s a h) i
      → follow h (Option.map (λ y. (a, i)) o) ≡ o
  follow_back a h i none e = refl
  follow_back a h i (some y) e = sym e

  -- A write through a pointer, if there is one
  abbrev pub store_at : Option Pointer → A → Heap C → Heap C
  store_at none x h = h
  store_at (some p) x h = store s p x h

  store_back :
      IsSlot s
      → (a : Addr) (h : Heap C) (i : ℕ) (x : A) (o : Option A) → get_elem? (read s a h) i ≡ o
      → read s a (store_at (Option.map (λ y. (a, i)) o) x h) ≡ set_elem (read s a h) i x
  store_back law a h i x none e = sym (set_elem-absent (read s a h) i x e)
  store_back law a h i x (some y) e = read_written s law a (set_elem (read s a h) i x) h

  -- The pointers are those to the items of a slice, one for each and in their order: there is none
  -- for a nil slice; there is one at an index exactly if there is an item, and it has the array's
  -- address and this index; a read through it gives the item, and a write through it replaces the
  -- item in the slice, and no other.
  abbrev pub PointsToItems : Option Addr → Heap C → List Pointer → Type 0
  PointsToItems none h pointers = pointers ≡ []
  PointsToItems (some a) h pointers =
      (i : ℕ) (x : A)
      → (get_elem? pointers i ≡ Option.map (λ y. (a, i)) (get_elem? (read s a h) i))
        × (follow h (get_elem? pointers i) ≡ get_elem? (read s a h) i)
        × (read s a (store_at (get_elem? pointers i) x h) ≡ set_elem (read s a h) i x)

  pub get_items-PointsToItems :
      IsSlot s → (items : Option Addr) (h : Heap C) → PointsToItems items h (get_items s items h)
  unfolding get_items
  get_items-PointsToItems law none h = refl
  get_items-PointsToItems law (some a) h = λ i x.
      let at = get_elem?-get_items a h i in
      (
        at,
        ap (follow h) at ∙ follow_back a h i (get_elem? (read s a h) i) refl,
        ap (λ p. read s a (store_at p x h)) at
            ∙ store_back law a h i x (get_elem? (read s a h) i) refl,
      )
