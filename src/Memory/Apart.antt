-- ===== src/Memory/Apart.antt =====
-- What a deep copy is good for: a write through the copy is not seen through its source, nor a write
-- through the source through the copy.
use Prim.Native.Nat.{◌≤◌, ◌<◌}
use provider_stackrox.Base.{List, [], ◌∷◌, ◌≡◌, refl, ◌∙◌, arith}
use provider_stackrox.Memory.Heap.{Addr, Heap, write, All, All-map, InUse}
use provider_stackrox.Memory.Layout.{Layout, IsLocal, Copied}

module _ {C : Type 0} where
  -- Writes, the first of the list first.
  unfoldable pub write_each : List (Addr × C) → Heap C → Heap C
  write_each [] h = h
  write_each ((a, c) ∷ rest) h = write_each rest (write a c h)

  -- All of them at addresses that were in use, or all at addresses that were not.
  abbrev pub WritesOld : Heap C → List (Addr × C) → Type 0
  WritesOld h = All (λ w. w.0 < h.next)

  abbrev pub WritesNew : Heap C → List (Addr × C) → Type 0
  WritesNew h = All (λ w. h.next ≤ w.0)

  cell-old :
      (a : Addr) (ws : List (Addr × C)) (h h0 : Heap C)
      → a < h0.next
      → WritesNew h0 ws
      → (write_each ws h).cell a ≡ h.cell a
  unfolding write_each write
  cell-old a [] h h0 lt w = refl
  cell-old a ((b, c) ∷ rest) h h0 lt w =
      ground (arith, cell-old a rest (write b c h) h0 lt w.1, w.0)

  cell-new :
      (a : Addr) (ws : List (Addr × C)) (h h0 : Heap C)
      → h0.next ≤ a
      → WritesOld h0 ws
      → (write_each ws h).cell a ≡ h.cell a
  unfolding write_each write
  cell-new a [] h h0 le w = refl
  cell-new a ((b, c) ∷ rest) h h0 le w =
      ground (arith, cell-new a rest (write b c h) h0 le w.1, w.0)

module _ {C A V : Type 0} (l : Layout C A V) (here : IsLocal l) where
  pub source_kept :
      (h h' : Heap C) (x x' : A)
      → InUse h (l.refs x h)
      → Copied l h x h' x'
      → (ws : List (Addr × C)) → WritesNew h ws
      → l.view x (write_each ws h') ≡ l.view x h
  source_kept h h' x x' used c ws new =
      (here x h (write_each ws h') (
        All-map (λ a. a < h.next) (λ a. (write_each ws h').cell a ≡ h.cell a)
          (λ a lt. cell-old a ws h' h lt new ∙ c.extends.kept a lt) (l.refs x h) used)).0

  pub copy_kept :
      (h h' : Heap C) (x x' : A)
      → Copied l h x h' x'
      → (ws : List (Addr × C)) → WritesOld h ws
      → l.view x' (write_each ws h') ≡ l.view x h
  copy_kept h h' x x' c ws old =
      (here x' h' (write_each ws h') (
        All-map (λ a. h.next ≤ a) (λ a. (write_each ws h').cell a ≡ h'.cell a)
          (λ a le. cell-new a ws h' h le old) (l.refs x' h') c.new)).0
      ∙ c.same
