-- ===== src/Memory/Cells.antt =====
-- Maps and slices behind an address, the lists of their elements, and how both are copied.
use provider_stackrox.Base.{
  Option, none, some, List, [], ◌∷◌, ◌++◌, ◌≡◌, refl, ap, ◌∙◌, arith, get_or,
}
use provider_stackrox.Memory.Heap.{
  Addr, Heap, All-left, All-right, InUse, alloc, write, alloc-Extends, Agree-Extends, Extends-refl,
  cell-write, above_alloc, InUse-write, alloc-InUse, InUse-Extends, IsNew-Extends, write-Agree,
  write-alloc-Extends,
}
use provider_stackrox.Memory.Layout.{
  Layout, IsLocal, Copied, CopiesDeep, both-Copied, plain, plain-Copied,
}

-- One kind of content that a cell can have.
pub record Slot (C X : Type 0) : Type 0 where
  pub put : X → C
  pub take : C → Option X
  pub missing : X

-- What is put into a cell is taken out of it.
abbrev pub IsSlot : {C X : Type 0} → Slot C X → Type 0
IsSlot {C} {X} s = (x : X) → s.take (s.put x) ≡ some x

module _ {C X : Type 0} (s : Slot C X) where
  abbrev pub content : Option C → X
  content none = s.missing
  content (some c) = get_or (s.take c) s.missing

  -- A read through an address; a cell of another kind does not occur, and reads as `missing`.
  abbrev pub read : Addr → Heap C → X
  read a h = content (h.cell a)

  module _ {V : Type 0} (l : Layout C X V) where
    abbrev pub view_behind : Option Addr → Heap C → Option V
    view_behind none h = none
    view_behind (some a) h = some (l.view (read a h) h)

    abbrev pub refs_behind : Option Addr → Heap C → List Addr
    refs_behind none h = []
    refs_behind (some a) h = a ∷ l.refs (read a h) h

    -- A nil map or slice, or the content behind its address.
    abbrev pub behind : Layout C (Option Addr) (Option V)
    behind = record { view = view_behind; refs = refs_behind }

  -- `if in != nil { *out = make(…); … }`: a new cell, into which the copy of the content goes.
  unfoldable pub copy_behind :
      X → (X → Heap C → X × Heap C) → Option Addr → Heap C → Option Addr × Heap C
  copy_behind made copy none h = (none, h)
  copy_behind made copy (some a) h =
      let (b, h1) = alloc (s.put made) h in
      let (x, h2) = copy (read a h) h1 in (some b, write b (s.put x) h2)

  pub read_written : IsSlot s → (b : Addr) (x : X) (h : Heap C) → read b (write b (s.put x) h) ≡ x
  read_written law b x h = rw (cell-write b (s.put x) h) (rw (law x) refl)

  module _ {V : Type 0} (l : Layout C X V) where
    pub behind-IsLocal : IsLocal l → IsLocal (behind l)
    behind-IsLocal here none h h' agree = (refl, refl)
    behind-IsLocal here (some a) h h' agree =
        let p = here (read a h) h h' agree.1 in (rw agree.0 (rw p.0 refl), rw agree.0 (rw p.1 refl))

    module _ (law : IsSlot s) (here : IsLocal l) where
      behind-Copied :
          (made : X) (h h2 : Heap C) (a : Addr) (x : X)
          → InUse h (a ∷ l.refs (read a h) h)
          → Copied l (alloc (s.put made) h).1 (read a h) h2 x
          → Copied (behind l) h (some a) (write h.next (s.put x) h2) (some h.next)
      behind-Copied made h h2 a x used c =
          let h1 = (alloc (s.put made) h).1 in
          let h3 = write h.next (s.put x) h2 in
          let apart =
            write-Agree h.next (s.put x) h2 (l.refs x h2)
              (above_alloc (s.put made) h (l.refs x h2) c.new) in
          let x_same = here x h2 h3 apart in
          let source =
            here (read a h) h h1
              (Agree-Extends h h1 (alloc-Extends (s.put made) h) (l.refs (read a h) h) used.1) in
          record {
            same = rw (read_written law h.next x h2) (ap some (x_same.0 ∙ c.same ∙ source.0));
            new = rw (read_written law h.next x h2) (
              omega arith,
              rw x_same.1 (IsNew-Extends h h1 (alloc-Extends (s.put made) h) (l.refs x h2) c.new),
            );
            in_use = rw (read_written law h.next x h2) (
              alloc-InUse (s.put made) (s.put x) h h2 c.extends,
              rw x_same.1 (InUse-write h.next (s.put x) h2 (l.refs x h2) c.in_use),
            );
            extends = write-alloc-Extends (s.put made) (s.put x) h h2 c.extends;
          }

      pub copy_behind-CopiesDeep :
          (made : X) (copy : X → Heap C → X × Heap C)
          → CopiesDeep l copy
          → CopiesDeep (behind l) (copy_behind made copy)
      unfolding copy_behind
      copy_behind-CopiesDeep made copy deep none h used = record {
        same = refl;
        new = tt;
        in_use = tt;
        extends = Extends-refl h;
      }
      copy_behind-CopiesDeep made copy deep (some a) h used =
          let h1 = (alloc (s.put made) h).1 in
          let e = alloc-Extends (s.put made) h in
          let l_used = InUse-Extends h h1 e (l.refs (read a h) h) used.1 in
          let p = here (read a h) h h1 (Agree-Extends h h1 e (l.refs (read a h) h) used.1) in
          let r = copy (read a h) h1 in
          unfold alloc in (behind-Copied made h r.1 a r.0 used (deep (read a h) h1 (rw p.1 l_used)))

-- The elements of a slice.
module _ {C A V : Type 0} (l : Layout C A V) where
  abbrev pub view_items : List A → Heap C → List V
  view_items [] h = []
  view_items (x ∷ xs) h = l.view x h ∷ view_items xs h

  abbrev pub refs_items : List A → Heap C → List Addr
  refs_items [] h = []
  refs_items (x ∷ xs) h = l.refs x h ++ refs_items xs h

  abbrev pub items : Layout C (List A) (List V)
  items = record { view = view_items; refs = refs_items }

-- `for i := range *in { (*in)[i].DeepCopyInto(&(*out)[i]) }`: the elements of the new array.
unfoldable pub copy_items :
    {C A : Type 0} → (A → Heap C → A × Heap C) → List A → Heap C → List A × Heap C
copy_items copy [] h = ([], h)
copy_items copy (x ∷ xs) h =
    let (x', h1) = copy x h in let (xs', h2) = copy_items copy xs h1 in (x' ∷ xs', h2)

-- `copy(*out, *in)`
unfoldable pub copy_all : {C A : Type 0} → List A → Heap C → List A × Heap C
copy_all xs h = (xs, h)

module _ {C A V : Type 0} (l : Layout C A V) (here : IsLocal l) where
  pub items-IsLocal : IsLocal (items l)
  items-IsLocal [] h h' agree = (refl, refl)
  items-IsLocal (x ∷ xs) h h' agree =
      let p = here x h h' (All-left _ (l.refs x h) (refs_items l xs h) agree) in
      let q = items-IsLocal xs h h' (All-right _ (l.refs x h) (refs_items l xs h) agree) in
      (rw (p.0, q.0) refl, rw (p.1, q.1) refl)

  pub copy_items-CopiesDeep :
      (copy : A → Heap C → A × Heap C) → CopiesDeep l copy → CopiesDeep (items l) (copy_items copy)
  unfolding copy_items
  copy_items-CopiesDeep copy deep [] h used = record {
    same = refl;
    new = tt;
    in_use = tt;
    extends = Extends-refl h;
  }
  copy_items-CopiesDeep copy deep (x ∷ xs) h used =
      let r = copy x h in
      let rs = copy_items copy xs r.1 in
      let c =
        both-Copied l (items l) here items-IsLocal h r.1 rs.1 x r.0 xs rs.0 used
          (deep x h (All-left _ (l.refs x h) (refs_items l xs h) used))
          (copy_items-CopiesDeep copy deep xs r.1) in
      record {
        same = ap (λ p. p.0 ∷ p.1) c.same;
        new = c.new;
        in_use = c.in_use;
        extends = c.extends;
      }

module _ {C A : Type 0} where
  pub copy_all-CopiesDeep : CopiesDeep (plain {C = C} {A = List A}) copy_all
  unfolding copy_all
  copy_all-CopiesDeep xs h used = plain-Copied xs h
