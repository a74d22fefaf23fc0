-- ===== src/Memory/Layout.antt =====
-- What a deep copy is: how a type lies in memory, and when one of its values is a copy of another
-- that shares nothing with it.
use provider_stackrox.Base.{List, [], ◌++◌, ◌≡◌, refl, ap, ◌∙◌}
use provider_stackrox.Memory.Heap.{
  Addr, Heap, All-append, All-left, All-right, InUse, IsNew, Agree, Extends, Extends-refl,
  Extends-trans, Agree-Extends, InUse-Extends, IsNew-Extends,
}

-- The value behind all addresses, and the addresses on the way.
pub record Layout (C A V : Type 0) : Type 0 where
  pub view : A → Heap C → V
  pub refs : A → Heap C → List Addr

-- Both depend on the cells at these addresses only.
abbrev pub IsLocal : {C A V : Type 0} → Layout C A V → Type 0
IsLocal {C} {A} l =
    (x : A) (h h' : Heap C)
    → Agree h h' (l.refs x h)
    → (l.view x h' ≡ l.view x h) × (l.refs x h' ≡ l.refs x h)

-- `x'` in the memory `h'` is a deep copy of `x` in the memory `h`: of the same value, with nothing
-- but new addresses; and nothing that was in memory has changed.
pub record Copied {C A V : Type 0} (l : Layout C A V) (h : Heap C) (x : A) (h' : Heap C) (x' : A)
    : Type 0 where
  pub same : l.view x' h' ≡ l.view x h
  pub new : IsNew h (l.refs x' h')
  pub in_use : InUse h' (l.refs x' h')
  pub extends : Extends h h'

-- A function that makes deep copies.
abbrev pub CopiesDeep : {C A V : Type 0} → Layout C A V → (A → Heap C → A × Heap C) → Type 0
CopiesDeep {C} {A} l copy =
    (x : A) (h : Heap C) → InUse h (l.refs x h) → Copied l h x (copy x h).1 (copy x h).0

-- A value without addresses.
abbrev pub plain : {C A : Type 0} → Layout C A A
plain = record { view = λ x h. x; refs = λ x h. [] }

-- Two parts of a value, and a value by its parts: `whole` puts the value of the parts beside what
-- is no address.
abbrev pub both : {C A B V W : Type 0} → Layout C A V → Layout C B W → Layout C (A × B) (V × W)
both l m = record {
  view = λ p h. (l.view p.0 h, m.view p.1 h);
  refs = λ p h. l.refs p.0 h ++ m.refs p.1 h;
}

abbrev pub by_parts : {C A B V W : Type 0} → (B → A) → (B → V → W) → Layout C A V → Layout C B W
by_parts parts whole l = record {
  view = λ b h. whole b (l.view (parts b) h);
  refs = λ b h. l.refs (parts b) h;
}

module _ {C A : Type 0} where
  pub plain-IsLocal : IsLocal (plain {C = C} {A = A})
  plain-IsLocal x h h' a = (refl, refl)

  pub plain-Copied : (x : A) (h : Heap C) → Copied plain h x h x
  plain-Copied x h = record { same = refl; new = tt; in_use = tt; extends = Extends-refl h }

module _ {C A B V W : Type 0} (l : Layout C A V) (m : Layout C B W) where
  pub both-IsLocal : IsLocal l → IsLocal m → IsLocal (both l m)
  both-IsLocal here there (x, y) h h' agree =
      let p = here x h h' (All-left _ (l.refs x h) (m.refs y h) agree) in
      let q = there y h h' (All-right _ (l.refs x h) (m.refs y h) agree) in
      (rw (p.0, q.0) refl, rw (p.1, q.1) refl)

  -- The second part is copied in the memory that the copy of the first has left.
  pub both-Copied :
      IsLocal l
      → IsLocal m
      → (h h1 h2 : Heap C) (x x' : A) (y y' : B) → InUse h (l.refs x h ++ m.refs y h)
      → Copied l h x h1 x'
      → (InUse h1 (m.refs y h1) → Copied m h1 y h2 y')
      → Copied (both l m) h (x, y) h2 (x', y')
  both-Copied here there h h1 h2 x x' y y' used c next =
      let used_y = All-right _ (l.refs x h) (m.refs y h) used in
      let y_same = there y h h1 (Agree-Extends h h1 c.extends (m.refs y h) used_y) in
      let d = next (rw y_same.1 (InUse-Extends h h1 c.extends (m.refs y h) used_y)) in
      let x_same = here x' h1 h2 (Agree-Extends h1 h2 d.extends (l.refs x' h1) c.in_use) in
      record {
        same = rw (x_same.0, c.same, d.same, y_same.0) refl;
        new =
            All-append _ (l.refs x' h2) (m.refs y' h2) (rw x_same.1 c.new)
              (IsNew-Extends h h1 c.extends (m.refs y' h2) d.new);
        in_use =
            All-append _ (l.refs x' h2) (m.refs y' h2)
              (rw x_same.1 (InUse-Extends h1 h2 d.extends (l.refs x' h1) c.in_use)) d.in_use;
        extends = Extends-trans h h1 h2 c.extends d.extends;
      }

module _ {C A B V W : Type 0} (parts : B → A) (whole : B → V → W) (l : Layout C A V) where
  pub by_parts-IsLocal : IsLocal l → IsLocal (by_parts parts whole l)
  by_parts-IsLocal here b h h' agree = let p = here (parts b) h h' agree in (rw p.0 refl, p.1)

  pub by_parts-Copied :
      (h h' : Heap C) (b b' : B)
      → ((v : V) → whole b' v ≡ whole b v)
      → Copied l h (parts b) h' (parts b')
      → Copied (by_parts parts whole l) h b h' b'
  by_parts-Copied h h' b b' plain_same c = record {
    same = plain_same _ ∙ ap (whole b) c.same;
    new = c.new;
    in_use = c.in_use;
    extends = c.extends;
  }
