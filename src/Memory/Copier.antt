-- ===== src/Memory/Copier.antt =====
-- Types with their deep copies, and how the copy of a struct is put together from those of its parts.
use provider_stackrox.Base.{String, Option, List, ◌≡◌}
use provider_stackrox.Memory.Heap.{Heap, Addr, All-left}
use provider_stackrox.Memory.Layout.{
  Layout, IsLocal, CopiesDeep, plain, both, by_parts, plain-IsLocal, plain-Copied, both-IsLocal,
  both-Copied, by_parts-IsLocal, by_parts-Copied,
}
use provider_stackrox.Memory.Strings.{
  Strings, strings, copy_strings, strings-IsLocal, copy_strings-CopiesDeep,
}
use provider_stackrox.Memory.Cells.{
  Slot, IsSlot, behind, items, copy_behind, copy_items, copy_all, behind-IsLocal, items-IsLocal,
  copy_behind-CopiesDeep, copy_items-CopiesDeep, copy_all-CopiesDeep,
}

-- How a type lies in memory, and its DeepCopyInto.
pub record Copier (C A V : Type 0) : Type 0 where
  pub layout : Layout C A V
  pub copy_into : A → Heap C → A × Heap C

pub record IsDeep {C A V : Type 0} (c : Copier C A V) : Type 0 where
  pub is_local : IsLocal c.layout
  pub copies_deep : CopiesDeep c.layout c.copy_into

module _ {C A : Type 0} where
  -- A type without addresses: `*out = *in`.
  abbrev pub plain_copier : Copier C A A
  plain_copier = record { layout = plain; copy_into = λ x h. (x, h) }

  pub plain_copier-IsDeep : IsDeep plain_copier
  plain_copier-IsDeep = record {
    is_local = plain-IsLocal;
    copies_deep = λ x h used. plain-Copied x h;
  }

  abbrev pub all_copier : Copier C (List A) (List A)
  all_copier = record { layout = plain; copy_into = copy_all }

  pub all_copier-IsDeep : IsDeep all_copier
  all_copier-IsDeep = record { is_local = plain-IsLocal; copies_deep = copy_all-CopiesDeep }

module _ {C : Type 0} where
  abbrev pub strings_copier : Copier C Strings (String → Option String)
  strings_copier = record { layout = strings; copy_into = copy_strings }

  pub strings_copier-IsDeep : IsDeep strings_copier
  strings_copier-IsDeep = record {
    is_local = strings-IsLocal;
    copies_deep = copy_strings-CopiesDeep;
  }

module _ {C A V : Type 0} where
  -- What is behind a map or a slice that may be nil, with the content that `make` gives it.
  abbrev pub pointer : Slot C A → A → Copier C A V → Copier C (Option Addr) (Option V)
  pointer s made c = record {
    layout = behind s c.layout;
    copy_into = copy_behind s made c.copy_into;
  }

  pub pointer-IsDeep :
      (s : Slot C A) (made : A) {c : Copier C A V} → IsSlot s → IsDeep c → IsDeep (pointer s made c)
  pointer-IsDeep s made {c} law d = record {
    is_local = behind-IsLocal s c.layout d.is_local;
    copies_deep = copy_behind-CopiesDeep s c.layout law d.is_local made c.copy_into d.copies_deep;
  }

  abbrev pub elements : Copier C A V → Copier C (List A) (List V)
  elements c = record { layout = items c.layout; copy_into = copy_items c.copy_into }

  pub elements-IsDeep : {c : Copier C A V} → IsDeep c → IsDeep (elements c)
  elements-IsDeep {c} d = record {
    is_local = items-IsLocal c.layout d.is_local;
    copies_deep = copy_items-CopiesDeep c.layout d.is_local c.copy_into d.copies_deep;
  }

-- Parts of a struct, one after another.
abbrev pub in_turn :
    {C A B : Type 0}
    → (A → Heap C → A × Heap C)
    → (B → Heap C → B × Heap C)
    → A × B
    → Heap C
    → (A × B) × Heap C
in_turn copy_a copy_b (a, b) h =
    let (a', h1) = copy_a a h in let (b', h2) = copy_b b h1 in ((a', b'), h2)

module _ {C A B V W : Type 0} where
  abbrev pub pair : Copier C A V → Copier C B W → Copier C (A × B) (V × W)
  pair c d = record { layout = both c.layout d.layout; copy_into = in_turn c.copy_into d.copy_into }

  in_turn-CopiesDeep :
      (c : Copier C A V) (d : Copier C B W)
      → IsDeep c
      → IsDeep d
      → CopiesDeep (pair c d).layout (pair c d).copy_into
  in_turn-CopiesDeep c d p q (a, b) h used =
      let r = c.copy_into a h in
      both-Copied c.layout d.layout p.is_local q.is_local h r.1 (d.copy_into b r.1).1 a r.0 b
        (d.copy_into b r.1).0 used
        (p.copies_deep a h (All-left _ (c.layout.refs a h) (d.layout.refs b h) used))
        (q.copies_deep b r.1)

  pub pair-IsDeep : {c : Copier C A V} {d : Copier C B W} → IsDeep c → IsDeep d → IsDeep (pair c d)
  pair-IsDeep {c} {d} p q = record {
    is_local = both-IsLocal c.layout d.layout p.is_local q.is_local;
    copies_deep = in_turn-CopiesDeep c d p q;
  }

  -- A struct whose copy copies the parts and keeps the rest.
  abbrev pub struct :
      (B → A) → (B → V → W) → Copier C A V → (B → Heap C → B × Heap C) → Copier C B W
  struct parts whole c copy = record { layout = by_parts parts whole c.layout; copy_into = copy }

  pub struct-IsDeep :
      (parts : B → A) (whole : B → V → W) {c : Copier C A V} (copy : B → Heap C → B × Heap C)
      → ((b : B) (h : Heap C) → parts (copy b h).0 ≡ (c.copy_into (parts b) h).0)
      → ((b : B) (h : Heap C) → (copy b h).1 ≡ (c.copy_into (parts b) h).1)
      → ((b : B) (h : Heap C) (v : V) → whole (copy b h).0 v ≡ whole b v)
      → IsDeep c
      → IsDeep (struct parts whole c copy)
  struct-IsDeep parts whole {c} copy same_parts same_heap keeps d = record {
    is_local = by_parts-IsLocal parts whole c.layout d.is_local;
    copies_deep = λ b h used.
        by_parts-Copied parts whole c.layout h (copy b h).1 b (copy b h).0 (keeps b h)
          (rw (same_parts b h) (rw (same_heap b h) (d.copies_deep (parts b) h used)));
  }
