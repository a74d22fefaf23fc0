-- ===== src/Memory/Heap.antt =====
-- Memory as the deep copies see it: cells of maps, of slices' arrays and of objects of the
-- libraries, at addresses that are handed out in order.
use Prim.Native.Nat.{ℕ, ◌+◌, ◌≤◌, ◌<◌, compare, Ordering}
use provider_stackrox.Base.{
  Bool, true, false, Option, some, List, [], ◌∷◌, ◌++◌, ◌≡◌, refl, arith, if◌then◌else◌,
}

abbrev pub same : ℕ → ℕ → Bool
same a b = elim (compare a b) [ Ordering.eq ↦ true | _ ↦ false ]

abbrev pub Addr : Type 0
Addr = ℕ

-- From `next` on no address is in use.
pub record Heap (C : Type 0) : Type 0 where
  pub next : Addr
  pub cell : Addr → Option C

module _ {C : Type 0} where
  -- Go's `make`: a new cell.
  unfoldable pub alloc : C → Heap C → Addr × Heap C
  alloc c h =
      (h.next, record { next = h.next + 1; cell = λ a. if same a h.next then some c else h.cell a })

  unfoldable pub write : Addr → C → Heap C → Heap C
  write a c h = record h { cell = λ b. if same b a then some c else h.cell b }

abbrev pub All {κ} : {A : Type 0} → (A → Type κ) → List A → Type κ
All P [] = Unit
All P (x ∷ xs) = P x × All P xs

module _ {A : Type 0} where
  pub All-append {κ} :
      (P : A → Type κ) (front back : List A) → All P front → All P back → All P (front ++ back)
  All-append P [] back f b = b
  All-append P (x ∷ front) back f b = (f.0, All-append P front back f.1 b)

  pub All-left {κ} : (P : A → Type κ) (front back : List A) → All P (front ++ back) → All P front
  All-left P [] back h = tt
  All-left P (x ∷ front) back h = (h.0, All-left P front back h.1)

  pub All-right {κ} : (P : A → Type κ) (front back : List A) → All P (front ++ back) → All P back
  All-right P [] back h = h
  All-right P (x ∷ front) back h = All-right P front back h.1

  pub All-map {κ} : (P Q : A → Type κ) → ((a : A) → P a → Q a) → (xs : List A) → All P xs → All Q xs
  All-map P Q f [] h = tt
  All-map P Q f (x ∷ xs) h = (f x h.0, All-map P Q f xs h.1)

-- Every address of the list is in use, or none of those that were in use before.
abbrev pub InUse : {C : Type 0} → Heap C → List Addr → Type 0
InUse h = All (λ a. a < h.next)

abbrev pub IsNew : {C : Type 0} → Heap C → List Addr → Type 0
IsNew h = All (λ a. h.next ≤ a)

-- The two memories have the same cells at these addresses.
abbrev pub Agree : {C : Type 0} → Heap C → Heap C → List Addr → Type 0
Agree h h' = All (λ a. h'.cell a ≡ h.cell a)

-- The later memory has all the cells of the earlier one.
pub record Extends {C : Type 0} (h h' : Heap C) : Type 0 where
  pub grows : h.next ≤ h'.next
  pub kept : (a : Addr) → a < h.next → h'.cell a ≡ h.cell a

module _ {C : Type 0} where
  pub Extends-refl : (h : Heap C) → Extends h h
  Extends-refl h = record { grows = omega arith; kept = λ a lt. refl }

  pub Extends-trans : (h h1 h2 : Heap C) → Extends h h1 → Extends h1 h2 → Extends h h2
  Extends-trans h h1 h2 e f = record {
    grows = omega (arith, e.grows, f.grows);
    kept = λ a lt. ground (arith, e.kept a, f.kept a, e.grows);
  }

  pub alloc-Extends : (c : C) (h : Heap C) → Extends h (alloc c h).1
  unfolding alloc
  alloc-Extends c h = record { grows = omega arith; kept = λ a lt. ground arith }

  pub Agree-Extends : (h h' : Heap C) → Extends h h' → (l : List Addr) → InUse h l → Agree h h' l
  Agree-Extends h h' e = All-map (λ a. a < h.next) (λ a. h'.cell a ≡ h.cell a) e.kept

  pub InUse-Extends : (h h' : Heap C) → Extends h h' → (l : List Addr) → InUse h l → InUse h' l
  InUse-Extends h h' e =
      All-map (λ a. a < h.next) (λ a. a < h'.next) (λ a lt. omega (arith, e.grows))

  pub IsNew-Extends : (h h' : Heap C) → Extends h h' → (l : List Addr) → IsNew h' l → IsNew h l
  IsNew-Extends h h' e =
      All-map (λ a. h'.next ≤ a) (λ a. h.next ≤ a) (λ a le. omega (arith, e.grows))

  -- A write is not seen at any other address.
  pub write-Agree :
      (b : Addr) (c : C) (h : Heap C) (l : List Addr) → All (λ a. b < a) l → Agree h (write b c h) l
  unfolding write
  write-Agree b c h =
      All-map (λ a. b < a) (λ a. (write b c h).cell a ≡ h.cell a) (λ a lt. ground arith)

  pub write-alloc-Extends :
      (c d : C) (h h' : Heap C) → Extends (alloc c h).1 h' → Extends h (write h.next d h')
  unfolding alloc write
  write-alloc-Extends c d h h' e = record {
    grows = omega (arith, e.grows);
    kept = λ a lt. ground (arith, e.kept a);
  }

  pub cell-write : (b : Addr) (c : C) (h : Heap C) → (write b c h).cell b ≡ some c
  unfolding write
  cell-write b c h = ground arith

  pub cell-alloc : (c : C) (h : Heap C) → (alloc c h).1.cell h.next ≡ some c
  unfolding alloc
  cell-alloc c h = ground arith

  -- What is new after an allocation lies above the allocated address.
  pub above_alloc :
      (c : C) (h : Heap C) (l : List Addr) → IsNew (alloc c h).1 l → All (λ a. h.next < a) l
  unfolding alloc
  above_alloc c h = All-map (λ a. h.next + 1 ≤ a) (λ a. h.next < a) (λ a le. omega arith)

  pub InUse-write :
      (b : Addr) (c : C) (h : Heap C) (l : List Addr) → InUse h l → InUse (write b c h) l
  unfolding write
  InUse-write b c h l u = u

  pub alloc-InUse :
      (c d : C) (h h' : Heap C) → Extends (alloc c h).1 h' → h.next < (write h.next d h').next
  unfolding alloc write
  alloc-InUse c d h h' e = omega (arith, e.grows)
