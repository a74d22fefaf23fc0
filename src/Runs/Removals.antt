-- ===== src/Runs/Removals.antt =====
-- What a reconciler does with a resource that is to be deleted, for either kind of resource: runs of
-- steps that add nothing to what is left in Central, and of Deletes.
use provider_stackrox.Base.{ℕ, suc, ◌+◌, ◌≤◌, arith}

-- A run from `s` with this number of Deletes.
pub data Removals {State : Type 0} (Quiet Remove : State → State → Type 0) (s : State)
    : ℕ → State → Type 0 where
  start : Removals Quiet Remove s 0 s
  quietly :
      {n : ℕ} {t u : State} → Removals Quiet Remove s n t → Quiet t u → Removals Quiet Remove s n u
  removing :
      {n : ℕ} {t u : State}
      → Removals Quiet Remove s n t
      → Remove t u
      → Removals Quiet Remove s (suc n) u

-- `left` is how much is left; a Delete leaves less.
pub record RemovesSome {State : Type 0} (Quiet Remove : State → State → Type 0)
    (Asks : State → Type 0) (left : State → ℕ) : Type 0 where
  pub asks_after : {s t : State} → Quiet s t → Asks s → Asks t
  pub asks_removed : {s t : State} → Remove s t → Asks s → Asks t
  pub left_after : {s t : State} → Quiet s t → left t ≤ left s
  pub left_removed : {s t : State} → Remove s t → Asks s → suc (left t) ≤ left s

module _ {State : Type 0} {Quiet Remove : State → State → Type 0} {Asks : State → Type 0}
    {left : State → ℕ} (R : RemovesSome Quiet Remove Asks left) where
  pub Removals-asks : {s t : State} {n : ℕ} → Asks s → Removals Quiet Remove s n t → Asks t
  Removals-asks a start = a
  Removals-asks a (quietly r q) = R.asks_after q (Removals-asks a r)
  Removals-asks a (removing r x) = R.asks_removed x (Removals-asks a r)

  pub Removals-left :
      {s t : State} {n : ℕ} → Asks s → Removals Quiet Remove s n t → n + left t ≤ left s
  Removals-left a start = omega arith
  Removals-left a (quietly r q) =
      let before = Removals-left a r in let step = R.left_after q in omega arith
  Removals-left a (removing r x) =
      let before = Removals-left a r in
      let step = R.left_removed x (Removals-asks a r) in omega arith
