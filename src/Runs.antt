-- ===== src/Runs.antt =====
-- What a reconciler does with a resource over time, for either kind of resource: runs of steps that
-- write nothing to Central and of steps that do. A controller's calls are the steps, and its theorems
-- fill `WritesOnce`.
pub mod Removals
use provider_stackrox.Base.{◌≡◌, ◌⊎◌, refl, ◌∙◌, ap, inl, inr, List, [], ◌∷◌}

-- The two calls that write.
pub data Call : Type 0 where
  created : Call
  updated : Call

-- A run from `s`, with its writes, the latest first.
pub data Run {State : Type 0} (Quiet : State → State → Type 0)
    (Write : Call → State → State → Type 0) (s : State) : List Call → State → Type 0 where
  start : Run Quiet Write s [] s
  quietly :
      {l : List Call} {t u : State} → Run Quiet Write s l t → Quiet t u → Run Quiet Write s l u
  writing :
      {l : List Call} {c : Call} {t u : State}
      → Run Quiet Write s l t
      → Write c t u
      → Run Quiet Write s (c ∷ l) u

-- `Settled` says that Central stores what the resource asks for: a settled resource stays so, and is
-- not written.
pub record KeepsSettled {State : Type 0} (Quiet : State → State → Type 0)
    (Write : Call → State → State → Type 0) (Settled : State → Type 0) : Type 0 where
  pub settled_after : {s t : State} → Quiet s t → Settled s → Settled t
  pub settled_unwritten : {c : Call} {s t : State} → Settled s → ¬ Write c s t

-- `Asks` says what the resource asks for, and `needs` which call it takes to make Central store it; a
-- write is that call, and makes the resource settled.
pub record WritesOnce {State : Type 0} (Quiet : State → State → Type 0)
    (Write : Call → State → State → Type 0) (Asks Settled : State → Type 0) (needs : State → Call)
    : Type 0 where
  pub keeps : KeepsSettled Quiet Write Settled
  pub open keeps use *
  pub asks_after : {s t : State} → Quiet s t → Asks s → Asks t
  pub settled_asks : {s : State} → Settled s → Asks s
  pub needs_after : {s t : State} → Quiet s t → needs t ≡ needs s
  pub write_needed : {c : Call} {s t : State} → Asks s → Write c s t → c ≡ needs s
  pub write_settles : {c : Call} {s t : State} → Asks s → Write c s t → Settled t

module _ {State : Type 0} {Quiet : State → State → Type 0} {Write : Call → State → State → Type 0}
    {Settled : State → Type 0} (K : KeepsSettled Quiet Write Settled) where
  pub run_settled :
      {s t : State} {l : List Call} → Settled s → Run Quiet Write s l t → (l ≡ []) × Settled t
  run_settled h start = (refl, h)
  run_settled h (quietly r q) =
      let (none_yet, h') = run_settled h r in (none_yet, K.settled_after q h')
  run_settled h (writing r x) = absurd (K.settled_unwritten (run_settled h r).1 x)

module _ {State : Type 0} {Quiet : State → State → Type 0} {Write : Call → State → State → Type 0}
    {Asks Settled : State → Type 0} {needs : State → Call}
    (W : WritesOnce Quiet Write Asks Settled needs) where
  -- There was no write, and the same call is needed; or there was one, the call that was needed at
  -- the start, and the resource is settled.
  written_once :
      {s t : State} {l : List Call}
      → Asks s
      → Run Quiet Write s l t
      → Asks t × (((l ≡ []) × (needs t ≡ needs s)) ⊎ ((l ≡ needs s ∷ []) × Settled t))
  written_once a start = (a, inl (refl, refl))
  written_once a (quietly r q) =
      let (a', before) = written_once a r in
      (
        W.asks_after q a',
        elim before [
          | inl (nothing, same) ↦ inl (nothing, W.needs_after q ∙ same)
          | inr (once, h) ↦ inr (once, W.settled_after q h)
        ],
      )
  written_once {s = s} a (writing {l = l} {c = c} r x) =
      let (a', before) = written_once a r in
      elim before [
        | inl (nothing, same) ↦
            let h = W.write_settles a' x in
            let is_needed = W.write_needed a' x ∙ same in
            (W.settled_asks h, inr (ap (λ m. c ∷ m) nothing ∙ ap (λ d. d ∷ []) is_needed, h))
        | inr (once, h) ↦ absurd (W.settled_unwritten h x)
      ]

  pub run_once :
      {s t : State} {l : List Call}
      → Asks s
      → Run Quiet Write s l t
      → (l ≡ []) ⊎ ((l ≡ needs s ∷ []) × Settled t)
  run_once a r = elim (written_once a r).1 [
    | inl (nothing, same) ↦ inl nothing
    | inr once ↦ inr once
  ]
