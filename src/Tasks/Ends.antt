-- ===== src/Tasks/Ends.antt =====
-- What the end of a run means for its step and its task, in
-- backend/core/persistence/task_repository.py, said apart from the code.
use chat_tree.Prelude.{
  ℕ, String, ◌≡◌, ◌≢◌, refl, ◌==◌, eq_iff, eq_false→ne, true, ◌&&◌, List, [], ◌∷◌, eqb, arith, ◌⊎◌,
  inl, inr, Bool-cases, All, none, some, Option,
}
use chat_tree.Tasks.Types.{Step}
use chat_tree.Tasks.Steps.{is_completed, update_step, all_steps_completed}
use chat_tree.Tasks.Bindings.{completes, or_released, next_status}

-- What is reported of a step that was `old`, and its status afterwards: completed by a run that
-- completed, blocked by one that failed, and as it was, released, after any other.
abbrev pub IsEnd : String → String → String → String → Type 0
IsEnd terminal_status old reported new =
    ((terminal_status ≡ "completed") × (reported ≡ "completed") × (new ≡ "completed"))
    ⊎ ((terminal_status ≡ "failed") × (reported ≡ "blocked") × (new ≡ "blocked"))
    ⊎ ((terminal_status ≢ "completed")
        × (terminal_status ≢ "failed")
        × (reported ≡ "released")
        × (new ≡ old))

-- The other steps are completed.
abbrev pub AreDone : ℕ → List Step → Type 0
AreDone p steps = All (λ (y : Step). (y.position ≡ p) ⊎ (y.status ≡ "completed")) steps

-- The run has completed the last step that was not completed.
abbrev pub IsLast : String → ℕ → List Step → Type 0
IsLast terminal_status p steps = (terminal_status ≡ "completed") × AreDone p steps

-- The status of a step that was `old`.
abbrev pub status_after : Option String → String → String
status_after none old = old
status_after (some status) old = status

pub next_status-IsEnd :
    (terminal_status old : String)
    → IsEnd terminal_status old
        (or_released (next_status terminal_status))
        (status_after (next_status terminal_status) old)
unfolding next_status
next_status-IsEnd t old = elim (Bool-cases (t == "completed")) [
  | inl e ↦ inl ((eq_iff t "completed").0 e, rw e refl, rw e refl)
  | inr e ↦ elim (Bool-cases (t == "failed")) [
    | inl f ↦ inr (inl ((eq_iff t "failed").0 f, rw (e, f) refl, rw (e, f) refl))
    | inr f ↦ inr (
        inr (eq_false→ne t "completed" e, eq_false→ne t "failed" f, rw (e, f) refl, rw (e, f) refl))
  ]
]

-- A change that completes the step.
abbrev Completes : (Step → Step) → Type 0
Completes change = (y : Step) → is_completed (change y) ≡ true

update-AreDone :
    (p : ℕ) (change : Step → Step) (steps : List Step)
    → all_steps_completed (update_step p change steps) ≡ true
    → AreDone p steps
unfolding update_step all_steps_completed
update-AreDone p change [] h = tt
update-AreDone p change (y ∷ steps) h = elim (Bool-cases (eqb y.position p)) [
  | inl e ↦ (inl (ground arith), update-AreDone p change steps (ground arith))
  | inr e ↦
      let h' : (is_completed y && all_steps_completed (update_step p change steps)) ≡ true =
        rw e at h in
      (
        inr ((eq_iff y.status "completed").0 (ground arith)),
        update-AreDone p change steps (ground arith),
      )
]

completed_update :
    (p : ℕ) (change : Step → Step) (steps : List Step)
    → Completes change
    → AreDone p steps
    → all_steps_completed (update_step p change steps) ≡ true
unfolding update_step all_steps_completed
completed_update p change [] c h = refl
completed_update p change (y ∷ steps) c (d, ds) =
    let rest = completed_update p change steps c ds in
    elim (Bool-cases (eqb y.position p)) [
      | inl e ↦ rw e (rw (c y) rest)
      | inr e ↦ rw e (elim d [
        | inl same ↦ absurd (ground arith)
        | inr q ↦ rw ((eq_iff y.status "completed").1 q) rest
      ])
    ]

-- The test of the code is right in both directions.
pub completes-IsLast :
    (terminal_status : String) (p : ℕ) (change : Step → Step) (steps : List Step)
    → (completes (next_status terminal_status) && all_steps_completed (update_step p change steps))
      ≡ true
    → IsLast terminal_status p steps
unfolding next_status
completes-IsLast t p change steps h = elim (Bool-cases (t == "completed")) [
  | inl e ↦ ((eq_iff t "completed").0 e, update-AreDone p change steps (rw e at h))
  | inr e ↦ elim (Bool-cases (t == "failed")) [
    | inl f ↦ absurd (cc (rw (e, f) at h))
    | inr f ↦ absurd (cc (rw (e, f) at h))
  ]
]

pub IsLast-completes :
    (terminal_status : String) (p : ℕ) (change : Step → Step) (steps : List Step)
    → ((y : Step) → (change y).status ≡ status_after (next_status terminal_status) y.status)
    → IsLast terminal_status p steps
    → (completes (next_status terminal_status) && all_steps_completed (update_step p change steps))
      ≡ true
unfolding next_status
IsLast-completes t p change steps c (e, ds) =
    let e' = (eq_iff t "completed").1 e in
    let c' : Completes change = λ y. (eq_iff (change y).status "completed").1 (rw e' at (c y)) in
    rw e' (completed_update p change steps c' ds)
