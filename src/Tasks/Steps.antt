-- ===== src/Tasks/Steps.antt =====
-- The rows of steps of a task, in backend/core/persistence/task_repository.py.
use chat_tree.Prelude.{
  ℕ, String, ◌==◌, Bool, true, not, ◌&&◌, ◌||◌, Option, none, some, List, [], ◌∷◌, ltb, eqb,
  if◌then◌else◌,
}
use chat_tree.Tasks.Types.{Step}

abbrev pub is_completed : Step → Bool
is_completed x = x.status == "completed"

-- SELECT status FROM active_task_steps WHERE position = ?
unfoldable pub find_step : ℕ → List Step → Option Step
find_step p [] = none
find_step p (x ∷ xs) = if eqb x.position p then some x else find_step p xs

-- No row has a smaller position and is not completed.
unfoldable pub previous_completed : ℕ → List Step → Bool
previous_completed p [] = true
previous_completed p (x ∷ xs) =
    (not (ltb x.position p) || is_completed x) && previous_completed p xs

-- UPDATE active_task_steps SET ... WHERE position = ?
unfoldable pub update_step : ℕ → (Step → Step) → List Step → List Step
update_step p change [] = []
update_step p change (x ∷ xs) = (if eqb x.position p then change x else x) ∷ update_step p change xs

unfoldable pub all_steps_completed : List Step → Bool
all_steps_completed [] = true
all_steps_completed (x ∷ xs) = is_completed x && all_steps_completed xs

-- SET status, evidence_run_id, evidence_summary, updated_at
abbrev pub set_result : String → Option String → String → ℕ → Step → Step
set_result status run evidence now x = record x {
  status = status;
  evidence_run_id = run;
  evidence_summary = evidence;
  updated_at = now;
}
