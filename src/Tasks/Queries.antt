-- ===== src/Tasks/Queries.antt =====
-- What backend/core/persistence/task_repository.py reads of its tables, and what it checks.
use chat_tree.Prelude.{
  ℕ, String, ◌==◌, Bool, true, false, not, ◌&&◌, ◌||◌, Option, none, some, List, [], ◌∷◌, map,
  is_none, eqb, if◌then◌else◌, Result, ok, err,
}
use chat_tree.Dict.{Dict, get}
use chat_tree.Tasks.Types.{
  Step, Task, Binding, RunRow, Tables, TaskError, key_error, version_conflict, runtime_error,
}
use chat_tree.Tasks.Steps.{previous_completed}

-- SELECT ... FROM task_run_bindings WHERE conversation_id = ? LIMIT 1
unfoldable pub binding_of : String → List Binding → Option Binding
binding_of k [] = none
binding_of k (b ∷ bs) = if b.conversation_id == k then some b else binding_of k bs

-- SELECT * FROM task_run_bindings WHERE run_id = ?
unfoldable pub binding_of_run : String → List Binding → Option Binding
binding_of_run k [] = none
binding_of_run k (b ∷ bs) = if b.run_id == k then some b else binding_of_run k bs

-- The reference to a run of the conversation; NULL refers to nothing.
unfoldable pub refers_to_run : Option String → String → Dict RunRow → Bool
refers_to_run none conversation_id runs = true
refers_to_run (some k) conversation_id runs = elim (get k runs) [
  | none ↦ false
  | some run ↦ run.conversation_id == conversation_id
]

abbrev conflict : Task → TaskError
conflict task = version_conflict task.generation_id task.revision

-- `expected and current != expected`
abbrev other_generation : Option String → String → Bool
other_generation none k = false
other_generation (some expected) k = not (expected == "") && not (k == expected)

abbrev other_revision : Option ℕ → ℕ → Bool
other_revision none n = false
other_revision (some expected) n = not (eqb n expected)

unfoldable pub check_version : Option String → Option ℕ → Option Task → Result TaskError Task
check_version generation revision none = err key_error
check_version generation revision (some task) =
    if other_generation generation task.generation_id
    then err (conflict task)
    else if other_revision revision task.revision
    then err (conflict task)
    else ok task

unfoldable pub require_version :
    String → Option String → Option ℕ → Dict Task → Result TaskError Task
unfolding check_version
require_version conversation_id generation revision tasks =
    check_version generation revision (get conversation_id tasks)

-- A check that raises.
abbrev pub guard : Bool → TaskError → Result TaskError (Unit {0})
guard true e = ok tt
guard false e = err e

unfoldable pub ensure_no_active_binding : String → List Binding → Result TaskError (Unit {0})
unfolding binding_of
ensure_no_active_binding conversation_id bindings =
    guard (is_none (binding_of conversation_id bindings))
      (runtime_error "active task already has a running step")

abbrev pub found : Option Step → Result TaskError Step
found none = err key_error
found (some x) = ok x

unfoldable pub require_previous : ℕ → List Step → Result TaskError (Unit {0})
require_previous p steps =
    guard (previous_completed p steps) (runtime_error "previous task steps must be completed first")

unfoldable pub is_terminal : String → Bool
is_terminal status =
    status == "completed"
    || status == "failed"
    || status == "cancelled"
    || status == "interrupted"
    || status == "stopped"

-- What `_get_active_task_in_connection` adds to the rows.
pub record TaskView : Type 0 where
  pub task : Task
  pub active_run_id : Option String
  pub active_step : Option ℕ
  pub execution_state : String

-- The join with `runs`.
abbrev joined : Option Binding → Dict RunRow → Option (Binding × String)
joined none runs = none
joined (some b) runs = elim (get b.run_id runs) [ none ↦ none | some run ↦ some (b, run.status) ]

view : Task → Option (Binding × String) → TaskView
unfolding is_terminal
view task none = record {
  task = task;
  active_run_id = none;
  active_step = none;
  execution_state = "idle";
}
view task (some (b, status)) = record {
  task = task;
  active_run_id = some b.run_id;
  active_step = some b.step_position;
  execution_state =
      if status == "stopping" then "stopping" else if is_terminal status then "idle" else "running";
}

unfoldable pub get_active_task : String → Tables → Option TaskView
unfolding view binding_of
get_active_task conversation_id s = elim (get conversation_id s.tasks) [
  | none ↦ none
  | some task ↦ some (view task (joined (binding_of conversation_id s.bindings) s.runs))
]

pub record Snapshot : Type 0 where
  pub title : String
  pub steps : List (ℕ × String × String)

unfoldable pub public_task_snapshot : Task → Snapshot
public_task_snapshot task = record {
  title = task.title;
  steps =
      map (λ x. (x.position, x.title, (if x.status == "" then "pending" else x.status))) task.steps;
}
