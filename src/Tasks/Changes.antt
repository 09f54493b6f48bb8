-- ===== src/Tasks/Changes.antt =====
-- `create_task`, `set_step_result` and `cancel_task` of
-- backend/core/persistence/task_repository.py. A fresh generation and clock readings are arguments.
use chat_tree.Prelude.{
  ℕ, ◌+◌, String, ◌==◌, Bool, true, false, not, ◌&&◌, ◌||◌, Option, none, some, List, [], ◌∷◌,
  if◌then◌else◌, Result, ok, err, ◌>>=◌, ◌>>◌,
}
use chat_tree.Dict.{Dict, insert, remove}
use chat_tree.Chat.Conversation.{contains}
use chat_tree.Tasks.Types.{
  Step, Task, Binding, Tables, TaskError, runtime_error, value_error, integrity_error, Transaction,
}
use chat_tree.Tasks.Steps.{is_completed, find_step, update_step, all_steps_completed, set_result}
use chat_tree.Tasks.Queries.{
  require_version, guard, ensure_no_active_binding, found, require_previous, refers_to_run,
  TaskView, get_active_task, Snapshot, public_task_snapshot,
}

-- A row for each (title, detail), with positions from `p`.
unfoldable pub prepared_steps : ℕ → ℕ → List (String × String) → List Step
prepared_steps now p [] = []
prepared_steps now p ((title, detail) ∷ items) =
    record {
      position = p;
      title = title;
      detail = detail;
      status = "pending";
      evidence_run_id = none;
      evidence_summary = "";
      updated_at = now;
    }
    ∷ prepared_steps now (p + 1) items

pub record NewTask : Type 0 where
  pub title : String
  pub detail : String
  pub steps : List (String × String)
  pub created_by_run_id : Option String
  pub created_by_tool_call_id : Option String

unfoldable pub build_task : String → ℕ → String → NewTask → Task
unfolding prepared_steps
build_task generation_id now conversation_id new = record {
  conversation_id = conversation_id;
  generation_id = generation_id;
  revision = 0;
  title = new.title;
  detail = new.detail;
  created_by_run_id = new.created_by_run_id;
  created_by_tool_call_id = new.created_by_tool_call_id;
  created_at = now;
  updated_at = now;
  steps = prepared_steps now 1 new.steps;
}

-- `created_by_tool_call_id and existing[...] == created_by_tool_call_id`
unfoldable pub same_call : Option String → Option String → Bool
same_call none existing = false
same_call (some k) none = false
same_call (some k) (some j) = not (k == "") && j == k

abbrev pub viewed : Option TaskView → Tables → Result TaskError (TaskView × Tables)
viewed none s = err (runtime_error "active task insert did not produce a row")
viewed (some v) s = ok (v, s)

-- The column `generation_id` is unique.
abbrev pub is_new_generation : String → Dict Task → Bool
is_new_generation generation [] = true
is_new_generation generation ((k, t) ∷ tasks) =
    not (t.generation_id == generation) && is_new_generation generation tasks

unfoldable pub create_task : String → ℕ → String → NewTask → Transaction TaskView
unfolding build_task same_call
create_task generation_id now conversation_id new s = elim (get_active_task conversation_id s) [
  | some v ↦
      if same_call new.created_by_tool_call_id v.task.created_by_tool_call_id
      then ok (v, s)
      else err (runtime_error "conversation already has an active task")
  | none ↦
      guard
        (is_new_generation generation_id s.tasks
          && contains conversation_id s.conversations
          && refers_to_run new.created_by_run_id conversation_id s.runs)
        integrity_error
      >> (let s' = record s {
        tasks = insert conversation_id (build_task generation_id now conversation_id new) s.tasks;
      } in
          viewed (get_active_task conversation_id s') s')
]

-- DELETE FROM active_tasks: the bindings that refer to the row go with it.
unfoldable pub unbound : Task → List Binding → List Binding
unbound task [] = []
unbound task (b ∷ bs) =
    let rest = unbound task bs in
    if b.conversation_id == task.conversation_id && b.task_generation_id == task.generation_id
    then rest
    else b ∷ rest

unfoldable pub delete_task : Task → Tables → Tables
unfolding unbound
delete_task task s = record s {
  tasks = remove task.conversation_id s.tasks;
  bindings = unbound task s.bindings;
}

-- The task, with a step changed, and one revision later.
unfoldable pub revised : ℕ → (Step → Step) → ℕ → Task → Task
unfolding update_step
revised step change now task = record task {
  revision = task.revision + 1;
  updated_at = now;
  steps = update_step step change task.steps;
}

pub record StepOutcome : Type 0 where
  pub completed : Bool
  pub task : Option TaskView
  pub task_snapshot : Snapshot

-- The end of `set_step_result`, on the task as updated.
unfoldable pub conclude : Task → Tables → Result TaskError (StepOutcome × Tables)
unfolding delete_task all_steps_completed
conclude task s =
    if all_steps_completed task.steps
    then ok (
      record { completed = true; task = none; task_snapshot = public_task_snapshot task },
      delete_task task s,
    )
    else ok (
      record {
        completed = false;
        task = get_active_task task.conversation_id s;
        task_snapshot = public_task_snapshot task;
      },
      s,
    )

-- The check of the column `status`.
unfoldable pub is_step_status : String → Bool
is_step_status status = status == "pending" || status == "blocked" || status == "completed"

unfoldable pub set_step_result :
    ℕ
    → String
    → ℕ
    → String
    → String
    → Option String
    → Option String
    → Option ℕ
    → Transaction StepOutcome
unfolding require_version ensure_no_active_binding require_previous revised conclude is_step_status
set_step_result now conversation_id step status evidence run generation revision s = do
  task ← require_version conversation_id generation revision s.tasks
  ensure_no_active_binding conversation_id s.bindings
  current ← found (find_step step task.steps)
  require_previous step task.steps
  guard (not (is_completed current) || status == "completed") value_error
  guard (is_step_status status && refers_to_run run conversation_id s.runs) integrity_error
  let task' = revised step (set_result status run evidence now) now task
  conclude task' (record s { tasks = insert conversation_id task' s.tasks })

unfoldable pub cancel_task : String → Option String → Option ℕ → Transaction Bool
unfolding delete_task
cancel_task conversation_id generation revision s = do
  task ← require_version conversation_id generation revision s.tasks
  ok (true, delete_task task s)
