-- ===== src/Tasks/Bindings.antt =====
-- The binding of a run to a step, and its release when the run is over, in
-- backend/core/persistence/task_repository.py.
use chat_tree.Prelude.{
  ℕ, String, ◌==◌, Bool, false, not, ◌&&◌, Option, none, some, List, [], ◌∷◌, is_none, eqb, ltb,
  if◌then◌else◌, ok, ◌>>=◌, ◌>>◌, append_text, ◌++◌,
}
use chat_tree.Dict.{get, insert}
use chat_tree.Tasks.Types.{
  Step, Task, Binding, Tables, version_conflict, runtime_error, integrity_error, Transaction,
}
use chat_tree.Tasks.Steps.{is_completed, find_step, all_steps_completed, set_result}
use chat_tree.Tasks.Queries.{
  require_version, guard, ensure_no_active_binding, found, require_previous, refers_to_run,
  binding_of_run, Snapshot, public_task_snapshot,
}
use chat_tree.Tasks.Changes.{delete_task, revised}

-- The mapping `binding`; a missing `base_revision` is read as -1, which is no revision.
pub record BindingRequest : Type 0 where
  pub conversation_id : String
  pub task_generation_id : String
  pub step_position : ℕ
  pub base_revision : Option ℕ

abbrev pub is_revision : Option ℕ → ℕ → Bool
is_revision none n = false
is_revision (some expected) n = eqb expected n

abbrev pub new_binding : String → ℕ → BindingRequest → Task → Binding
new_binding run_id now request task = record {
  run_id = run_id;
  conversation_id = request.conversation_id;
  task_generation_id = task.generation_id;
  step_position = request.step_position;
  base_revision = task.revision;
  created_at = now;
}

-- The result holds the generation and the step.
unfoldable pub bind_run : String → ℕ → BindingRequest → Transaction (String × ℕ)
unfolding require_version ensure_no_active_binding require_previous binding_of_run
bind_run run_id now request s = do
  task ←
      require_version request.conversation_id (some request.task_generation_id)
        request.base_revision s.tasks
  guard (is_revision request.base_revision task.revision)
      (version_conflict task.generation_id task.revision)
  current ← found (find_step request.step_position task.steps)
  guard (not (is_completed current)) (runtime_error "task step is already completed")
  require_previous request.step_position task.steps
  ensure_no_active_binding request.conversation_id s.bindings
  guard
      (is_none (binding_of_run run_id s.bindings)
        && refers_to_run (some run_id) request.conversation_id s.runs
        && ltb 0 request.step_position)
      integrity_error
  ok (
    (task.generation_id, request.step_position),
    record s { bindings = s.bindings ++ new_binding run_id now request task ∷ [] },
  )

-- DELETE FROM task_run_bindings WHERE run_id = ?
unfoldable pub release : String → List Binding → List Binding
release k [] = []
release k (b ∷ bs) = let rest = release k bs in if b.run_id == k then rest else b ∷ rest

pub record RunOutcome : Type 0 where
  pub task_status : String
  pub step : ℕ
  pub step_status : String
  pub run_status : String
  pub task_snapshot : Snapshot

unfoldable pub next_status : String → Option String
next_status terminal_status =
    if terminal_status == "completed"
    then some "completed"
    else if terminal_status == "failed"
    then some "blocked"
    else none

-- error or (f"Run completed: {summary}" if summary else f"Run {terminal_status}")
unfoldable pub evidence_text : Option String → String → String → String
evidence_text none summary terminal_status =
    if summary == ""
    then append_text "Run " terminal_status
    else append_text "Run completed: " summary
evidence_text (some error) summary terminal_status =
    if error == ""
    then (if summary == ""
        then append_text "Run " terminal_status
        else append_text "Run completed: " summary)
    else error

-- The update of the step, if the run decided it.
abbrev pub decided : Option String → String → String → ℕ → Step → Step
decided none run_id evidence now x = x
decided (some status) run_id evidence now x = set_result status (some run_id) evidence now x

abbrev pub completes : Option String → Bool
completes none = false
completes (some status) = status == "completed"

abbrev pub or_released : Option String → String
or_released none = "released"
or_released (some status) = status

unfoldable pub outcome : Binding → String → Task → Bool → RunOutcome
outcome b terminal_status task completed = record {
  task_status = if completed then "completed" else "active";
  step = b.step_position;
  step_status = or_released (next_status terminal_status);
  run_status = terminal_status;
  task_snapshot = public_task_snapshot task;
}

-- The binding leads to a task of its generation.
unfoldable pub finish_bound :
    ℕ → Binding → Task → String → Option String → String → Tables → RunOutcome × Tables
unfolding release next_status evidence_text outcome revised delete_task
finish_bound now b task terminal_status error summary s =
    let change =
      decided (next_status terminal_status) b.run_id (evidence_text error summary terminal_status)
        now in
    let task' = revised b.step_position change now task in
    let s' = record s {
      tasks = insert b.conversation_id task' s.tasks;
      bindings = release b.run_id s.bindings;
    } in
    let completed = completes (next_status terminal_status) && all_steps_completed task'.steps in
    (outcome b terminal_status task' completed, (if completed then delete_task task' s' else s'))

-- `finish_run_binding_in_connection`, which raises nothing
unfoldable pub finish_run_binding :
    ℕ → String → String → Option String → String → Tables → Option RunOutcome × Tables
unfolding finish_bound
finish_run_binding now run_id terminal_status error summary s =
    elim (binding_of_run run_id s.bindings) [
      | none ↦ (none, s)
      | some b ↦ elim (get b.conversation_id s.tasks) [
        | none ↦ (none, record s { bindings = release run_id s.bindings })
        | some task ↦
            if task.generation_id == b.task_generation_id
            then (let (o, s') = finish_bound now b task terminal_status error summary s in
                (some o, s'))
            else (none, record s { bindings = release run_id s.bindings })
      ]
    ]
