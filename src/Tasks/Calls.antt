-- ===== src/Tasks/Calls.antt =====
-- Any sequence of calls of backend/core/persistence/task_repository.py, one transaction each. A call
-- that raises is rolled back.
use chat_tree.Prelude.{ℕ, String, ◌≡◌, refl, Option, List, [], ◌∷◌, Result, ok, err}
use chat_tree.Tasks.Types.{Tables, TaskError, connect}
use chat_tree.Tasks.Changes.{NewTask, create_task, set_step_result, cancel_task}
use chat_tree.Tasks.Bindings.{BindingRequest, bind_run, finish_run_binding}
use chat_tree.Tasks.WellFormed.{WellFormed}
use chat_tree.Tasks.WellFormed.Methods.{set_step_result-WellFormed, cancel_task-WellFormed}
use chat_tree.Tasks.WellFormed.Runs.{create_task-WellFormed, bind_run-WellFormed}
use chat_tree.Tasks.WellFormed.Finish.{finish_run_binding-WellFormed}

pub data Call : Type 0 where
  create : String → ℕ → String → NewTask → Call
  set_result_of : ℕ → String → ℕ → String → String → Option String → Option String → Option ℕ → Call
  cancel : String → Option String → Option ℕ → Call
  bind : String → ℕ → BindingRequest → Call
  finish : ℕ → String → String → Option String → String → Call

-- The tables after the call.
unfoldable pub perform : Call → Tables → Tables
perform (create generation now k new) s = (connect (create_task generation now k new s) s).1
perform (set_result_of now k step status evidence run generation revision) s =
    (connect (set_step_result now k step status evidence run generation revision s) s).1
perform (cancel k generation revision) s = (connect (cancel_task k generation revision s) s).1
perform (bind run_id now request) s = (connect (bind_run run_id now request s) s).1
perform (finish now run_id terminal_status error summary) s =
    (finish_run_binding now run_id terminal_status error summary s).1

unfoldable pub perform_tasks : List Call → Tables → Tables
unfolding perform
perform_tasks [] s = s
perform_tasks (call ∷ calls) s = perform_tasks calls (perform call s)

connect-WellFormed :
    {A : Type 0} (r : Result TaskError (A × Tables)) (s : Tables)
    → WellFormed s
    → ((a : A) (s' : Tables) → r ≡ ok (a, s') → WellFormed s')
    → WellFormed (connect r s).1
connect-WellFormed (err e) s w h = w
connect-WellFormed (ok (a, s')) s w h = h a s' refl

perform-WellFormed : (call : Call) (s : Tables) → WellFormed s → WellFormed (perform call s)
unfolding perform
perform-WellFormed (create generation now k new) s w =
    connect-WellFormed _ s w (λ a s' h. create_task-WellFormed s generation now k new w h)
perform-WellFormed (set_result_of now k step status evidence run generation revision) s w =
    connect-WellFormed _ s w (λ a s' h.
      set_step_result-WellFormed s now k step status evidence run generation revision w h)
perform-WellFormed (cancel k generation revision) s w =
    connect-WellFormed _ s w (λ a s' h. cancel_task-WellFormed s k generation revision w h)
perform-WellFormed (bind run_id now request) s w =
    connect-WellFormed _ s w (λ a s' h. bind_run-WellFormed s run_id now request w h)
perform-WellFormed (finish now run_id terminal_status error summary) s w =
    finish_run_binding-WellFormed s now run_id terminal_status error summary w

-- Whatever calls are made from tables of which this holds: before a completed step of a task all
-- steps are completed; a binding leads to the task and generation that it names, and to a step
-- that is not completed and has only completed steps before it; and no conversation has two
-- bindings.
pub perform_tasks-WellFormed :
    (calls : List Call) (s : Tables) → WellFormed s → WellFormed (perform_tasks calls s)
unfolding perform_tasks
perform_tasks-WellFormed [] s w = w
perform_tasks-WellFormed (call ∷ calls) s w =
    perform_tasks-WellFormed calls (perform call s) (perform-WellFormed call s w)
