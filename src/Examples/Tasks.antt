-- ===== src/Examples/Tasks.antt =====
-- Examples for the tables of tasks.
use chat_tree.Prelude.{
  String, ◌≡◌, refl, eq_false→ne, false, Option, none, some, List, [], ◌∷◌, ok, is_ok, ok-cases,
  map,
}
use chat_tree.Dict.{get, insert, remove}
use chat_tree.Tasks.Types.{Step, Task, Binding, Tables}
use chat_tree.Tasks.Steps.{find_step, previous_completed, update_step, all_steps_completed}
use chat_tree.Tasks.Queries.{
  binding_of, binding_of_run, require_version, ensure_no_active_binding, require_previous,
  refers_to_run, get_active_task,
}
use chat_tree.Tasks.Changes.{
  prepared_steps, NewTask, build_task, create_task, StepOutcome, conclude, revised, is_step_status,
  set_step_result, delete_task,
}
use chat_tree.Tasks.Bindings.{
  BindingRequest, bind_run, release, RunOutcome, next_status, finish_bound, finish_run_binding,
}
use chat_tree.Tasks.WellFormed.{WellFormed}
use chat_tree.Tasks.Calls.{
  Call, create, cancel, bind, finish, set_result_of, perform_tasks, perform_tasks-WellFormed,
}
use chat_tree.Tasks.Versions.{set_step_result_once}
use chat_tree.Tasks.Ends.{IsEnd}
use chat_tree.Tasks.Release.{IsSettled, finish_run_binding_lem}

abbrev empty : Tables
empty = record {
  conversations = "c1" ∷ [];
  runs = ("r1", record { conversation_id = "c1"; status = "running" }) ∷ [];
  tasks = [];
  bindings = [];
}

empty-WellFormed : WellFormed empty
unfolding get
empty-WellFormed = record { filed = λ k t h. absurd (cc h); bound = tt; alone = tt }

abbrev new_task : NewTask
new_task = record {
  title = "title";
  detail = "";
  steps = ("first", "") ∷ ("second", "") ∷ [];
  created_by_run_id = none;
  created_by_tool_call_id = some "call";
}

abbrev request : BindingRequest
request = record {
  conversation_id = "c1";
  task_generation_id = "g1";
  step_position = 1;
  base_revision = some 0;
}

abbrev created : Tables
created = perform_tasks (create "g1" 1 "c1" new_task ∷ []) empty

created-WellFormed : WellFormed created
created-WellFormed =
    perform_tasks-WellFormed (create "g1" 1 "c1" new_task ∷ []) empty empty-WellFormed

abbrev bound : Tables
bound = perform_tasks (create "g1" 1 "c1" new_task ∷ bind "r1" 2 request ∷ []) empty

bound-WellFormed : WellFormed bound
bound-WellFormed =
    perform_tasks-WellFormed (create "g1" 1 "c1" new_task ∷ bind "r1" 2 request ∷ []) empty
      empty-WellFormed

abbrev calls : List Call
calls =
    create "g1" 1 "c1" new_task
    ∷ bind "r1" 2 request
    ∷ finish 3 "r1" "completed" none "done"
    ∷ set_result_of 4 "c1" 2 "blocked" "waits" none none (some 1)
    ∷ []

perform_tasks-WellFormed_example : WellFormed (perform_tasks calls empty)
perform_tasks-WellFormed_example = perform_tasks-WellFormed calls empty empty-WellFormed

status_of : Option Task → List String
status_of none = []
status_of (some t) = map (λ x. x.status) t.steps

-- Of the calls each does what it is for: the first step is completed, the second blocked.
calls_run : status_of (get "c1" (perform_tasks calls empty).tasks) ≡ "completed" ∷ "blocked" ∷ []
unfolding status_of perform_tasks create_task build_task prepared_steps get_active_task get insert
    remove refers_to_run bind_run require_version ensure_no_active_binding binding_of
    require_previous previous_completed find_step binding_of_run finish_run_binding finish_bound
    release next_status revised update_step all_steps_completed set_step_result is_step_status
    conclude delete_task
calls_run = refl

-- A result that was set on the first revision.
taken :
    (a : StepOutcome × Tables) × (set_step_result 5 "c1" 1 "completed" "ok" none
        (some "g1")
        (some 0)
        created
      ≡ ok a)
unfolding perform_tasks create_task build_task prepared_steps get_active_task get insert remove
    refers_to_run require_version ensure_no_active_binding binding_of require_previous
    previous_completed find_step revised update_step all_steps_completed set_step_result
    is_step_status conclude delete_task
taken = ok-cases (set_step_result 5 "c1" 1 "completed" "ok" none (some "g1") (some 0) created) refl

-- The task is cancelled after the result, and another is created, whose revision is again 0.
abbrev later_calls : List Call
later_calls = cancel "c1" none none ∷ create "g2" 6 "c1" new_task ∷ []

set_step_result_once_example :
    is_ok (
      set_step_result 7 "c1" 1 "blocked" "no" none
        (some "g1")
        (some 0)
        (perform_tasks later_calls taken.0.1))
    ≡ false
set_step_result_once_example =
    set_step_result_once created 5 "c1" 1 "completed" "ok" none "g1" 0 {o = taken.0.0}
      {s' = taken.0.1} later_calls 7 1 "blocked" "no" none refl taken.1
      (tt, (eq_false→ne "g2" "g1" refl, tt))

abbrev the_binding : Binding
the_binding = record {
  run_id = "r1";
  conversation_id = "c1";
  task_generation_id = "g1";
  step_position = 1;
  base_revision = 0;
  created_at = 2;
}

is_bound : binding_of_run "r1" bound.bindings ≡ some the_binding
unfolding perform_tasks create_task build_task prepared_steps get_active_task get insert remove
    refers_to_run bind_run require_version ensure_no_active_binding binding_of require_previous
    previous_completed find_step binding_of_run
is_bound = refl

finish_run_binding_example :
    (o : RunOutcome) × (task : Task) × (x : Step) × (get "c1" bound.tasks ≡ some task)
    × (find_step 1 task.steps ≡ some x)
    × ((finish_run_binding 3 "r1" "failed" none "s" bound).0 ≡ some o)
    × (o.step ≡ 1)
    × (o.run_status ≡ "failed")
    × (new : String) × IsEnd "failed" x.status o.step_status new
    × (binding_of "c1" (finish_run_binding 3 "r1" "failed" none "s" bound).1.bindings ≡ none)
    × IsSettled "failed" "c1" 1 task new o.task_status
        (finish_run_binding 3 "r1" "failed" none "s" bound).1
finish_run_binding_example =
    finish_run_binding_lem bound 3 the_binding "r1" "failed" none "s" bound-WellFormed is_bound
