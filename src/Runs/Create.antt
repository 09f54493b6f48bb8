-- ===== src/Runs/Create.antt =====
-- `create_run` and `create_or_get_run` of backend/core/runs/repository.py. The fresh identifier of
-- `uuid4` and the clock reading are arguments.
use chat_tree.Prelude.{
  ℕ, String, ◌==◌, Bool, true, false, ◌&&◌, ◌||◌, Option, none, some, [], Result, ok, err,
  if◌then◌else◌, is_none, is_some,
}
use chat_tree.Dict.{Dict, get, insert}
use chat_tree.Json.{Value, get_value}
use chat_tree.Runs.Types.{
  Run, RepositoryError, key_error, value_error, runtime_error, idempotency_conflict, Repository,
  Method,
}

-- The keyword arguments of `create_or_get_run`, but for the idempotency key and the fingerprint.
pub record NewRun : Type 0 where
  pub kind : String
  pub anchor_node_id : Option String
  pub target_node_id : Option String
  pub created_by_run_id : Option String
  pub cancellation_parent_run_id : Option String
  pub summary : String
  pub metadata : Dict Value
  pub task_binding : Option (Dict Value)

run_metadata : Dict Value → Option (Dict Value) → Dict Value
run_metadata metadata none = metadata
run_metadata metadata (some binding) =
    insert "task_step_position" (get_value "step_position" binding)
      (insert "task_generation_id" (get_value "task_generation_id" binding) metadata)

unfoldable pub build_run : String → ℕ → String → Option String → Option String → NewRun → Run
unfolding run_metadata
build_run run_id now conversation_id key fingerprint new = record {
  id = run_id;
  run_id = run_id;
  conversation_id = conversation_id;
  kind = new.kind;
  status = "running";
  created_by_run_id = new.created_by_run_id;
  cancellation_parent_run_id = new.cancellation_parent_run_id;
  anchor_node_id = new.anchor_node_id;
  target_node_id = new.target_node_id;
  summary = new.summary;
  metadata = run_metadata new.metadata new.task_binding;
  idempotency_key = key;
  request_fingerprint = fingerprint;
  event_count = 0;
  created_at = now;
  updated_at = now;
  finished_at = none;
}

abbrev pub bind_key : Option String → String → Dict String → Dict String
bind_key none run_id d = d
bind_key (some key) run_id d = insert key run_id d

unfoldable pub add_run : Run → Repository → Repository
add_run run s = record {
  runs = insert run.run_id run s.runs;
  events = insert run.run_id [] s.events;
  idempotency = bind_key run.idempotency_key run.run_id s.idempotency;
}

unfoldable pub same_text : Option String → Option String → Bool
same_text none none = true
same_text (some a) (some b) = a == b
same_text _ _ = false

-- The run that the key is bound to, if the request is the same.
existing_run : Option String → String → Option Run → Result RepositoryError (Run × Bool)
existing_run fingerprint existing_id none = err (key_error existing_id)
existing_run fingerprint existing_id (some existing) =
    if same_text existing.request_fingerprint fingerprint
    then ok (existing, false)
    else err (idempotency_conflict existing_id)

abbrev pub bound_to : Option String → Dict String → Option String
bound_to none d = none
bound_to (some key) d = get key d

unfoldable pub create_or_get_run :
    String → ℕ → String → Option String → Option String → NewRun → Method (Run × Bool)
unfolding existing_run build_run add_run
create_or_get_run run_id now conversation_id key fingerprint new s =
    if is_none key && is_some fingerprint || is_some key && is_none fingerprint
    then (err value_error, s)
    else elim (bound_to key s.idempotency) [
      | some existing_id ↦ (existing_run fingerprint existing_id (get existing_id s.runs), s)
      | none ↦
          (let run = build_run run_id now conversation_id key fingerprint new in
            (ok (run, true), add_run run s))
    ]

abbrev created_run_id : Result RepositoryError (Run × Bool) → Result RepositoryError String
created_run_id (err e) = err e
created_run_id (ok (run, created)) = if created then ok run.run_id else err runtime_error

unfoldable pub create_run : String → ℕ → String → NewRun → Method String
unfolding create_or_get_run
create_run run_id now conversation_id new s =
    let (r, s') = create_or_get_run run_id now conversation_id none none new s in
    (created_run_id r, s')
