-- ===== src/Runs/Types.antt =====
-- The state of `MemoryRunRepository` of backend/core/runs/repository.py. A method takes the
-- repository and returns its result or what it raises, beside the repository that it leaves. The
-- lock makes each method atomic, but for the exceptions that Lib names. Clock readings are arguments.
use chat_tree.Prelude.{ℕ, String, ◌==◌, Bool, ◌||◌, Option, List, [], Result}
use chat_tree.Dict.{Dict}
use chat_tree.Json.{Value}

pub record Run : Type 0 where
  pub id : String
  pub run_id : String
  pub conversation_id : String
  pub kind : String
  pub status : String
  pub created_by_run_id : Option String
  pub cancellation_parent_run_id : Option String
  pub anchor_node_id : Option String
  pub target_node_id : Option String
  pub summary : String
  pub metadata : Dict Value
  pub idempotency_key : Option String
  pub request_fingerprint : Option String
  pub event_count : ℕ
  pub created_at : ℕ
  pub updated_at : ℕ
  pub finished_at : Option ℕ

pub record Event : Type 0 where
  pub id : ℕ
  pub run_id : String
  pub conversation_id : String
  pub event_index : ℕ
  pub event_type : String
  pub payload : Dict Value
  pub payload_inline : Option String
  pub payload_blob_id : Option String
  pub created_at : ℕ

pub data RepositoryError : Type 0 where
  key_error : String → RepositoryError
  value_error : RepositoryError
  runtime_error : RepositoryError
  idempotency_conflict : String → RepositoryError

pub record Repository : Type 0 where
  pub runs : Dict Run
  pub events : Dict (List Event)
  pub idempotency : Dict String

unfoldable pub new_repository : Repository
new_repository = record { runs = []; events = []; idempotency = [] }

abbrev pub Method : Type 0 → Type 0
Method A = Repository → Result RepositoryError A × Repository

unfoldable pub is_finished : String → Bool
is_finished status =
    status == "completed"
    || status == "failed"
    || status == "cancelled"
    || status == "interrupted"
    || status == "stopped"
