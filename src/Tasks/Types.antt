-- ===== src/Tasks/Types.antt =====
-- The tables that backend/core/persistence/task_repository.py reads and writes, with their keys and
-- references from backend/core/persistence/schema.py. The steps of a task, which are deleted with
-- it, stand in its row in the order of their positions. A text that is stored as a blob is the text
-- itself.
use chat_tree.Prelude.{ℕ, String, Option, List, Result, ok, err}
use chat_tree.Dict.{Dict}

pub record Step : Type 0 where
  pub position : ℕ
  pub title : String
  pub detail : String
  pub status : String
  pub evidence_run_id : Option String
  pub evidence_summary : String
  pub updated_at : ℕ

pub record Task : Type 0 where
  pub conversation_id : String
  pub generation_id : String
  pub revision : ℕ
  pub title : String
  pub detail : String
  pub created_by_run_id : Option String
  pub created_by_tool_call_id : Option String
  pub created_at : ℕ
  pub updated_at : ℕ
  pub steps : List Step

pub record Binding : Type 0 where
  pub run_id : String
  pub conversation_id : String
  pub task_generation_id : String
  pub step_position : ℕ
  pub base_revision : ℕ
  pub created_at : ℕ

-- The columns of `runs` that are read here.
pub record RunRow : Type 0 where
  pub conversation_id : String
  pub status : String

-- `tasks` is keyed by the conversation, its primary key.
pub record Tables : Type 0 where
  pub conversations : List String
  pub runs : Dict RunRow
  pub tasks : Dict Task
  pub bindings : List Binding

-- What a method raises. `integrity_error` is a key or a check that the tables refuse.
pub data TaskError : Type 0 where
  key_error : TaskError
  version_conflict : String → ℕ → TaskError
  runtime_error : String → TaskError
  value_error : TaskError
  integrity_error : TaskError

abbrev pub Transaction : Type 0 → Type 0
Transaction A = Tables → Result TaskError (A × Tables)

-- `with persistence.connect()`: a raise rolls back.
abbrev pub connect :
    {A : Type 0} → Result TaskError (A × Tables) → Tables → Result TaskError A × Tables
connect (err e) s = (err e, s)
connect (ok (a, s')) s = (ok a, s')
