-- ===== src/Notifications/Types.antt =====
-- The table task_notifications of backend/core/persistence/schema.py, with its statuses as a data type,
-- and what backend/core/notifications/task_notifications.py reads of runs and nodes. The identifier is
-- the primary key, so the rows are a dictionary.
use chat_tree.Prelude.{
  ℕ, String, ◌==◌, Bool, true, false, ◌&&◌, ◌||◌, Option, none, some, List, [], ◌∷◌, if◌then◌else◌,
}
use chat_tree.Dict.{Dict, get}

pub data Status : Type 0 where
  unbound bound delivering delivered delivery_failed delivery_cancelled : Status

pub record Notification : Type 0 where
  pub id : String
  pub conversation_id : String
  pub source_run_id : String
  pub source_run_kind : String
  pub status : Status
  pub summary : String
  pub content : String
  pub delivery_node_id : Option String
  pub delivery_run_id : Option String
  pub created_at : ℕ
  pub updated_at : ℕ

pub record RunRow : Type 0 where
  pub conversation_id : String
  pub kind : String
  pub anchor_node_id : Option String
  pub target_node_id : Option String

-- Nodes are pairs of their conversation and their identifier.
pub record Tables : Type 0 where
  pub runs : Dict RunRow
  pub nodes : List (String × String)
  pub notifications : Dict Notification

pub data NotificationError : Type 0 where
  key_error : String → NotificationError
  transition_error : String → NotificationError
  integrity_error : NotificationError

abbrev pub status_text : Status → String
status_text unbound = "unbound"
status_text bound = "bound"
status_text delivering = "delivering"
status_text delivered = "delivered"
status_text delivery_failed = "delivery_failed"
status_text delivery_cancelled = "delivery_cancelled"

abbrev pub is_unbound : Status → Bool
is_unbound unbound = true
is_unbound _ = false

abbrev pub is_bound : Status → Bool
is_bound bound = true
is_bound _ = false

abbrev pub is_delivering : Status → Bool
is_delivering delivering = true
is_delivering _ = false

-- status IN ('unbound', 'bound', 'delivering')
abbrev pub is_pending : Status → Bool
is_pending unbound = true
is_pending bound = true
is_pending delivering = true
is_pending _ = false

-- WHERE conversation_id = ? AND id = ?
unfoldable pub find_notification : String → String → Dict Notification → Option Notification
find_notification conversation_id id rows = elim (get id rows) [
  | none ↦ none
  | some n ↦ if n.conversation_id == conversation_id then some n else none
]

-- SELECT 1 FROM runs WHERE conversation_id = ? AND id = ?
unfoldable pub has_run : String → String → Dict RunRow → Bool
has_run conversation_id run_id runs = elim (get run_id runs) [
  | none ↦ false
  | some run ↦ run.conversation_id == conversation_id
]

-- SELECT 1 FROM nodes WHERE conversation_id = ? AND id = ?
unfoldable pub has_node : String → String → List (String × String) → Bool
has_node conversation_id node_id [] = false
has_node conversation_id node_id ((k, j) ∷ nodes) =
    (k == conversation_id && j == node_id) || has_node conversation_id node_id nodes

-- A row with what it joins of its run.
pub record NotificationView : Type 0 where
  pub row : Notification
  pub anchor_node_id : Option String
  pub target_node_id : Option String
  pub resolved_source_run_kind : String

abbrev pub joined : Notification → Option RunRow → NotificationView
joined n none = record {
  row = n;
  anchor_node_id = none;
  target_node_id = none;
  resolved_source_run_kind = n.source_run_kind;
}
joined n (some run) =
    if run.conversation_id == n.conversation_id
    then record {
      row = n;
      anchor_node_id = run.anchor_node_id;
      target_node_id = run.target_node_id;
      resolved_source_run_kind = if n.source_run_kind == "" then run.kind else n.source_run_kind;
    }
    else record {
      row = n;
      anchor_node_id = none;
      target_node_id = none;
      resolved_source_run_kind = n.source_run_kind;
    }

abbrev pub view : Tables → Notification → NotificationView
view s n = joined n (get n.source_run_id s.runs)
