-- ===== src/Tools/Approvals/Types.antt =====
-- The data of backend/core/tools/security/approval.py. The clock reading that `created_at` defaults
-- to is a field that the caller sets.
use chat_tree.Prelude.{ℕ, String, Bool, true, false, Option, none, some, List, [], ◌∷◌}
use chat_tree.Dict.{Dict}
use chat_tree.Json.{Value, null, nat, string, list, Items, no_item, item, optional}

-- The statuses of a decision.
pub data Verdict : Type 0 where
  approved denied expired cancelled : Verdict

-- `ApprovalStatus`: "pending", or the status of the decision.
pub data ApprovalStatus : Type 0 where
  pending : ApprovalStatus
  decided : Verdict → ApprovalStatus

pub record ApprovalRequest : Type 0 where
  pub id : String
  pub conversation_id : String
  pub node_id : String
  pub tool_call_id : String
  pub tool_name : String
  pub arguments_preview : String
  pub risk_level : String
  pub reason : String
  pub suggested_actions : List String
  pub run_id : Option String
  pub run_kind : Option String
  pub created_by_run_id : Option String
  pub cancellation_parent_run_id : Option String
  pub root_run_id : Option String
  pub agent_name : Option String
  pub task_summary : Option String
  pub source_label : Option String
  pub created_at : ℕ
  pub expires_at : Option ℕ
  pub status : ApprovalStatus

pub record ApprovalDecision : Type 0 where
  pub status : Verdict
  pub scope : Option String

-- `asyncio.Future[ApprovalDecision]`: nothing cancels it, so it has a result or has none.
abbrev pub Future : Type 0
Future = Option ApprovalDecision

pub record Manager : Type 0 where
  pub timeout_seconds : Option ℕ
  pub requests : Dict ApprovalRequest
  pub futures : Dict Future
  pub session_allowed_tools : Dict (List String)

pub data ApprovalError : Type 0 where
  key_error : String → ApprovalError
  value_error : String → ApprovalError

abbrev pub status_text : ApprovalStatus → String
status_text pending = "pending"
status_text (decided approved) = "approved"
status_text (decided denied) = "denied"
status_text (decided expired) = "expired"
status_text (decided cancelled) = "cancelled"

abbrev pub texts : List String → Items
texts [] = no_item
texts (s ∷ ss) = item (string s) (texts ss)

abbrev pub optional_nat : Option ℕ → Value
optional_nat none = null
optional_nat (some n) = nat n

unfoldable pub to_payload : ApprovalRequest → Dict Value
to_payload r =
    ("id", string r.id)
    ∷ ("conversation_id", string r.conversation_id)
    ∷ ("node_id", string r.node_id)
    ∷ ("tool_call_id", string r.tool_call_id)
    ∷ ("tool_name", string r.tool_name)
    ∷ ("arguments_preview", string r.arguments_preview)
    ∷ ("risk_level", string r.risk_level)
    ∷ ("reason", string r.reason)
    ∷ ("suggested_actions", list (texts r.suggested_actions))
    ∷ ("created_at", nat r.created_at)
    ∷ ("expires_at", optional_nat r.expires_at)
    ∷ ("status", string (status_text r.status))
    ∷ ("run_id", optional r.run_id)
    ∷ ("run_kind", optional r.run_kind)
    ∷ ("created_by_run_id", optional r.created_by_run_id)
    ∷ ("cancellation_parent_run_id", optional r.cancellation_parent_run_id)
    ∷ ("root_run_id", optional r.root_run_id)
    ∷ ("agent_name", optional r.agent_name)
    ∷ ("task_summary", optional r.task_summary)
    ∷ ("source_label", optional r.source_label)
    ∷ []

abbrev pub is_pending : ApprovalStatus → Bool
is_pending pending = true
is_pending (decided v) = false
