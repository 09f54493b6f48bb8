-- ===== src/Plans/Types.antt =====
-- The rows of plans of backend/core/persistence/schema.py, with the statuses of
-- backend/core/plans/types.py in place of their texts.
use chat_tree.Prelude.{
  ℕ, String, ◌==◌, Bool, true, false, ◌&&◌, ◌||◌, Option, none, some, List, [], ◌∷◌, Result,
}

pub data PlanStatus : Type 0 where
  active awaiting_question awaiting_approval approved rejected cancelled : PlanStatus

pub record Plan : Type 0 where
  pub id : String
  pub conversation_id : String
  pub status : PlanStatus
  pub previous_permission_mode : String
  pub entered_node_id : Option String
  pub entered_run_id : Option String
  pub approved_run_id : Option String
  pub question_tool_call_id : Option String
  pub exit_tool_call_id : Option String
  pub blocking_node_id : Option String
  pub blocking_run_id : Option String
  pub approved_at : Option ℕ
  pub rejected_at : Option ℕ
  pub created_at : ℕ
  pub updated_at : ℕ

-- Nodes and runs are pairs of their conversation and their identifier, which is what plans refer to.
pub record Tables : Type 0 where
  pub conversations : List String
  pub nodes : List (String × String)
  pub runs : List (String × String)
  pub plans : List Plan

pub data PlanError : Type 0 where
  key_error : String → PlanError
  value_error : String → PlanError
  not_found : String → PlanError
  integrity_error : PlanError

abbrev pub Transaction : Type 0
Transaction = Tables → Result PlanError (Plan × Tables)

-- The reference of a column; NULL refers to nothing.
unfoldable pub refers : List (String × String) → String → Option String → Bool
refers rows conversation_id none = true
refers [] conversation_id (some k) = false
refers ((c, j) ∷ rows) conversation_id (some k) =
    (c == conversation_id && j == k) || refers rows conversation_id (some k)

-- ACTIVE_PLAN_STATUS_VALUES
abbrev pub is_open : PlanStatus → Bool
is_open active = true
is_open awaiting_question = true
is_open awaiting_approval = true
is_open _ = false

-- The comparisons of the ledger.
abbrev pub awaits_question : PlanStatus → Bool
awaits_question awaiting_question = true
awaits_question _ = false

abbrev pub awaits_approval : PlanStatus → Bool
awaits_approval awaiting_approval = true
awaits_approval _ = false

abbrev pub may_ask : PlanStatus → Bool
may_ask active = true
may_ask awaiting_question = true
may_ask _ = false

abbrev pub may_exit : PlanStatus → Bool
may_exit active = true
may_exit awaiting_approval = true
may_exit _ = false

abbrev pub is_approved : PlanStatus → Bool
is_approved approved = true
is_approved _ = false
