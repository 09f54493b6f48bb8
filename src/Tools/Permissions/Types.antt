-- ===== src/Tools/Permissions/Types.antt =====
-- The data of backend/core/tools/security/permissions.py, and its default rules.
use chat_tree.Prelude.{String, Bool, true, Option, List, [], ◌∷◌}
use chat_tree.Dict.{Dict}
use chat_tree.Json.{Value}

pub data PermissionBehavior : Type 0 where
  allow ask deny : PermissionBehavior

pub data RuleTargetType : Type 0 where
  tool mcp_server mcp_tool filesystem network command : RuleTargetType

pub data RuleSource : Type 0 where
  default user session project : RuleSource

pub record PermissionRule : Type 0 where
  pub id : String
  pub behavior : PermissionBehavior
  pub target_type : RuleTargetType
  pub pattern : String
  pub conditions : Dict Value
  pub source : RuleSource
  pub enabled : Bool

pub record PermissionContext : Type 0 where
  pub conversation_id : String
  pub node_id : String
  pub tool_call_id : String
  pub tool_name : String
  pub arguments : Dict Value
  pub source : String
  pub mode : Option String
  pub turn_grants : List PermissionRule
  pub session_grants : List PermissionRule
  pub run_id : Option String
  pub run_kind : Option String
  pub created_by_run_id : Option String
  pub cancellation_parent_run_id : Option String
  pub root_run_id : Option String
  pub agent_name : Option String
  pub task_summary : Option String

pub record PermissionDecision : Type 0 where
  pub behavior : PermissionBehavior
  pub reason : String
  pub matched_rules : List PermissionRule
  pub suggested_grants : List PermissionRule
  pub sandbox_checks : List String

-- PermissionDecision(behavior, reason, matched_rules)
abbrev pub decision : PermissionBehavior → String → List PermissionRule → PermissionDecision
decision behavior reason matched_rules = record {
  behavior = behavior;
  reason = reason;
  matched_rules = matched_rules;
  suggested_grants = [];
  sandbox_checks = [];
}

abbrev pub default_rule : String → PermissionBehavior → RuleTargetType → String → PermissionRule
default_rule id behavior target_type pattern = record {
  id = id;
  behavior = behavior;
  target_type = target_type;
  pattern = pattern;
  conditions = [];
  source = default;
  enabled = true;
}

abbrev pub default_permission_rules : List PermissionRule
default_permission_rules =
    default_rule "default-allow-web" allow tool "web"
    ∷ default_rule "default-allow-tools" allow tool "tools"
    ∷ default_rule "default-allow-agent" allow tool "agent"
    ∷ default_rule "default-allow-create-task" allow tool "create_task"
    ∷ default_rule "default-allow-set-task-step" allow tool "set_task_step"
    ∷ default_rule "default-allow-cancel-task" allow tool "cancel_task"
    ∷ default_rule "default-allow-enter-plan-mode" allow tool "enter_plan_mode"
    ∷ default_rule "default-allow-ask-user-question" allow tool "ask_user_question"
    ∷ default_rule "default-allow-exit-plan-mode" allow tool "exit_plan_mode"
    ∷ default_rule "default-allow-glob" allow tool "glob"
    ∷ default_rule "default-allow-read" allow tool "read"
    ∷ default_rule "default-allow-grep" allow tool "grep"
    ∷ default_rule "default-ask-shell" ask tool "shell"
    ∷ default_rule "default-ask-edit" ask tool "edit"
    ∷ default_rule "default-ask-mcp" ask mcp_tool "*"
    ∷ []

-- behavior == other
abbrev pub is_same : PermissionBehavior → PermissionBehavior → Bool
is_same allow allow = true
is_same ask ask = true
is_same deny deny = true
is_same _ _ = Bool.false

abbrev pub is_default : RuleSource → Bool
is_default default = true
is_default _ = Bool.false
