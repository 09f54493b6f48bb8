-- ===== src/Tools/Permissions/Engine.antt =====
-- `PermissionEngine.evaluate` of backend/core/tools/security/permissions.py. `str` is Python's, of a value.
use chat_tree.Prelude.{
  String, ◌==◌, Bool, true, false, not, ◌&&◌, ◌||◌, Option, none, some, List, [], ◌∷◌, ◌++◌,
  if◌then◌else◌, append_text,
}
use chat_tree.Json.{Value}
use chat_tree.Chat.Conversation.{contains}
use chat_tree.Tools.Permissions.{normalize_permission_mode}
use chat_tree.Tools.Permissions.Types.{
  allow, ask, deny, RuleTargetType, tool, mcp_tool, PermissionRule, PermissionContext,
  PermissionDecision, decision, is_default,
}
use chat_tree.Tools.Permissions.Commands.{is_mutating_tool_call, is_explicit_delete}
use chat_tree.Tools.Permissions.Rules.{matches, first_behavior, is_default_ask, rules_where}

abbrev pub is_plan_allowed_tool : String → Bool
is_plan_allowed_tool tool_name = contains tool_name (
    "glob" ∷ "read" ∷ "grep" ∷ "web" ∷ "tools" ∷ "enter_plan_mode" ∷ "ask_user_question"
    ∷ "exit_plan_mode" ∷ [])

abbrev pub is_plan_control_tool : String → Bool
is_plan_control_tool tool_name =
    contains tool_name ("enter_plan_mode" ∷ "ask_user_question" ∷ "exit_plan_mode" ∷ [])

abbrev pub is_agent_management_tool : String → Bool
is_agent_management_tool tool_name = contains tool_name ("agent" ∷ [])

abbrev pub is_builtin_read_tool : String → Bool
is_builtin_read_tool pattern = contains pattern ("web" ∷ "tools" ∷ "glob" ∷ "read" ∷ "grep" ∷ [])

abbrev pub is_mcp_tool : RuleTargetType → Bool
is_mcp_tool mcp_tool = true
is_mcp_tool _ = false

abbrev pub is_tool : RuleTargetType → Bool
is_tool tool = true
is_tool _ = false

unfoldable pub ask_reason : PermissionRule → String
ask_reason rule =
    if is_mcp_tool rule.target_type
    then append_text "MCP approval required by rule " rule.id
    else append_text "Approval required by rule " rule.id

unfoldable pub allow_reason : PermissionRule → String
allow_reason rule =
    if is_default rule.source && is_tool rule.target_type && is_builtin_read_tool rule.pattern
    then append_text "Allowed built-in read tool by default rule " rule.id
    else if is_default rule.source && is_tool rule.target_type
    then append_text "Allowed by default tool rule " rule.id
    else append_text "Allowed by rule " rule.id

-- A tool that is allowed, by a rule where one allows it.
abbrev pub controlled : String → Option PermissionRule → List PermissionRule → PermissionDecision
controlled reason none matched = decision allow reason matched
controlled reason (some rule) matched = decision allow (allow_reason rule) (rule ∷ [])

abbrev pub converted : PermissionRule → String
converted rule = append_text (append_text "dont_ask mode converted ask rule " rule.id) " to deny"

-- A rule that asks.
abbrev pub asked_by : String → PermissionRule → PermissionDecision
asked_by mode rule =
    if mode == "dont_ask"
    then decision deny (converted rule) (rule ∷ [])
    else decision ask (ask_reason rule) (rule ∷ [])

-- No rule decides.
abbrev pub fallback : String → List PermissionRule → PermissionDecision
fallback mode matched =
    if mode == "dont_ask"
    then decision deny "dont_ask mode denied unclassified tool call" matched
    else if mode == "bypass_permissions"
    then decision allow "bypass_permissions mode allows unclassified tool call" matched
    else decision ask "No matching allow rule; approval required" matched

abbrev pub without_explicit :
    String
    → Option PermissionRule
    → Option PermissionRule
    → List PermissionRule
    → PermissionDecision
without_explicit mode allowing asking matched =
    if mode == "bypass_permissions"
    then decision allow "bypass_permissions mode allows non-denied tool calls" matched
    else elim allowing [
      | some rule ↦ decision allow (allow_reason rule) (rule ∷ [])
      | none ↦ elim asking [ some rule ↦ asked_by mode rule | none ↦ fallback mode matched ]
    ]

abbrev pub with_explicit :
    String
    → Option PermissionRule
    → Option PermissionRule
    → Option PermissionRule
    → List PermissionRule
    → PermissionDecision
with_explicit mode (some rule) allowing asking matched = asked_by mode rule
with_explicit mode none allowing asking matched = without_explicit mode allowing asking matched

-- The modes in which the rules decide.
unfoldable pub by_rules : String → List PermissionRule → PermissionDecision
unfolding first_behavior rules_where ask_reason allow_reason
by_rules mode matched =
    with_explicit mode
      (first_behavior ask (rules_where (λ rule. not (is_default_ask rule)) matched))
      (first_behavior allow matched) (first_behavior ask (rules_where is_default_ask matched))
      matched

unfoldable pub by_mode : String → List PermissionRule → PermissionContext → PermissionDecision
unfolding by_rules is_explicit_delete is_mutating_tool_call
by_mode mode matched c =
    if mode == "ask_always"
    then decision ask "ask_always mode requires approval for every tool call" matched
    else if mode == "auto_approve"
    then if is_explicit_delete c.tool_name c.arguments
      then decision ask "auto_approve mode requires approval for explicit delete/remove operations"
          matched
      else decision allow "auto_approve mode allows non-delete tool calls" matched
    else if mode == "modify_only"
    then if is_explicit_delete c.tool_name c.arguments
      then decision ask "modify_only mode requires approval for explicit delete/remove operations"
          matched
      else if is_mutating_tool_call c.tool_name c.arguments
      then decision allow "modify_only mode allows modifying tool calls" matched
      else decision ask "modify_only mode requires approval for non-modifying tool calls" matched
    else by_rules mode matched

-- (context.run_kind or "chat") == "chat"
abbrev pub is_chat : Option String → Bool
is_chat none = true
is_chat (some run_kind) = run_kind == "" || run_kind == "chat"

-- No rule denies the call.
unfoldable pub undenied : String → List PermissionRule → PermissionContext → PermissionDecision
unfolding by_mode first_behavior allow_reason
undenied mode matched c =
    if mode == "plan"
    then if is_plan_allowed_tool c.tool_name
      then decision allow "plan mode allows read-only planning tools" matched
      else decision deny "plan mode blocks implementation tools until the plan is approved" matched
    else if c.tool_name == "memory" && is_chat c.run_kind
    then decision allow "Memory housekeeping tool allowed" matched
    else if is_plan_control_tool c.tool_name
    then controlled "Plan mode control tool allowed" (first_behavior allow matched) matched
    else if is_agent_management_tool c.tool_name
    then controlled "Agent management tool allowed" (first_behavior allow matched) matched
    else by_mode mode matched c

unfoldable pub judged : String → List PermissionRule → PermissionContext → PermissionDecision
unfolding undenied first_behavior
judged mode matched c = elim (first_behavior deny matched) [
  | some rule ↦ decision deny (append_text "Denied by rule " rule.id) (rule ∷ [])
  | none ↦ undenied mode matched c
]

module _ (str : Value → String) where
  -- [rule for rule in rules if rule.enabled and self._matches(rule, context)]
  unfoldable pub matched_rules : List PermissionRule → PermissionContext → List PermissionRule
  unfolding matches rules_where
  matched_rules rules c =
      rules_where (λ rule. rule.enabled && matches str rule c)
        (c.turn_grants ++ c.session_grants ++ rules)

  unfoldable pub evaluate : List PermissionRule → PermissionContext → PermissionDecision
  unfolding judged matched_rules normalize_permission_mode
  evaluate rules c = judged (normalize_permission_mode c.mode) (matched_rules rules c) c
