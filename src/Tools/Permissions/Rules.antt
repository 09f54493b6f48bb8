-- ===== src/Tools/Permissions/Rules.antt =====
-- Which rules of backend/core/tools/security/permissions.py match a call. `str` is Python's, of a value.
use Prim.Native.String.{String}
use chat_tree.Prelude.{
  Bool, false, not, ◌&&◌, ◌||◌, ◌==◌, Option, none, some, List, [], ◌∷◌, ◌++◌, is_some,
  if◌then◌else◌,
}
use chat_tree.Dict.{Dict}
use chat_tree.Json.{Value, truthy, get_value}
use chat_tree.Tools.Matching.{Codes, codes, has_code, split_once, after_prefix, fnmatch}
use chat_tree.Tools.Specs.{command_spec_matches}
use chat_tree.Tools.Permissions.Types.{
  PermissionBehavior, RuleTargetType, tool, mcp_server, mcp_tool, filesystem, network, command,
  PermissionRule, PermissionContext, is_same, is_default,
}
use chat_tree.Tools.Permissions.Commands.{route_name, command_text}

-- "(" in pattern and ")" in pattern
abbrev pub has_arguments : String → Bool
has_arguments pattern = has_code b'(' (codes pattern) && has_code b')' (codes pattern)

-- (server_name, tool_part, route_name), if neither of the first is empty
abbrev pub parts_of : Codes → Option (Codes × Codes) → Option (Codes × Codes × Codes)
parts_of route none = none
parts_of route (some ([], part)) = none
parts_of route (some (c ∷ server, [])) = none
parts_of route (some (c ∷ server, d ∷ part)) = some (c ∷ server, d ∷ part, route)

unfoldable pub mcp_parts : Codes → Option (Codes × Codes × Codes)
unfolding split_once after_prefix
mcp_parts tool_name =
    parts_of (route_name tool_name) (split_once (codes "__") (route_name tool_name))

unfoldable pub mcp_tool_name_variants : Codes → List Codes
unfolding mcp_parts after_prefix
mcp_tool_name_variants tool_name = elim (mcp_parts tool_name) [
  | none ↦ []
  | some (server, part, route) ↦
      if is_some (after_prefix (codes "mcp__") tool_name)
      then tool_name ∷ route ∷ []
      else tool_name ∷ (codes "mcp__" ++ route) ∷ []
]

abbrev pub any_variant : List Codes → Codes → Bool
any_variant [] pattern = false
any_variant (v ∷ vs) pattern = fnmatch v pattern || any_variant vs pattern

abbrev pub matches_command : String → Option String → String → Bool
matches_command tool_name none pattern = false
matches_command tool_name (some text) pattern =
    not (text == "") && command_spec_matches (codes tool_name) (codes text) (codes pattern)

-- first_behavior
unfoldable pub first_behavior : PermissionBehavior → List PermissionRule → Option PermissionRule
first_behavior behavior [] = none
first_behavior behavior (rule ∷ rules) =
    if is_same rule.behavior behavior then some rule else first_behavior behavior rules

abbrev pub is_default_ask : PermissionRule → Bool
is_default_ask rule = is_same rule.behavior PermissionBehavior.ask && is_default rule.source

unfoldable pub rules_where : (PermissionRule → Bool) → List PermissionRule → List PermissionRule
rules_where keep [] = []
rules_where keep (rule ∷ rules) =
    let rest = rules_where keep rules in if keep rule then rule ∷ rest else rest

module _ (str : Value → String) where
  -- str(context.arguments.get("command") or "")
  abbrev pub command_argument : Dict Value → String
  command_argument arguments =
      if truthy (get_value "command" arguments) then str (get_value "command" arguments) else ""

  abbrev pub matches_target : RuleTargetType → String → PermissionContext → Bool
  matches_target tool pattern c =
      if has_arguments pattern
      then matches_command c.tool_name (command_text c.arguments) pattern
      else fnmatch (codes c.tool_name) (codes pattern)
  matches_target mcp_tool pattern c =
      any_variant (mcp_tool_name_variants (codes c.tool_name)) (codes pattern)
  matches_target mcp_server pattern c = elim (mcp_parts (codes c.tool_name)) [
    | none ↦ false
    | some (server, part, route) ↦ fnmatch server (codes pattern)
  ]
  matches_target filesystem pattern c = false
  matches_target network pattern c = false
  matches_target command pattern c =
      let text = command_argument c.arguments in
      if has_arguments pattern
      then matches_command c.tool_name (some text) pattern
      else fnmatch (codes text) (codes pattern)

  -- `_matches`
  unfoldable pub matches : PermissionRule → PermissionContext → Bool
  unfolding fnmatch mcp_parts mcp_tool_name_variants command_text command_spec_matches truthy
      get_value
  matches rule c = matches_target rule.target_type rule.pattern c
