-- ===== src/Examples/Permissions.antt =====
-- Examples for permissions and for the exposure of tools.
use chat_tree.Prelude.{
  String, ◌≡◌, ◌≢◌, ◌⊎◌, inl, inr, refl, true, false, not, ◌==◌, ◌&&◌, ◌||◌, Option, none, some,
  List, [], ◌∷◌, map,
}
use chat_tree.Dict.{get, insert}
use chat_tree.Json.{Value, string, object, no_field, field, truthy}
use chat_tree.Chat.Conversation.{contains}
use chat_tree.Tools.Matching.{
  codes, same, fnmatch, tokens, token, fits_all, strip, skip_spaces, split_once, after_prefix,
}
use chat_tree.Tools.Specs.{
  any_fits, tool_patterns, parse_tool_spec, command_spec_matches, patterns_include,
}
use chat_tree.Tools.Permissions.{normalize_permission_mode}
use chat_tree.Tools.Permissions.Types.{
  PermissionRule, PermissionContext, allow, ask, deny, tool, user, default_permission_rules,
}
use chat_tree.Tools.Permissions.Commands.{
  is_explicit_delete, tool_name_parts, alphanumeric_parts, command_text, is_delete_command,
}
use chat_tree.Tools.Permissions.Rules.{matches}
use chat_tree.Tools.Permissions.Engine.{is_plan_allowed_tool, evaluate}
use chat_tree.Tools.Permissions.Modes.{
  evaluate_denied, evaluate_plan, evaluate_guarded, evaluate_dont_ask,
}
use chat_tree.Tools.Exposure.{
  ToolDescriptor, ToolExposureContext, ToolExposureResolver, visible_local_names, by_name, kept,
  first_visible, profile_allows, without_plan, without_agent, with_allowed, without_disallowed,
  without_memory, explicit_allows, described, profile_or, is_plan_mode,
}
use chat_tree.Tools.Exposure.Guarantees.{
  visible_local_names_safe, visible_local_names_plan, visible_local_names_public,
}
use chat_tree.Tools.Exposure.Config.{
  descriptor_for_tool_name, new_resolver, find_field, optional_tuple,
}
use chat_tree.Tools.Exposure.Internal.{visible_local_names_internal}
use chat_tree.Tools.Exposure.Visible.{is_visible, contains-visible_local_names}

-- Only texts are asked for here.
abbrev str : Value → String
str (string s) = s
str _ = ""

abbrev rule : PermissionRule
rule = record {
  id = "no-removal";
  behavior = deny;
  target_type = tool;
  pattern = "shell(rm *)";
  conditions = [];
  source = user;
  enabled = true;
}

abbrev call : Option String → String → PermissionContext
call mode command = record {
  conversation_id = "c1";
  node_id = "n1";
  tool_call_id = "t1";
  tool_name = "shell";
  arguments = ("command", string command) ∷ [];
  source = "model";
  mode = mode;
  turn_grants = [];
  session_grants = [];
  run_id = none;
  run_kind = some "chat";
  created_by_run_id = none;
  cancellation_parent_run_id = none;
  root_run_id = none;
  agent_name = none;
  task_summary = none;
}

rule-matches : matches str rule (call (some "auto") "rm -r build") ≡ true
unfolding matches command_text command_spec_matches parse_tool_spec strip skip_spaces split_once
    after_prefix same fnmatch tokens token fits_all
rule-matches = refl

evaluate_denied_example :
    (evaluate str (rule ∷ []) (call (some "auto") "rm -r build")).behavior ≡ deny
evaluate_denied_example =
    evaluate_denied str (rule ∷ []) (call (some "auto") "rm -r build") (inl rule_is_deny)
  where
    rule_is_deny : (matches str rule (call (some "auto") "rm -r build") && true) ≡ true
    rule_is_deny = rw rule-matches refl

plan_normalized : normalize_permission_mode (some "plan_mode") ≡ "plan"
unfolding normalize_permission_mode
plan_normalized = refl

evaluate_plan_example :
    ((evaluate str default_permission_rules (call (some "plan_mode") "ls")).behavior ≡ deny)
    ⊎ (((evaluate str default_permission_rules (call (some "plan_mode") "ls")).behavior ≡ allow)
        × (is_plan_allowed_tool "shell" ≡ true))
evaluate_plan_example =
    evaluate_plan str default_permission_rules (call (some "plan_mode") "ls") plan_normalized

bypass_normalized : normalize_permission_mode (some "bypass_permissions") ≡ "auto_approve"
unfolding normalize_permission_mode
bypass_normalized = refl

removal : is_explicit_delete "shell" (("command", string "cd x; RM -r build") ∷ []) ≡ true
unfolding is_explicit_delete tool_name_parts alphanumeric_parts command_text is_delete_command same
    after_prefix skip_spaces
removal = refl

evaluate_guarded_example :
    (evaluate str [] (call (some "bypass_permissions") "cd x; RM -r build")).behavior ≢ allow
evaluate_guarded_example =
    evaluate_guarded str [] (call (some "bypass_permissions") "cd x; RM -r build") "auto_approve"
      bypass_normalized (inr (inl refl, removal)) refl

dont_ask_normalized : normalize_permission_mode (some "dont_ask") ≡ "dont_ask"
unfolding normalize_permission_mode
dont_ask_normalized = refl

evaluate_dont_ask_example :
    (evaluate str default_permission_rules (call (some "dont_ask") "ls")).behavior ≢ ask
evaluate_dont_ask_example =
    evaluate_dont_ask str default_permission_rules (call (some "dont_ask") "ls") dont_ask_normalized

-- A word inside of another is no deletion.
no_removal : is_explicit_delete "shell" (("command", string "echo rm; format") ∷ []) ≡ false
unfolding is_explicit_delete tool_name_parts alphanumeric_parts command_text is_delete_command same
    after_prefix skip_spaces
no_removal = refl

sets_match : fnmatch (codes "read_2b") (codes "r*_[!a-z][a-c]") ≡ true
unfolding fnmatch tokens token fits_all
sets_match = refl

abbrev descriptor : String → ToolDescriptor
descriptor name = record {
  name = name;
  kind = "builtin";
  category = "utility";
  capabilities = [];
  exposure_tags = [];
  model_visible = true;
  internal = false;
  aliases = [];
}

abbrev descriptors : List ToolDescriptor
descriptors = descriptor "read" ∷ descriptor "edit" ∷ descriptor "memory" ∷ []

abbrev resolver : ToolExposureResolver
resolver = record { default_profile = codes "coding"; explicit_visible = none; hidden = "web" ∷ [] }

abbrev exposure : String → Option (List String) → ToolExposureContext
exposure mode allowed = record {
  profile = none;
  run_kind = "chat";
  permission_mode = mode;
  allowed_tools = allowed;
  disallowed_tools = "web" ∷ [];
  include_mcp = false;
}

contains-visible_local_names_example :
    contains "edit" (visible_local_names resolver descriptors (exposure "default" none))
    ≡ is_visible resolver descriptors (exposure "default" none) "edit"
contains-visible_local_names_example =
    contains-visible_local_names resolver descriptors (exposure "default" none) "edit"

read_visible :
    contains "read" (visible_local_names resolver descriptors (exposure "plan" none)) ≡ true
unfolding visible_local_names by_name first_visible kept get insert profile_allows same without_plan
    without_agent with_allowed without_disallowed without_memory fnmatch tokens token fits_all
    parse_tool_spec strip skip_spaces split_once after_prefix
read_visible = refl

visible_local_names_safe_example :
    (contains "read" ("web" ∷ []) ≡ false)
    × (any_fits (codes "read") (tool_patterns ("web" ∷ [])) ≡ false)
    × ((("chat" == "chat" && not (is_plan_mode "plan")) || not ("read" == "memory")) ≡ true)
visible_local_names_safe_example =
    visible_local_names_safe resolver descriptors (exposure "plan" none) "read" read_visible

visible_local_names_plan_example :
    contains "edit" (visible_local_names resolver descriptors (exposure "plan" none)) ≡ false
visible_local_names_plan_example =
    visible_local_names_plan resolver descriptors (exposure "plan" none) "edit" refl refl refl

not_internal : same (profile_or (codes "coding") none) (codes "internal") ≡ false
unfolding same
not_internal = refl

visible_local_names_public_example :
    described explicit_allows (by_name descriptors []) "read" ≡ true
visible_local_names_public_example =
    visible_local_names_public resolver descriptors (exposure "plan" none) "read" refl not_internal
      read_visible

visible_local_names_internal_example :
    contains "create_task" (
      visible_local_names resolver
        (map descriptor_for_tool_name ("read" ∷ "create_task" ∷ []))
        (exposure "default" (some ("create_task" ∷ []))))
    ≡ false
visible_local_names_internal_example =
    visible_local_names_internal resolver ("read" ∷ "create_task" ∷ [])
      (exposure "default" (some ("create_task" ∷ []))) "create_task" refl not_internal refl

-- The configuration of the builtin tools goes before that of all tools.
configured :
    new_resolver str (
      field "builtin"
        (object (field "hidden_tools" (string "web") no_field))
        (field "exposure" (string "Full") (field "hidden_tools" (string "edit") no_field)))
    ≡ record { default_profile = codes "full"; explicit_visible = none; hidden = "web" ∷ [] }
unfolding new_resolver find_field truthy optional_tuple
configured = refl

-- In the planning mode a tool that changes something is visible when the run lists it.
edit_listed :
    contains "edit"
      (visible_local_names resolver descriptors (exposure "plan" (some ("edit" ∷ []))))
    ≡ true
unfolding visible_local_names by_name first_visible kept get insert profile_allows same without_plan
    without_agent with_allowed without_disallowed without_memory fnmatch tokens token fits_all
    parse_tool_spec strip skip_spaces split_once after_prefix patterns_include
edit_listed = refl
