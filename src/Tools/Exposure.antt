-- ===== src/Tools/Exposure.antt =====
-- `ToolExposureResolver` of backend/core/tools/exposure.py: which tools a model sees. A set is a list, and
-- `visible` below is what the code calls so at some moment. `str` is Python's, of a value.
pub mod Sets
pub mod Visible
pub mod Guarantees
pub mod Mcp
pub mod Config
pub mod Internal
use Prim.Native.String.{String}
use chat_tree.Prelude.{
  ◌==◌, Bool, true, false, not, ◌&&◌, ◌||◌, Option, none, some, List, [], ◌∷◌, ◌++◌, map,
  if◌then◌else◌,
}
use chat_tree.Dict.{Dict, get, insert, has, keys}
use chat_tree.Json.{
  Value, null, string, list, object, Fields, no_field, field, Items, no_item, item, truthy,
}
use chat_tree.Chat.Conversation.{contains}
use chat_tree.Tools.Matching.{Codes, codes, same, among, lower}
use chat_tree.Tools.Specs.{any_fits, tool_patterns, patterns_include}

pub record ToolDescriptor : Type 0 where
  pub name : String
  pub kind : String
  pub category : String
  pub capabilities : List String
  pub exposure_tags : List String
  pub model_visible : Bool
  pub internal : Bool
  pub aliases : List String

pub record ToolExposureContext : Type 0 where
  pub profile : Option String
  pub run_kind : String
  pub permission_mode : String
  pub allowed_tools : Option (List String)
  pub disallowed_tools : List String
  pub include_mcp : Bool

pub record ToolExposureResolver : Type 0 where
  pub default_profile : Codes
  pub explicit_visible : Option (List String)
  pub hidden : List String

abbrev pub canonical_coding_tools : List String
canonical_coding_tools =
    "glob" ∷ "grep" ∷ "read" ∷ "edit" ∷ "shell" ∷ "wait_command" ∷ "agent" ∷ "web" ∷ "memory"
    ∷ "enter_plan_mode" ∷ "ask_user_question" ∷ "exit_plan_mode" ∷ []

abbrev pub plan_mutating_tools : List String
plan_mutating_tools = "agent" ∷ "edit" ∷ "memory" ∷ "shell" ∷ []

abbrev pub internal_model_tool_names : List String
internal_model_tool_names = "create_task" ∷ "set_task_step" ∷ "cancel_task" ∷ []

-- `_profile_allows`
unfoldable pub profile_allows : ToolDescriptor → Codes → Bool
profile_allows d profile =
    if d.internal || not d.model_visible
    then same profile (codes "internal")
    else if same profile (codes "internal")
    then true
    else if same profile (codes "full")
    then not (contains d.name internal_model_tool_names)
    else if same profile (codes "minimal")
    then contains d.name ("glob" ∷ "grep" ∷ "read" ∷ "web" ∷ [])
    else contains d.name canonical_coding_tools

-- `_explicit_allows`
abbrev pub explicit_allows : ToolDescriptor → Bool
explicit_allows d = d.model_visible && not d.internal

-- The profile of `_context`: that of the call in lower case, or the default.
abbrev pub profile_or : Codes → Option String → Codes
profile_or [] none = codes "coding"
profile_or (c ∷ s) none = c ∷ s
profile_or [] (some p) = if p == "" then codes "coding" else lower (codes p)
profile_or (c ∷ s) (some p) = if p == "" then c ∷ s else lower (codes p)

-- {descriptor.name: descriptor for descriptor in descriptors}
unfoldable pub by_name : List ToolDescriptor → Dict ToolDescriptor → Dict ToolDescriptor
by_name [] d = d
by_name (t ∷ ts) d = by_name ts (insert t.name t d)

-- The elements of a set that pass a test.
unfoldable pub kept : (String → Bool) → List String → List String
kept keep [] = []
kept keep (x ∷ xs) = let rest = kept keep xs in if keep x then x ∷ rest else rest

-- A test of the descriptor of a name.
abbrev pub described : (ToolDescriptor → Bool) → Dict ToolDescriptor → String → Bool
described test d name = elim (get name d) [ none ↦ false | some t ↦ test t ]

abbrev pub is_plan_mode : String → Bool
is_plan_mode mode = mode == "plan" || mode == "plan_mode"

abbrev pub is_nested : String → Bool
is_nested run_kind = run_kind == "agent" || run_kind == "workflow" || run_kind == "workflow_step"

unfoldable pub first_visible : ToolExposureResolver → Dict ToolDescriptor → Codes → List String
unfolding kept profile_allows
first_visible r d profile = elim r.explicit_visible [
  | some names ↦ kept (λ x. has x d) names
  | none ↦ kept (λ x. described (λ t. profile_allows t profile) d x) (keys d)
]

unfoldable pub without_plan : ToolExposureContext → List String → List String
unfolding kept
without_plan c visible =
    if is_plan_mode c.permission_mode
    then kept (λ x. not (contains x plan_mutating_tools)) visible
    else visible

unfoldable pub without_agent : ToolExposureContext → List String → List String
unfolding kept patterns_include
without_agent c visible =
    if is_nested c.run_kind && not (patterns_include c.allowed_tools "agent")
    then kept (λ x. not (x == "agent")) visible
    else visible

-- `requested`, and what is then visible.
abbrev pub requested_names : Dict ToolDescriptor → List String → List String
requested_names d patterns = kept (λ x. any_fits (codes x) (tool_patterns patterns)) (keys d)

unfoldable pub with_allowed : Option (List String) → Dict ToolDescriptor → List String → List String
unfolding kept patterns_include
with_allowed none d visible = visible
with_allowed (some patterns) d visible =
    if patterns_include (some patterns) "*"
    then kept (λ x. contains x (requested_names d patterns)) visible
    else (let requested = kept (λ x. described explicit_allows d x) (requested_names d patterns) in
        kept (λ x. contains x requested) (visible ++ requested))

unfoldable pub without_disallowed : List String → List String → List String
unfolding kept
without_disallowed patterns visible =
    kept (λ x. not (any_fits (codes x) (tool_patterns patterns))) visible

unfoldable pub without_memory : ToolExposureContext → List String → List String
unfolding kept
without_memory c visible =
    if not (c.run_kind == "chat") || is_plan_mode c.permission_mode
    then kept (λ x. not (x == "memory")) visible
    else visible

unfoldable pub visible_local_names :
    ToolExposureResolver → List ToolDescriptor → ToolExposureContext → List String
unfolding by_name first_visible without_plan without_agent with_allowed without_disallowed kept
    without_memory
visible_local_names r descriptors c =
    let d = by_name descriptors [] in
    let profile = profile_or r.default_profile c.profile in
    let visible = without_agent c (without_plan c (first_visible r d profile)) in
    let allowed = without_disallowed c.disallowed_tools (with_allowed c.allowed_tools d visible) in
    without_memory c (kept (λ x. not (contains x r.hidden)) allowed)
