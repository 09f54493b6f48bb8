-- ===== src/Tools/Exposure/Config.antt =====
-- What backend/core/tools/exposure.py makes of the configuration of tools, and the descriptors of the
-- tools of the server. `str` is Python's, of a value.
use Prim.Native.String.{String}
use chat_tree.Prelude.{Bool, true, false, ◌==◌, Option, none, some, List, [], ◌∷◌, if◌then◌else◌}
use chat_tree.Json.{
  Value, null, bool, nat, negative, string, list, object, Fields, no_field, field, Items, no_item,
  item, truthy,
}
use chat_tree.Chat.Conversation.{contains}
use chat_tree.Tools.Matching.{codes, lower}
use chat_tree.Tools.Exposure.{ToolDescriptor, ToolExposureResolver, internal_model_tool_names}

-- d.get(k); the last assignment to a key is its value.
unfoldable pub find_field : String → Fields → Option Value
find_field k no_field = none
find_field k (field j v fs) =
    let later = find_field k fs in
    elim later [ some w ↦ some w | none ↦ if j == k then some v else none ]

-- d.get(k, other)
abbrev pub field_or : String → Value → Fields → Value
field_or k other fs = elim (find_field k fs) [ none ↦ other | some v ↦ v ]

abbrev pub object_or_empty : Value → Fields
object_or_empty (object fs) = fs
object_or_empty _ = no_field

abbrev pub field_names : Fields → List String
field_names no_field = []
field_names (field k v fs) = k ∷ field_names fs

-- a or b
abbrev pub or_value : Value → Value → Value
or_value a b = if truthy a then a else b

-- `descriptor_for_tool_name`
abbrev pub built_in : String → String → List String → List String → ToolDescriptor
built_in name category capabilities exposure_tags = record {
  name = name;
  kind = "builtin";
  category = category;
  capabilities = capabilities;
  exposure_tags = exposure_tags;
  model_visible = true;
  internal = false;
  aliases = [];
}

abbrev pub internal_tool : String → ToolDescriptor
internal_tool name = record (built_in name "utility" [] []) {
  internal = true;
  model_visible = false;
}

unfoldable pub descriptor_for_tool_name : String → ToolDescriptor
descriptor_for_tool_name name =
    if contains name ("glob" ∷ "grep" ∷ "read" ∷ [])
    then built_in name "code" ("read" ∷ []) ("coding" ∷ "plan_safe" ∷ [])
    else if name == "edit"
    then built_in name "code" ("write" ∷ []) ("coding" ∷ [])
    else if contains name ("shell" ∷ "wait_command" ∷ [])
    then built_in name "code" ("command" ∷ []) ("coding" ∷ [])
    else if name == "agent"
    then built_in name "agent" ("agent" ∷ []) ("coding" ∷ [])
    else if name == "web"
    then built_in name "web" ("network_read" ∷ []) ("coding" ∷ "plan_safe" ∷ [])
    else if name == "tools"
    then built_in name "utility" ("read" ∷ []) ("discovery" ∷ [])
    else if name == "memory"
    then built_in name "housekeeping" ("write" ∷ []) ("housekeeping" ∷ [])
    else if contains name internal_model_tool_names
    then internal_tool name
    else built_in name "utility" [] []

unfoldable pub is_housekeeping_tool : String → Bool
unfolding descriptor_for_tool_name
is_housekeeping_tool name = (descriptor_for_tool_name name).category == "housekeeping"

module _ (str : Value → String) where
  abbrev pub item_texts : Items → List String
  item_texts no_item = []
  item_texts (item v vs) = str v ∷ item_texts vs

  -- `_optional_tuple`; a dictionary gives its keys.
  unfoldable pub optional_tuple : Value → Option (List String)
  optional_tuple null = none
  optional_tuple (string s) = some (s ∷ [])
  optional_tuple (list vs) = some (item_texts vs)
  optional_tuple (object fs) = some (field_names fs)
  optional_tuple (bool b) = none
  optional_tuple (nat n) = none
  optional_tuple (negative n) = none

  abbrev pub tuple_or_empty : Option (List String) → List String
  tuple_or_empty none = []
  tuple_or_empty (some names) = names

  -- `ToolExposureResolver(tools_config)`
  unfoldable pub new_resolver : Fields → ToolExposureResolver
  unfolding find_field truthy optional_tuple
  new_resolver tools_config =
      let builtin_config = object_or_empty (field_or "builtin" null tools_config) in
      let exposure = or_value (field_or "exposure" null builtin_config) (
        or_value (field_or "builtin_exposure" null tools_config)
          (or_value (field_or "exposure" null tools_config) (string "coding"))) in
      record {
        default_profile = lower (codes (str exposure));
        explicit_visible = optional_tuple (
            field_or "model_visible_tools" (field_or "model_visible_tools" null tools_config)
              builtin_config);
        hidden = tuple_or_empty (
            optional_tuple (
              field_or "hidden_tools" (field_or "hidden_tools" (list no_item) tools_config)
                builtin_config));
      }
