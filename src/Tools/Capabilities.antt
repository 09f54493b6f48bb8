-- ===== src/Tools/Capabilities.antt =====
-- backend/core/tools/security/capabilities.py: what a tool is allowed to be used for.
use chat_tree.Prelude.{
  String, Bool, true, false, ◌||◌, Option, none, some, List, [], ◌∷◌, Result, ok, err, ◌>>=◌,
}
use chat_tree.Dict.{Dict, get}

pub data ToolCapability : Type 0 where
  read_only parallel_safe network_read filesystem_read filesystem_write : ToolCapability
  command_exec config_write mutates_workspace mutates_runtime_state : ToolCapability
  requires_approval mcp_dynamic : ToolCapability

pub data CapabilityError : Type 0 where
  unknown_tool : String → CapabilityError
  unknown_capability : String → CapabilityError

-- The value of each member of the enumeration.
abbrev capability_names : Dict ToolCapability
capability_names =
    ("READ_ONLY", read_only)
    ∷ ("PARALLEL_SAFE", parallel_safe)
    ∷ ("NETWORK_READ", network_read)
    ∷ ("FILESYSTEM_READ", filesystem_read)
    ∷ ("FILESYSTEM_WRITE", filesystem_write)
    ∷ ("COMMAND_EXEC", command_exec)
    ∷ ("CONFIG_WRITE", config_write)
    ∷ ("MUTATES_WORKSPACE", mutates_workspace)
    ∷ ("MUTATES_RUNTIME_STATE", mutates_runtime_state)
    ∷ ("REQUIRES_APPROVAL", requires_approval)
    ∷ ("MCP_DYNAMIC", mcp_dynamic)
    ∷ []

abbrev pub network_reader : List ToolCapability
network_reader = network_read ∷ read_only ∷ parallel_safe ∷ []

abbrev pub file_reader : List ToolCapability
file_reader = filesystem_read ∷ read_only ∷ parallel_safe ∷ []

abbrev pub runtime_mutator : List ToolCapability
runtime_mutator = mutates_runtime_state ∷ []

abbrev pub default_tool_capabilities : Dict (List ToolCapability)
default_tool_capabilities =
    ("web", network_reader)
    ∷ ("tools", read_only ∷ parallel_safe ∷ [])
    ∷ ("memory", config_write ∷ mutates_runtime_state ∷ [])
    ∷ ("enter_plan_mode", runtime_mutator)
    ∷ ("ask_user_question", runtime_mutator)
    ∷ ("exit_plan_mode", runtime_mutator)
    ∷ ("glob", file_reader)
    ∷ ("read", file_reader)
    ∷ ("grep", file_reader)
    ∷ ("edit", filesystem_write ∷ mutates_workspace ∷ requires_approval ∷ [])
    ∷ ("shell", command_exec ∷ mutates_runtime_state ∷ requires_approval ∷ [])
    ∷ ("wait_command", runtime_mutator)
    ∷ ("agent", runtime_mutator)
    ∷ ("create_task", runtime_mutator)
    ∷ ("set_task_step", runtime_mutator)
    ∷ ("cancel_task", runtime_mutator)
    ∷ []

-- An override names a capability by its value or by the member itself.
pub data CapabilityRef : Type 0 where
  named : String → CapabilityRef
  member : ToolCapability → CapabilityRef

named_capability : String → Option ToolCapability → Result CapabilityError ToolCapability
named_capability s none = err (unknown_capability s)
named_capability s (some c) = ok c

unfoldable pub to_capability : CapabilityRef → Result CapabilityError ToolCapability
unfolding named_capability
to_capability (member c) = ok c
to_capability (named s) = named_capability s (get s capability_names)

unfoldable pub to_capabilities : List CapabilityRef → Result CapabilityError (List ToolCapability)
unfolding to_capability
to_capabilities [] = ok []
to_capabilities (r ∷ rs) = do c ← to_capability r; cs ← to_capabilities rs; ok (c ∷ cs)

default_capabilities :
    String → Option (List ToolCapability) → Result CapabilityError (List ToolCapability)
default_capabilities name none = err (unknown_tool name)
default_capabilities name (some cs) = ok cs

override_capabilities :
    String → Option (List CapabilityRef) → Result CapabilityError (List ToolCapability)
unfolding default_capabilities
override_capabilities name none = default_capabilities name (get name default_tool_capabilities)
override_capabilities name (some refs) = to_capabilities refs

-- With no overrides given, `overrides` is the empty mapping.
unfoldable pub capabilities_for_tool :
    String → Dict (List CapabilityRef) → Result CapabilityError (List ToolCapability)
unfolding override_capabilities
capabilities_for_tool name overrides = override_capabilities name (get name overrides)

-- A registered tool declares its capabilities, or is looked up by its name.
unfoldable pub capabilities_for_registered_tool :
    String → Option (List CapabilityRef) → Result CapabilityError (List ToolCapability)
unfolding capabilities_for_tool
capabilities_for_registered_tool name none = capabilities_for_tool name []
capabilities_for_registered_tool name (some refs) = to_capabilities refs

-- The argument is `annotations["readOnlyHint"] is True`, with `none` for a schema whose
-- annotations are no mapping.
unfoldable pub capabilities_for_mcp_tool : Option Bool → List ToolCapability
capabilities_for_mcp_tool none = mcp_dynamic ∷ []
capabilities_for_mcp_tool (some true) = mcp_dynamic ∷ read_only ∷ parallel_safe ∷ []
capabilities_for_mcp_tool (some false) = mcp_dynamic ∷ []

abbrev is_parallel_capability : ToolCapability → Bool
is_parallel_capability parallel_safe = true
is_parallel_capability _ = false

unfoldable pub is_parallel_safe : List ToolCapability → Bool
is_parallel_safe [] = false
is_parallel_safe (c ∷ cs) = is_parallel_capability c || is_parallel_safe cs
