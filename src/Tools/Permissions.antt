-- ===== src/Tools/Permissions.antt =====
-- The permission modes of backend/core/tools/security/permissions.py; its rules and its engine are in
-- the children of this module.
pub mod Types
pub mod Commands
pub mod Rules
pub mod Engine
pub mod Modes
use chat_tree.Prelude.{String, ◌==◌, ◌||◌, Option, none, some, if◌then◌else◌}

unfoldable pub normalize_permission_mode : Option String → String
normalize_permission_mode none = "modify_only"
normalize_permission_mode (some value) =
    if value == "auto_approve" || value == "auto" || value == "bypass_permissions"
    then "auto_approve"
    else if value == "modify_only"
        || value == "ask_on_modify"
        || value == "ask_modify"
        || value == "modify"
        || value == ""
    then "modify_only"
    else if value == "default"
    then "default"
    else if value == "ask_always" || value == "ask_all" || value == "all"
    then "ask_always"
    else if value == "plan" || value == "plan_mode"
    then "plan"
    else if value == "dont_ask"
    then "dont_ask"
    else "modify_only"
