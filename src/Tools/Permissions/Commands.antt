-- ===== src/Tools/Permissions/Commands.antt =====
-- What backend/core/tools/security/permissions.py reads of the name and of the arguments of a call.
use Prim.Native.String.{String}
use chat_tree.Prelude.{
  ℕ, eqb, leb, Bool, true, false, not, ◌&&◌, ◌||◌, Option, none, some, List, [], ◌∷◌, ◌++◌,
  if◌then◌else◌,
}
use chat_tree.Dict.{Dict}
use chat_tree.Json.{Value, string}
use chat_tree.Tools.Matching.{Codes, codes, among, lower, skip_spaces, after_prefix}

abbrev pub is_alphanumeric : ℕ → Bool
is_alphanumeric c =
    (leb b'a' c && leb c b'z') || (leb b'A' c && leb c b'Z') || (leb b'0' c && leb c b'9')

-- A part that is not empty.
abbrev pub with_part : Codes → List Codes → List Codes
with_part [] parts = parts
with_part (c ∷ part) parts = (c ∷ part) ∷ parts

-- [part for part in re.split(r"[^a-zA-Z0-9]+", s) if part], after a part that has begun
unfoldable pub alphanumeric_parts : Codes → Codes → List Codes
alphanumeric_parts part [] = with_part part []
alphanumeric_parts part (c ∷ s) =
    let longer = alphanumeric_parts (part ++ c ∷ []) s in
    let fresh = alphanumeric_parts [] s in
    if is_alphanumeric c then longer else with_part part fresh

-- tool_name[5:] if tool_name.startswith("mcp__") else tool_name
abbrev pub route_name : Codes → Codes
route_name tool_name = elim (after_prefix (codes "mcp__") tool_name) [
  | none ↦ tool_name
  | some rest ↦ rest
]

unfoldable pub tool_name_parts : Codes → List Codes
unfolding alphanumeric_parts after_prefix
tool_name_parts tool_name = alphanumeric_parts [] (lower (route_name tool_name))

abbrev pub any_among : List Codes → List String → Bool
any_among [] names = false
any_among (part ∷ parts) names = among part names || any_among parts names

abbrev pub mutating_name_tokens : List String
mutating_name_tokens =
    "write" ∷ "delete" ∷ "remove" ∷ "move" ∷ "edit" ∷ "create" ∷ "mkdir" ∷ "append" ∷ "patch"
    ∷ "rename" ∷ "copy" ∷ "run" ∷ "command" ∷ "shell" ∷ "exec" ∷ []

abbrev pub delete_name_tokens : List String
delete_name_tokens = "delete" ∷ "remove" ∷ "rm" ∷ "unlink" ∷ "rmdir" ∷ []

abbrev pub text_of : Value → Option String
text_of (string s) = some s
text_of _ = none

unfoldable pub command_text : Dict Value → Option String
command_text [] = none
command_text ((key, value) ∷ arguments) =
    let rest = command_text arguments in
    if among (lower (codes key)) ("command" ∷ "cmd" ∷ "script" ∷ [])
    then elim (text_of value) [ none ↦ rest | some s ↦ some s ]
    else rest

-- \b after a word
abbrev pub is_boundary : Codes → Bool
is_boundary [] = true
is_boundary (c ∷ s) = not (is_alphanumeric c || eqb c b'_')

abbrev pub begins_word : Codes → List String → Bool
begins_word s [] = false
begins_word s (w ∷ ws) =
    elim (after_prefix (codes w) (lower s)) [ none ↦ false | some rest ↦ is_boundary rest ]
    || begins_word s ws

abbrev pub delete_commands : List String
delete_commands = "rm" ∷ "del" ∷ "erase" ∷ "rmdir" ∷ "remove-item" ∷ []

abbrev pub is_separator : ℕ → Bool
is_separator c = eqb c b';' || eqb c b'&' || eqb c b'|'

abbrev pub deletes_later : Codes → Bool
deletes_later [] = false
deletes_later (c ∷ s) =
    (is_separator c && begins_word (skip_spaces s) delete_commands) || deletes_later s

-- re.search(r"(?i)(^|[;&|]\s*)(rm|del|erase|rmdir|remove-item)\b", command)
unfoldable pub is_delete_command : Codes → Bool
unfolding after_prefix skip_spaces
is_delete_command command = begins_word command delete_commands || deletes_later command

unfoldable pub is_mutating_tool_call : String → Dict Value → Bool
unfolding tool_name_parts command_text
is_mutating_tool_call tool_name arguments =
    any_among (tool_name_parts (codes tool_name)) mutating_name_tokens
    || elim (command_text arguments) [ none ↦ false | some s ↦ true ]

unfoldable pub is_explicit_delete : String → Dict Value → Bool
unfolding tool_name_parts command_text is_delete_command
is_explicit_delete tool_name arguments =
    any_among (tool_name_parts (codes tool_name)) delete_name_tokens
    || elim (command_text arguments) [ none ↦ false | some s ↦ is_delete_command (codes s) ]
