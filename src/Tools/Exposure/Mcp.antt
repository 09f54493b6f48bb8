-- ===== src/Tools/Exposure/Mcp.antt =====
-- Which tools of MCP servers backend/core/tools/exposure.py shows.
use Prim.Native.String.{String}
use chat_tree.Prelude.{
  ◌==◌, Bool, true, false, not, ◌&&◌, ◌||◌, none, some, List, [], ◌∷◌, is_some, append_text,
  if◌then◌else◌,
}
use chat_tree.Tools.Matching.{Codes, codes, same, has_code, after_prefix, split_once, fnmatch}
use chat_tree.Tools.Specs.{ToolSpec, has_argument_pattern, parse_tool_spec}
use chat_tree.Tools.Exposure.{ToolExposureContext, ToolExposureResolver, profile_or}

unfoldable pub spec_may_match_mcp : ToolSpec → Bool
unfolding after_prefix split_once
spec_may_match_mcp spec =
    is_some (after_prefix (codes "mcp") spec.tool_pattern)
    || is_some (split_once (codes "__") spec.tool_pattern)
    || has_code b'.' spec.tool_pattern

abbrev pub any_may_match : List String → Bool
any_may_match [] = false
any_may_match (p ∷ patterns) =
    spec_may_match_mcp (parse_tool_spec (codes p)) || any_may_match patterns

unfoldable pub mcp_visible : ToolExposureResolver → ToolExposureContext → Bool
mcp_visible r c =
    c.include_mcp
    || same (profile_or r.default_profile c.profile) (codes "internal")
    || elim c.allowed_tools [ none ↦ false | some patterns ↦ any_may_match patterns ]

abbrev pub any_variant_fits : List String → Codes → Bool
any_variant_fits [] pattern = false
any_variant_fits (v ∷ variants) pattern =
    (not (v == "") && fnmatch (codes v) pattern) || any_variant_fits variants pattern

unfoldable pub mcp_spec_matches_variant : ToolSpec → List String → Bool
unfolding fnmatch
mcp_spec_matches_variant spec variants =
    if has_argument_pattern spec
    then false
    else if same spec.tool_pattern (codes "*")
    then true
    else any_variant_fits variants spec.tool_pattern

abbrev pub any_spec_matches : List String → List String → Bool
any_spec_matches [] variants = false
any_spec_matches (p ∷ patterns) variants =
    mcp_spec_matches_variant (parse_tool_spec (codes p)) variants
    || any_spec_matches patterns variants

-- callable_name, original_name, and f"{server_name}.{original_name}" if there are both
abbrev pub variants_of : String → String → String → List String
variants_of callable_name original_name server_name =
    callable_name
    ∷ original_name
    ∷ (if server_name == "" || original_name == ""
        then ""
        else append_text (append_text server_name ".") original_name)
    ∷ []

unfoldable pub mcp_tool_visible :
    ToolExposureResolver → String → String → String → ToolExposureContext → Bool
unfolding mcp_visible mcp_spec_matches_variant parse_tool_spec
mcp_tool_visible r callable_name original_name server_name c =
    let variants = variants_of callable_name original_name server_name in
    if not (mcp_visible r c)
    then false
    else elim c.allowed_tools [ none ↦ true | some patterns ↦ any_spec_matches patterns variants ]
      && not (any_spec_matches c.disallowed_tools variants)
