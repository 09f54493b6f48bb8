-- ===== src/Tools/Specs.antt =====
-- The specifications of tools of backend/core/tools/exposure.py: a pattern for the tool, and perhaps one
-- for its argument.
use Prim.Native.String.{String}
use chat_tree.Prelude.{
  eqb, Bool, true, false, ◌&&◌, ◌||◌, Option, none, some, List, [], ◌∷◌, map, if◌then◌else◌,
}
use chat_tree.Tools.Matching.{Codes, codes, same, among, strip, split_once, fnmatch}

pub record ToolSpec : Type 0 where
  pub raw : Codes
  pub tool_pattern : Codes
  pub argument_pattern : Option Codes

abbrev pub has_argument_pattern : ToolSpec → Bool
has_argument_pattern spec = elim spec.argument_pattern [ none ↦ false | some p ↦ true ]

-- The text before the first `(`, if it is not empty and has no `)`, and the text after.
abbrev pub opened : Codes → Option (Codes × Codes)
opened [] = none
opened (c ∷ s) =
    let rest = opened s in
    if eqb c b'('
    then some ([], s)
    else if eqb c b')'
    then none
    else elim rest [ none ↦ none | some (p, q) ↦ some (c ∷ p, q) ]

-- The text without its last character, if that is `)`, and no line ends in it.
abbrev pub without_last : Codes → Option Codes
without_last [] = none
without_last (c ∷ []) = if eqb c b')' then some [] else none
without_last (c ∷ d ∷ s) =
    let rest = without_last (d ∷ s) in
    if eqb c 10 then none else elim rest [ none ↦ none | some p ↦ some (c ∷ p) ]

-- re.match(r"^([^()]+)\((.*)\)$", stripped), its two groups
abbrev pub called : Option (Codes × Codes) → Option (Codes × Codes)
called none = none
called (some ([], rest)) = none
called (some (c ∷ p, rest)) = elim (without_last rest) [
  | none ↦ none
  | some arguments ↦ some (c ∷ p, arguments)
]

abbrev pub unverbed : Option (Codes × Codes) → Codes → Codes
unverbed none raw = raw
unverbed (some (prefix, rest)) raw =
    if among prefix ("allow" ∷ "deny" ∷ "disallow" ∷ []) then strip rest else raw

-- stripped or "*"
abbrev pub or_star : Codes → Codes
or_star [] = codes "*"
or_star (c ∷ s) = c ∷ s

abbrev pub spec_of : Codes → Codes → Option (Codes × Codes) → ToolSpec
spec_of raw stripped none = record {
  raw = raw;
  tool_pattern = or_star stripped;
  argument_pattern = none;
}
spec_of raw stripped (some (tool, arguments)) = record {
  raw = raw;
  tool_pattern = strip tool;
  argument_pattern = some (strip arguments);
}

unfoldable pub parse_tool_spec : Codes → ToolSpec
unfolding strip split_once
parse_tool_spec value =
    let raw = strip value in
    let stripped = unverbed (split_once (codes " ") raw) raw in
    spec_of raw stripped (called (opened stripped))

-- pattern == "*" or fnmatch.fnmatch(name, pattern)
abbrev pub fits_pattern : Codes → Codes → Bool
fits_pattern name pattern = same pattern (codes "*") || fnmatch name pattern

abbrev pub fits_argument : Codes → Option Codes → Bool
fits_argument command none = true
fits_argument command (some pattern) = fnmatch command pattern

unfoldable pub command_spec_matches : Codes → Codes → Codes → Bool
unfolding parse_tool_spec
command_spec_matches tool_name command spec_value =
    let spec = parse_tool_spec spec_value in
    fits_pattern tool_name spec.tool_pattern && fits_argument command spec.argument_pattern

abbrev pub any_fits : Codes → List Codes → Bool
any_fits name [] = false
any_fits name (pattern ∷ patterns) = fits_pattern name pattern || any_fits name patterns

-- [spec.tool_pattern for spec in _parse_tool_specs(patterns)]
abbrev pub tool_patterns : List String → List Codes
tool_patterns = map (λ p. (parse_tool_spec (codes p)).tool_pattern)

unfoldable pub names_matching : List String → List Codes → List String
names_matching [] patterns = []
names_matching (name ∷ names) patterns =
    let rest = names_matching names patterns in
    if any_fits (codes name) patterns then name ∷ rest else rest

-- name in _names_matching({name}, patterns)
unfoldable pub patterns_include : Option (List String) → String → Bool
patterns_include none name = false
patterns_include (some patterns) name = any_fits (codes name) (tool_patterns patterns)
