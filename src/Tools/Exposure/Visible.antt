-- ===== src/Tools/Exposure/Visible.antt =====
-- Which tools backend/core/tools/exposure.py shows, tool by tool.
use Prim.Native.String.{String}
use chat_tree.Prelude.{
  ◌≡◌, refl, ap, ◌∙◌, ◌==◌, Bool, not, ◌&&◌, ◌||◌, Option, none, some, List, [], ◌∷◌, ◌++◌, arith,
  Bool-cases, inl, inr, if◌then◌else◌,
}
use chat_tree.Dict.{Dict, get, has, keys}
use chat_tree.Chat.Conversation.{contains}
use chat_tree.Tools.Matching.{Codes, codes}
use chat_tree.Tools.Specs.{any_fits, tool_patterns, patterns_include}
use chat_tree.Tools.Exposure.{
  ToolDescriptor, ToolExposureContext, ToolExposureResolver, plan_mutating_tools, profile_allows,
  explicit_allows, profile_or, by_name, kept, described, is_plan_mode, is_nested, first_visible,
  without_plan, without_agent, requested_names, with_allowed, without_disallowed, without_memory,
  visible_local_names,
}
use chat_tree.Tools.Exposure.Sets.{contains-kept, contains-append}

-- A name of the dictionary is one of its keys.
contains-keys : (x : String) (d : Dict ToolDescriptor) → contains x (keys d) ≡ has x d
unfolding get
contains-keys x [] = refl
contains-keys x ((y, t) ∷ d) = elim (Bool-cases (y == x)) [
  | inl e ↦ rw e refl
  | inr e ↦ rw e (contains-keys x d)
]

absorbed : (a b : Bool) → ((a || b) && b) ≡ b
absorbed a b = ground arith

module _ (c : ToolExposureContext) (d : Dict ToolDescriptor) (x : String) where
  -- The tests of the steps, of a name that was visible or not.
  abbrev pub survives_plan : Bool
  survives_plan = not (is_plan_mode c.permission_mode) || not (contains x plan_mutating_tools)

  abbrev pub survives_nesting : Bool
  survives_nesting =
      not (is_nested c.run_kind && not (patterns_include c.allowed_tools "agent"))
      || not (x == "agent")

  abbrev pub is_requested : List String → Bool
  is_requested patterns = any_fits (codes x) (tool_patterns patterns)

  -- The tools that are listed for the run, if any: where a pattern of the list fits the text `*`, they
  -- only restrict; otherwise they replace what was visible by those of them that are public.
  abbrev pub after_allowed : Option (List String) → Bool → Bool
  after_allowed none visible = visible
  after_allowed (some patterns) visible =
      if patterns_include (some patterns) "*"
      then visible && (has x d && is_requested patterns)
      else ((has x d && is_requested patterns) && described explicit_allows d x)

  abbrev pub survives_memory : Bool
  survives_memory =
      (c.run_kind == "chat" && not (is_plan_mode c.permission_mode)) || not (x == "memory")

  contains-without_plan :
      (visible : List String)
      → contains x (without_plan c visible) ≡ (contains x visible && survives_plan)
  unfolding without_plan
  contains-without_plan visible =
      ground (arith, contains-kept x (λ y. not (contains y plan_mutating_tools)) visible)

  contains-without_agent :
      (visible : List String)
      → contains x (without_agent c visible) ≡ (contains x visible && survives_nesting)
  unfolding without_agent
  contains-without_agent visible = ground (arith, contains-kept x (λ y. not (y == "agent")) visible)

  contains-without_memory :
      (visible : List String)
      → contains x (without_memory c visible) ≡ (contains x visible && survives_memory)
  unfolding without_memory
  contains-without_memory visible =
      ground (arith, contains-kept x (λ y. not (y == "memory")) visible)

  contains-requested :
      (patterns : List String)
      → contains x (requested_names d patterns) ≡ (has x d && is_requested patterns)
  contains-requested patterns =
      contains-kept x (λ y. any_fits (codes y) (tool_patterns patterns)) (keys d)
      ∙ ap (λ b. b && is_requested patterns) (contains-keys x d)

  contains-with_allowed :
      (allowed : Option (List String)) (visible : List String)
      → contains x (with_allowed allowed d visible) ≡ after_allowed allowed (contains x visible)
  unfolding with_allowed
  contains-with_allowed none visible = refl
  contains-with_allowed (some patterns) visible =
      elim (Bool-cases (patterns_include (some patterns) "*")) [
        | inl e ↦ rw e (
            contains-kept x (λ y. contains y (requested_names d patterns)) visible
            ∙ ap (λ b. contains x visible && b) (contains-requested patterns))
        | inr e ↦
            let explicit = kept (λ y. described explicit_allows d y) (requested_names d patterns) in
            let member : contains x explicit
                ≡ ((has x d && is_requested patterns) && described explicit_allows d x) =
              contains-kept x (λ y. described explicit_allows d y) (requested_names d patterns)
              ∙ ap (λ b. b && described explicit_allows d x) (contains-requested patterns) in
            rw e (
              contains-kept x (λ y. contains y explicit) (visible ++ explicit)
              ∙ rw (contains-append x visible explicit, member) (absorbed _ _))
      ]

-- The first set of names, by name.
abbrev pub is_first : ToolExposureResolver → Dict ToolDescriptor → Codes → String → Bool
is_first r d profile x = elim r.explicit_visible [
  | some names ↦ contains x names && has x d
  | none ↦ has x d && described (λ t. profile_allows t profile) d x
]

contains-first_visible :
    (r : ToolExposureResolver) (d : Dict ToolDescriptor) (profile : Codes) (x : String)
    → contains x (first_visible r d profile) ≡ is_first r d profile x
unfolding first_visible
contains-first_visible r d profile x =
    elim r.explicit_visible
      as (λ o.
        contains x (elim o [
          | some names ↦ kept (λ y. has y d) names
          | none ↦ kept (λ y. described (λ t. profile_allows t profile) d y) (keys d)
        ])
        ≡ elim o [
          | some names ↦ contains x names && has x d
          | none ↦ has x d && described (λ t. profile_allows t profile) d x
        ]) [
          | some names ↦ contains-kept x (λ y. has y d) names
          | none ↦
              contains-kept x (λ y. described (λ t. profile_allows t profile) d y) (keys d)
              ∙ ap (λ b. b && described (λ t. profile_allows t profile) d x) (contains-keys x d)
        ]

-- Whether a tool is visible, asked of its name alone.
unfoldable pub is_visible :
    ToolExposureResolver → List ToolDescriptor → ToolExposureContext → String → Bool
unfolding by_name
is_visible r descriptors c x =
    let d = by_name descriptors [] in
    let first = is_first r d (profile_or r.default_profile c.profile) x in
    let nested = (first && survives_plan c d x) && survives_nesting c d x in
    ((after_allowed c d x c.allowed_tools nested
        && not (any_fits (codes x) (tool_patterns c.disallowed_tools)))
      && not (contains x r.hidden))
    && survives_memory c d x

-- A tool is among the visible ones exactly if this can be told from its own name, as follows. It
-- fits none of the disallowed patterns, it is not hidden, and it is not the memory unless in a chat
-- and outside of the planning mode. If tools are listed for the run, and no pattern of that list
-- fits the text `*`: it is registered, fits a pattern of the list, and its descriptor is visible to
-- models and not internal; the profile, the explicit list of the configuration, the planning mode and the
-- nesting do not matter then. In all other cases: it is registered, and is in the explicit list of the
-- configuration or, where there is none, its descriptor is one that the profile takes; it is none of
-- the tools that change something, or the mode is not the planning mode; it is not the agent tool, or
-- the run is not nested or the list for the run includes that tool; and where tools are listed for
-- the run it fits a pattern of that list.
pub contains-visible_local_names :
    (r : ToolExposureResolver) (descriptors : List ToolDescriptor) (c : ToolExposureContext)
    (x : String)
    → contains x (visible_local_names r descriptors c) ≡ is_visible r descriptors c x
unfolding visible_local_names is_visible without_disallowed
contains-visible_local_names r descriptors c x =
    let d = by_name descriptors [] in
    let profile = profile_or r.default_profile c.profile in
    let first = first_visible r d profile in
    let planned = without_plan c first in
    let nested = without_agent c planned in
    let allowed = with_allowed c.allowed_tools d nested in
    let free = without_disallowed c.disallowed_tools allowed in
    let shown = kept (λ y. not (contains y r.hidden)) free in
    contains-without_memory c d x shown
    ∙ ap (λ b. b && survives_memory c d x)
        (contains-kept x (λ y. not (contains y r.hidden)) free
          ∙ ap (λ b. b && not (contains x r.hidden))
              (contains-kept x (λ y. not (any_fits (codes y) (tool_patterns c.disallowed_tools)))
                  allowed
                ∙ ap (λ b. b && not (any_fits (codes x) (tool_patterns c.disallowed_tools)))
                    (contains-with_allowed c d x c.allowed_tools nested
                      ∙ ap (after_allowed c d x c.allowed_tools) (
                          contains-without_agent c d x planned
                          ∙ ap (λ b. b && survives_nesting c d x)
                              (contains-without_plan c d x first
                                ∙ ap (λ b. b && survives_plan c d x)
                                    (contains-first_visible r d profile x))))))
