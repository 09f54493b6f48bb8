-- ===== src/Tools/Exposure/Guarantees.antt =====
-- What is never visible of the tools of backend/core/tools/exposure.py.
use Prim.Native.String.{String}
use chat_tree.Prelude.{
  ◌≡◌, refl, sym, ◌∙◌, ◌==◌, Bool, true, false, not, ◌&&◌, ◌||◌, Option, none, some, List, [],
  arith, Bool-cases, Option-cases, inl, inr,
}
use chat_tree.Dict.{Dict, get, has}
use chat_tree.Chat.Conversation.{contains}
use chat_tree.Tools.Matching.{Codes, codes, same}
use chat_tree.Tools.Specs.{any_fits, tool_patterns, patterns_include}
use chat_tree.Tools.Exposure.{
  ToolDescriptor, ToolExposureContext, ToolExposureResolver, plan_mutating_tools, profile_allows,
  explicit_allows, profile_or, by_name, described, is_plan_mode, visible_local_names,
}
use chat_tree.Tools.Exposure.Visible.{
  survives_plan, survives_nesting, is_requested, after_allowed, is_first, is_visible,
  contains-visible_local_names,
}

shown :
    (r : ToolExposureResolver) (descriptors : List ToolDescriptor) (c : ToolExposureContext)
    (x : String)
    → contains x (visible_local_names r descriptors c) ≡ true
    → is_visible r descriptors c x ≡ true
shown r descriptors c x h = sym (contains-visible_local_names r descriptors c x) ∙ h

last_tests :
    (a disallowed hidden memory : Bool)
    → (((a && not disallowed) && not hidden) && memory) ≡ true
    → (a ≡ true) × (disallowed ≡ false) × (hidden ≡ false) × (memory ≡ true)
last_tests true false false true h = (refl, refl, refl, refl)
last_tests false d e m h = absurd (cc h)
last_tests true true e m h = absurd (cc h)
last_tests true false true m h = absurd (cc h)
last_tests true false false false h = absurd (cc h)

-- A tool that is visible is not hidden, fits no pattern that is disallowed, and is not the memory
-- unless in a chat and outside of the planning mode.
pub visible_local_names_safe :
    (r : ToolExposureResolver) (descriptors : List ToolDescriptor) (c : ToolExposureContext)
    (x : String)
    → contains x (visible_local_names r descriptors c) ≡ true
    → (contains x r.hidden ≡ false)
      × (any_fits (codes x) (tool_patterns c.disallowed_tools) ≡ false)
      × (((c.run_kind == "chat" && not (is_plan_mode c.permission_mode)) || not (x == "memory"))
          ≡ true)
unfolding is_visible
visible_local_names_safe r descriptors c x h =
    let (a, disallowed, hidden, memory) = last_tests _ _ _ _ (shown r descriptors c x h) in
    (hidden, disallowed, memory)

-- In the planning mode, where no tools are listed for the run, none of the tools that change
-- something is visible.
pub visible_local_names_plan :
    (r : ToolExposureResolver) (descriptors : List ToolDescriptor) (c : ToolExposureContext)
    (x : String)
    → is_plan_mode c.permission_mode ≡ true
    → c.allowed_tools ≡ none
    → contains x plan_mutating_tools ≡ true
    → contains x (visible_local_names r descriptors c) ≡ false
unfolding is_visible
visible_local_names_plan r descriptors c x plan unlisted mutating =
    contains-visible_local_names r descriptors c x ∙ rw unlisted (ground arith)

profile_allows_public :
    (t : ToolDescriptor) (profile : Codes)
    → same profile (codes "internal") ≡ false
    → profile_allows t profile ≡ true
    → explicit_allows t ≡ true
unfolding profile_allows
profile_allows_public t profile p h = ground arith

described_public :
    (d : Dict ToolDescriptor) (profile : Codes) (x : String)
    → same profile (codes "internal") ≡ false
    → (has x d && described (λ t. profile_allows t profile) d x) ≡ true
    → described explicit_allows d x ≡ true
described_public d profile x p h = elim (Option-cases (get x d)) [
  | inl e ↦ absurd (cc (rw e at h))
  | inr (t, e) ↦ rw (e, described) (profile_allows_public t profile p (rw (e, described) at h))
]

left_of : (a b : Bool) → (a && b) ≡ true → a ≡ true
left_of a b h = ground arith

right_of : (a b : Bool) → (a && b) ≡ true → b ≡ true
right_of a b h = ground arith

first_of : (a b c : Bool) → ((a && b) && c) ≡ true → a ≡ true
first_of a b c h = ground arith

-- What the list of allowed tools adds is public.
after_allowed_public :
    (c : ToolExposureContext) (d : Dict ToolDescriptor) (x : String)
    (allowed : Option (List String)) (visible : Bool)
    → (visible ≡ true → described explicit_allows d x ≡ true)
    → after_allowed c d x allowed visible ≡ true
    → described explicit_allows d x ≡ true
after_allowed_public c d x none visible public h = public h
after_allowed_public c d x (some patterns) visible public h =
    elim (Bool-cases (patterns_include (some patterns) "*")) [
      | inl e ↦ public (left_of visible (has x d && is_requested c d x patterns) (rw e at h))
      | inr e ↦
          right_of (has x d && is_requested c d x patterns) (described explicit_allows d x)
            (rw e at h)
    ]

first_public :
    (r : ToolExposureResolver) (d : Dict ToolDescriptor) (profile : Codes) (x : String)
    → r.explicit_visible ≡ none
    → same profile (codes "internal") ≡ false
    → is_first r d profile x ≡ true
    → described explicit_allows d x ≡ true
first_public r d profile x e p h = described_public d profile x p (rw (e, is_first) at h)

-- A tool whose descriptor is internal, or not for models, is never visible; unless the
-- configuration names the visible tools itself, or the profile is the internal one.
pub visible_local_names_public :
    (r : ToolExposureResolver) (descriptors : List ToolDescriptor) (c : ToolExposureContext)
    (x : String)
    → r.explicit_visible ≡ none
    → same (profile_or r.default_profile c.profile) (codes "internal") ≡ false
    → contains x (visible_local_names r descriptors c) ≡ true
    → described explicit_allows (by_name descriptors []) x ≡ true
unfolding is_visible
visible_local_names_public r descriptors c x e p h =
    let d = by_name descriptors [] in
    let profile = profile_or r.default_profile c.profile in
    let (allowed, disallowed, hidden, memory) = last_tests _ _ _ _ (shown r descriptors c x h) in
    after_allowed_public c d x c.allowed_tools
      ((is_first r d profile x && survives_plan c d x) && survives_nesting c d x)
      (λ nested.
        first_public r d profile x e p
          (first_of (is_first r d profile x) (survives_plan c d x) (survives_nesting c d x) nested))
      allowed
