-- ===== src/Tools/Exposure/Internal.antt =====
-- That the internal tools of backend/core/tools/exposure.py are not shown.
use Prim.Native.String.{String}
use chat_tree.Prelude.{
  ◌≡◌, refl, sym, ap, ◌∙◌, ◌==◌, eq_iff, true, false, none, some, List, [], ◌∷◌, map, Bool-cases,
  Option-cases, inl, inr, subst,
}
use chat_tree.Dict.{Dict, get, insert, get-empty}
use chat_tree.Dict.Keys.{get-insert_cases}
use chat_tree.Chat.Conversation.{contains}
use chat_tree.Tools.Matching.{codes, same}
use chat_tree.Tools.Exposure.{
  ToolDescriptor, ToolExposureContext, ToolExposureResolver, internal_model_tool_names,
  explicit_allows, profile_or, by_name, described, visible_local_names,
}
use chat_tree.Tools.Exposure.Guarantees.{visible_local_names_public}
use chat_tree.Tools.Exposure.Config.{descriptor_for_tool_name}

abbrev descriptors_of : List String → List ToolDescriptor
descriptors_of = map descriptor_for_tool_name

descriptor-name : (name : String) → (descriptor_for_tool_name name).name ≡ name
unfolding descriptor_for_tool_name
descriptor-name name =
    let internal = contains name internal_model_tool_names in
    elim (Bool-cases (contains name ("glob" ∷ "grep" ∷ "read" ∷ []))) [
      | inl e ↦ rw e refl
      | inr e ↦ elim (Bool-cases (name == "edit")) [
        | inl f ↦ rw (e, f) refl
        | inr f ↦ elim (Bool-cases (contains name ("shell" ∷ "wait_command" ∷ []))) [
          | inl g ↦ rw (e, f, g) refl
          | inr g ↦ elim (Bool-cases (name == "agent")) [
            | inl h ↦ rw (e, f, g, h) refl
            | inr h ↦ elim (Bool-cases (name == "web")) [
              | inl i ↦ rw (e, f, g, h, i) refl
              | inr i ↦ elim (Bool-cases (name == "tools")) [
                | inl j ↦ rw (e, f, g, h, i, j) refl
                | inr j ↦ elim (Bool-cases (name == "memory")) [
                  | inl k ↦ rw (e, f, g, h, i, j, k) refl
                  | inr k ↦ elim (Bool-cases internal) [
                    | inl l ↦ rw (e, f, g, h, i, j, k, l) refl
                    | inr l ↦ rw (e, f, g, h, i, j, k, l) refl
                  ]
                ]
              ]
            ]
          ]
        ]
      ]
    ]

internal_hidden :
    (name : String)
    → contains name internal_model_tool_names ≡ true
    → explicit_allows (descriptor_for_tool_name name) ≡ false
unfolding descriptor_for_tool_name
internal_hidden name h = elim (Bool-cases ("create_task" == name)) [
  | inl e ↦ subst IsHidden ((eq_iff "create_task" name).0 e) refl
  | inr e ↦ elim (Bool-cases ("set_task_step" == name)) [
    | inl f ↦ subst IsHidden ((eq_iff "set_task_step" name).0 f) refl
    | inr f ↦ elim (Bool-cases ("cancel_task" == name)) [
      | inl g ↦ subst IsHidden ((eq_iff "cancel_task" name).0 g) refl
      | inr g ↦ absurd (cc (rw (e, f, g) at h))
    ]
  ]
]
  where
    IsHidden : String → Type 0
    IsHidden x = explicit_allows (descriptor_for_tool_name x) ≡ false

-- Every descriptor of the dictionary is that of its name.
abbrev AreBuiltIn : Dict ToolDescriptor → Type 0
AreBuiltIn d = (x : String) (t : ToolDescriptor) → get x d ≡ some t → t ≡ descriptor_for_tool_name x

by_name-AreBuiltIn :
    (names : List String) (d : Dict ToolDescriptor)
    → AreBuiltIn d
    → AreBuiltIn (by_name (descriptors_of names) d)
unfolding by_name
by_name-AreBuiltIn [] d h = h
by_name-AreBuiltIn (name ∷ names) d h =
    let t = descriptor_for_tool_name name in
    by_name-AreBuiltIn names (insert t.name t d) (λ x u there.
      elim (get-insert_cases t.name x t u d there) [
        | inl (e, same) ↦ same ∙ ap descriptor_for_tool_name (sym (e ∙ descriptor-name name))
        | inr (ne, old) ↦ h x u old
      ])

described_hidden :
    (d : Dict ToolDescriptor) (x : String)
    → AreBuiltIn d
    → contains x internal_model_tool_names ≡ true
    → described explicit_allows d x ≡ false
described_hidden d x b i = elim (Option-cases (get x d)) [
  | inl e ↦ rw (e, described) refl
  | inr (t, e) ↦ rw (e, described) (rw (b x t e) (internal_hidden x i))
]

-- With the descriptors of the server, the tools that change a task are never visible; unless the
-- configuration names the visible tools itself, or the profile is the internal one.
pub visible_local_names_internal :
    (r : ToolExposureResolver) (names : List String) (c : ToolExposureContext) (x : String)
    → r.explicit_visible ≡ none
    → same (profile_or r.default_profile c.profile) (codes "internal") ≡ false
    → contains x internal_model_tool_names ≡ true
    → contains x (visible_local_names r (map descriptor_for_tool_name names) c) ≡ false
visible_local_names_internal r names c x e p i =
    elim (Bool-cases (contains x (visible_local_names r (descriptors_of names) c))) [
      | inr h ↦ h
      | inl h ↦
          let public = visible_local_names_public r (descriptors_of names) c x e p h in
          absurd (
            cc (
              public,
              described_hidden (by_name (descriptors_of names) []) x
                  (by_name-AreBuiltIn names []
                    (λ y t there. absurd (cc (rw (get-empty {V = ToolDescriptor} y) at there))))
                  i,
            ))
    ]
