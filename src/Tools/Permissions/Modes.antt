-- ===== src/Tools/Permissions/Modes.antt =====
-- What the modes of backend/core/tools/security/permissions.py allow, ask and deny.
use chat_tree.Prelude.{
  String, ◌≡◌, refl, ◌≢◌, ◌⊎◌, inl, inr, ◌==◌, Bool, true, false, not, ◌&&◌, ◌||◌, Option, none,
  some, List, [], ◌∷◌, ◌++◌, arith, Bool-cases, Option-cases,
}
use chat_tree.Json.{Value}
use chat_tree.Tools.Permissions.{normalize_permission_mode}
use chat_tree.Tools.Permissions.Types.{
  PermissionBehavior, allow, ask, deny, PermissionRule, PermissionContext, is_same,
}
use chat_tree.Tools.Permissions.Commands.{is_explicit_delete}
use chat_tree.Tools.Permissions.Rules.{matches, first_behavior, is_default_ask, rules_where}
use chat_tree.Tools.Permissions.Engine.{
  is_plan_allowed_tool, is_plan_control_tool, is_agent_management_tool, is_chat, controlled,
  asked_by, with_explicit, by_rules, by_mode, undenied, judged, matched_rules, evaluate,
}

-- A rule of the list that passes a test.
abbrev pub IsAmong : (PermissionRule → Bool) → List PermissionRule → Type 0
IsAmong test [] = ⊥
IsAmong test (rule ∷ rules) = (test rule ≡ true) ⊎ IsAmong test rules

first_found :
    (behavior : PermissionBehavior) (keep : PermissionRule → Bool) (rules : List PermissionRule)
    → IsAmong (λ rule. keep rule && is_same rule.behavior behavior) rules
    → (rule : PermissionRule) × (first_behavior behavior (rules_where keep rules) ≡ some rule)
unfolding first_behavior rules_where
first_found behavior keep [] h = absurd h
first_found behavior keep (rule ∷ rules) h = elim (Bool-cases (keep rule)) [
  | inl k ↦ elim (Bool-cases (is_same rule.behavior behavior)) [
    | inl e ↦ (rule, rw (k, e) refl)
    | inr e ↦ elim h [
      | inl both ↦ absurd (cc (rw (k, e) at both))
      | inr later ↦ let (found, g) = first_found behavior keep rules later in (found, rw (k, e) g)
    ]
  ]
  | inr k ↦ elim h [
    | inl both ↦ absurd (cc (rw k at both))
    | inr later ↦ let (found, g) = first_found behavior keep rules later in (found, rw k g)
  ]
]

judged_denied :
    (mode : String) (matched : List PermissionRule) (c : PermissionContext) {rule : PermissionRule}
    → first_behavior deny matched ≡ some rule
    → (judged mode matched c).behavior ≡ deny
unfolding judged
judged_denied mode matched c e = rw (e, judged) refl

judged_open :
    (mode : String) (matched : List PermissionRule) (c : PermissionContext)
    → first_behavior deny matched ≡ none
    → judged mode matched c ≡ undenied mode matched c
unfolding judged
judged_open mode matched c e = rw (e, judged) refl

-- Whatever the mode, the grants and the other rules: a call that some enabled rule matches which
-- denies, of those granted for the turn or the session or of the engine, is denied.
pub evaluate_denied :
    (str : Value → String) (rules : List PermissionRule) (c : PermissionContext)
    → IsAmong
        (λ rule. (rule.enabled && matches str rule c) && is_same rule.behavior deny)
        (c.turn_grants ++ c.session_grants ++ rules)
    → (evaluate str rules c).behavior ≡ deny
unfolding evaluate judged matched_rules
evaluate_denied str rules c h =
    let keep : PermissionRule → Bool = λ rule. rule.enabled && matches str rule c in
    let all = c.turn_grants ++ c.session_grants ++ rules in
    let (rule, e) = first_found deny keep all h in
    judged_denied (normalize_permission_mode c.mode) (rules_where keep all) c e

controlled_allows :
    (reason : String) (o : Option PermissionRule) (matched : List PermissionRule)
    → (controlled reason o matched).behavior ≡ allow
controlled_allows reason none matched = refl
controlled_allows reason (some rule) matched = refl

-- The tools that no mode but the planning mode asks about.
abbrev pub is_exempt : PermissionContext → Bool
is_exempt c =
    (c.tool_name == "memory" && is_chat c.run_kind)
    || is_plan_control_tool c.tool_name
    || is_agent_management_tool c.tool_name

module _ (matched : List PermissionRule) (c : PermissionContext) where
  -- What holds of a denial and of the decision where no rule denies.
  judged_is :
      (mode : String) (P : PermissionBehavior → Type 0)
      → P deny
      → P (undenied mode matched c).behavior
      → P (judged mode matched c).behavior
  judged_is mode P d u = elim (Option-cases (first_behavior deny matched)) [
    | inr (rule, e) ↦ rw (judged_denied mode matched c e) d
    | inl e ↦ rw (judged_open mode matched c e) u
  ]

  abbrev IsPlanned : PermissionBehavior → Type 0
  IsPlanned b = (b ≡ deny) ⊎ ((b ≡ allow) × (is_plan_allowed_tool c.tool_name ≡ true))

  plan-IsPlanned : IsPlanned (undenied "plan" matched c).behavior
  unfolding undenied
  plan-IsPlanned = elim (Bool-cases (is_plan_allowed_tool c.tool_name)) [
    | inl e ↦ rw e (inr (refl, refl))
    | inr e ↦ rw e (inl refl)
  ]

  undenied_open :
      (mode : String)
      → (mode == "plan") ≡ false
      → is_exempt c ≡ false
      → undenied mode matched c ≡ by_mode mode matched c
  unfolding undenied
  undenied_open mode p x = ground arith

  undenied_exempt :
      (mode : String)
      → (mode == "plan") ≡ false
      → is_exempt c ≡ true
      → (undenied mode matched c).behavior ≡ allow
  unfolding undenied
  undenied_exempt mode p x =
      let found = first_behavior allow matched in
      ground (
        arith,
        controlled_allows "Plan mode control tool allowed" found matched,
        controlled_allows "Agent management tool allowed" found matched,
      )

  guarded_by_mode :
      (mode : String)
      → (mode ≡ "ask_always")
        ⊎ (((mode ≡ "auto_approve") ⊎ (mode ≡ "modify_only"))
            × (is_explicit_delete c.tool_name c.arguments ≡ true))
      → (by_mode mode matched c).behavior ≢ allow
  unfolding by_mode
  guarded_by_mode mode (inl m) = rw m (λ h. cc h)
  guarded_by_mode mode (inr (inl m, d)) = rw (m, d) (λ h. cc h)
  guarded_by_mode mode (inr (inr m, d)) = rw (m, d) (λ h. cc h)

asked_by_unasked : (rule : PermissionRule) → (asked_by "dont_ask" rule).behavior ≢ ask
asked_by_unasked rule h = cc h

with_explicit_unasked :
    (explicit allowing asking : Option PermissionRule) (matched : List PermissionRule)
    → (with_explicit "dont_ask" explicit allowing asking matched).behavior ≢ ask
with_explicit_unasked (some rule) allowing asking matched h = cc h
with_explicit_unasked none (some rule) asking matched h = cc h
with_explicit_unasked none none (some rule) matched h = cc h
with_explicit_unasked none none none matched h = cc h

by_rules_unasked :
    (matched : List PermissionRule) (c : PermissionContext)
    → (by_mode "dont_ask" matched c).behavior ≢ ask
unfolding by_mode by_rules
by_rules_unasked matched c =
    with_explicit_unasked
      (first_behavior ask (rules_where (λ rule. not (is_default_ask rule)) matched))
      (first_behavior allow matched) (first_behavior ask (rules_where is_default_ask matched))
      matched

abbrev pub OnlyAsks : String → PermissionContext → Type 0
OnlyAsks mode c =
    (mode ≡ "ask_always")
    ⊎ (((mode ≡ "auto_approve") ⊎ (mode ≡ "modify_only"))
        × (is_explicit_delete c.tool_name c.arguments ≡ true))

other_mode : (c : PermissionContext) (mode : String) → OnlyAsks mode c → (mode == "plan") ≡ false
other_mode c mode (inl m) = rw m refl
other_mode c mode (inr (inl m, d)) = rw m refl
other_mode c mode (inr (inr m, d)) = rw m refl

module _ (str : Value → String) (rules : List PermissionRule) (c : PermissionContext) where
  abbrev matched : List PermissionRule
  matched = matched_rules str rules c

  abbrev behavior : PermissionBehavior
  behavior = (evaluate str rules c).behavior

  evaluate_is :
      (mode : String) (P : PermissionBehavior → Type 0)
      → normalize_permission_mode c.mode ≡ mode
      → P deny
      → P (undenied mode matched c).behavior
      → P behavior
  unfolding evaluate
  evaluate_is mode P m d u = judged_is matched c (normalize_permission_mode c.mode) P d (rw m u)

-- In the planning mode a call is denied, or it is allowed and its tool is one of those that read or
-- plan, whatever rules and grants there are.
pub evaluate_plan :
    (str : Value → String) (rules : List PermissionRule) (c : PermissionContext)
    → normalize_permission_mode c.mode ≡ "plan"
    → ((evaluate str rules c).behavior ≡ deny)
      ⊎ (((evaluate str rules c).behavior ≡ allow) × (is_plan_allowed_tool c.tool_name ≡ true))
evaluate_plan str rules c m =
    evaluate_is str rules c "plan" (IsPlanned (matched_rules str rules c) c) m (inl refl)
      (plan-IsPlanned (matched_rules str rules c) c)

-- In the mode that always asks no call, and in the modes that approve by themselves no explicit
-- deletion, is allowed without being asked for, whatever rules and grants there are; if the tool is
-- not one of the planning mode, nor the management of agents, nor the memory in a chat run.
pub evaluate_guarded :
    (str : Value → String) (rules : List PermissionRule) (c : PermissionContext) (mode : String)
    → normalize_permission_mode c.mode ≡ mode
    → OnlyAsks mode c
    → is_exempt c ≡ false
    → (evaluate str rules c).behavior ≢ allow
evaluate_guarded str rules c mode m g x =
    let found = matched_rules str rules c in
    evaluate_is str rules c mode (λ b. b ≢ allow) m (λ h. cc h)
      (rw (undenied_open found c mode (other_mode c mode g) x) (guarded_by_mode found c mode g))

-- The mode `dont_ask` never asks, whatever rules and grants there are.
pub evaluate_dont_ask :
    (str : Value → String) (rules : List PermissionRule) (c : PermissionContext)
    → normalize_permission_mode c.mode ≡ "dont_ask"
    → (evaluate str rules c).behavior ≢ ask
evaluate_dont_ask str rules c m =
    let found = matched_rules str rules c in
    evaluate_is str rules c "dont_ask" (λ b. b ≢ ask) m (λ h. cc h)
      (elim (Bool-cases (is_exempt c)) [
        | inl x ↦ rw (undenied_exempt found c "dont_ask" refl x) (λ h. cc h)
        | inr x ↦ rw (undenied_open found c "dont_ask" refl x) (by_rules_unasked found c)
      ])
