-- ===== src/Tools/Approvals/Grants.antt =====
-- Where the tools that a session allows come from, in backend/core/tools/security/approval.py.
use chat_tree.Prelude.{
  ℕ, String, ◌≡◌, refl, sym, ap, ◌∙◌, ◌==◌, eq_iff, Bool, true, false, ◌&&◌, Option, none, some,
  List, [], ◌∷◌, ◌++◌, arith, ◌⊎◌, inl, inr, Bool-cases, if◌then◌else◌, ok, subst, ok-injective,
}
use chat_tree.Dict.{Dict, get, has, get-insert, get-empty}
use chat_tree.Chat.Conversation.{contains}
use chat_tree.Tools.Approvals.Types.{ApprovalRequest, ApprovalDecision, Future, Manager}
use chat_tree.Tools.Approvals.Manager.{
  new_manager, tools_or_empty, is_session_allowed, begin_request, resolve_found, try_resolve, added,
  allow_in_session, granted, decide, cancellation, cancel_all, requests_of_node, cancel_for_node,
  cleanup, cleanup_cancelled_before_start,
}
use chat_tree.Tools.Approvals.Waits.{
  WaitEvent, completed, timed_out, interrupted, expiration, after_timeout, wait_for_decision,
  System, was_stopped, Step, begin, start, resume, withdraw, cancel, call_back, decision,
  cancel_node, Steps, here, next, new_system,
}
use chat_tree.Tools.Approvals.Methods.{decide_ok}

abbrev Sessions : Type 0
Sessions = Dict (List String)

pub try_resolve-sessions :
    (k : String) (d : ApprovalDecision) (m : Manager)
    → (try_resolve k d m).1.session_allowed_tools ≡ m.session_allowed_tools
unfolding try_resolve
try_resolve-sessions k d m = go (get k m.requests) (get k m.futures)
  where
    go :
        (o : Option ApprovalRequest) (f : Option Future)
        → (resolve_found o f k d m).1.session_allowed_tools ≡ m.session_allowed_tools
    go none f = refl
    go (some r) none = refl
    go (some r) (some (some e)) = refl
    go (some r) (some none) = ground arith

pub cleanup-sessions :
    (k : String) (m : Manager) → (cleanup k m).session_allowed_tools ≡ m.session_allowed_tools
unfolding cleanup
cleanup-sessions k m = refl

cancel_all-sessions :
    (ks : List String) (m : Manager)
    → (cancel_all ks m).session_allowed_tools ≡ m.session_allowed_tools
unfolding cancel_all
cancel_all-sessions [] m = refl
cancel_all-sessions (k ∷ ks) m =
    cancel_all-sessions ks (try_resolve k cancellation m).1 ∙ try_resolve-sessions k cancellation m

pub cancel_for_node-sessions :
    (node_id : String) (m : Manager)
    → (cancel_for_node node_id m).session_allowed_tools ≡ m.session_allowed_tools
unfolding cancel_for_node
cancel_for_node-sessions node_id m = cancel_all-sessions (requests_of_node node_id m.requests) m

after_timeout-sessions :
    (k : String) (m : Manager) (r : Bool × Manager)
    → (after_timeout k m r).1.session_allowed_tools ≡ r.1.session_allowed_tools
after_timeout-sessions k m (true, m') = cleanup-sessions k m'
after_timeout-sessions k m (false, m') = cleanup-sessions k m'

pub wait_for_decision-sessions :
    (event : WaitEvent) (k : String) (m : Manager)
    → (wait_for_decision event k m).1.session_allowed_tools ≡ m.session_allowed_tools
unfolding wait_for_decision
wait_for_decision-sessions (completed d) k m = cleanup-sessions k m
wait_for_decision-sessions timed_out k m =
    after_timeout-sessions k m (try_resolve k expiration m) ∙ try_resolve-sessions k expiration m
wait_for_decision-sessions interrupted k m =
    cleanup-sessions k (try_resolve k cancellation m).1 ∙ try_resolve-sessions k cancellation m

pub call_back-sessions :
    (k : String) (b : Bool) (m : Manager)
    → (cleanup_cancelled_before_start k b m).session_allowed_tools ≡ m.session_allowed_tools
unfolding cleanup_cancelled_before_start
call_back-sessions k b m = elim (Bool-cases (b && has k m.requests)) [
  | inl e ↦
      rw e (
        cleanup-sessions k (try_resolve k cancellation m).1 ∙ try_resolve-sessions k cancellation m)
  | inr e ↦ rw e refl
]

pub begin-sessions :
    (now : ℕ) (r : ApprovalRequest) (m m' : Manager)
    → begin_request now r m ≡ ok m'
    → m'.session_allowed_tools ≡ m.session_allowed_tools
unfolding begin_request
begin-sessions now r m m' h = elim (Bool-cases (has r.id m.requests)) [
  | inl e ↦ absurd (cc (rw e at h))
  | inr e ↦ sym (ap (λ (x : Manager). x.session_allowed_tools) (ok-injective (rw e at h)))
]

contains_append :
    (t tool : String) (tools : List String)
    → contains t (tools ++ tool ∷ []) ≡ true
    → (contains t tools ≡ true) ⊎ (t ≡ tool)
contains_append t tool [] h = inr (sym ((eq_iff tool t).0 (ground arith)))
contains_append t tool (u ∷ tools) h = elim (Bool-cases (u == t)) [
  | inl e ↦ inl (rw e refl)
  | inr e ↦ elim (contains_append t tool tools (rw e at h)) [
    | inl there ↦ inl (rw e there)
    | inr same ↦ inr same
  ]
]

added_cases :
    (t tool : String) (tools : List String)
    → contains t (added tool tools) ≡ true
    → (contains t tools ≡ true) ⊎ (t ≡ tool)
added_cases t tool tools h = elim (Bool-cases (contains tool tools)) [
  | inl e ↦ inl (rw e at h)
  | inr e ↦ contains_append t tool tools (rw e at h)
]

allow_in_session_cases :
    (k tool k' t : String) (m : Manager)
    → is_session_allowed k' t (allow_in_session k tool m) ≡ true
    → (is_session_allowed k' t m ≡ true) ⊎ ((k ≡ k') × (tool ≡ t))
unfolding is_session_allowed allow_in_session
allow_in_session_cases k tool k' t m h =
    let sessions = m.session_allowed_tools in
    let tools = added tool (tools_or_empty (get k sessions)) in
    let h' : contains t (tools_or_empty (if k == k' then some tools else get k' sessions)) ≡ true =
      rw get-insert at h in
    elim (Bool-cases (k == k')) [
      | inl e ↦
          let same : k ≡ k' = (eq_iff k k').0 e in
          elim (added_cases t tool (tools_or_empty (get k sessions)) (rw e at h')) [
            | inl there ↦
                inl (subst (λ i. contains t (tools_or_empty (get i sessions)) ≡ true) same there)
            | inr q ↦ inr (same, sym q)
          ]
      | inr e ↦ inl (rw e at h')
    ]

-- The step from the first state to the second is a decision of a user: to approve a request of this
-- conversation for this tool, for the session.
abbrev pub IsGrant : System → System → String → String → Type 0
IsGrant before after conversation_id tool_name =
    (k : String) × (r : ApprovalRequest) × (d : ApprovalDecision) × (m : Manager) × (get k
        before.manager.requests
      ≡ some r)
    × (r.conversation_id ≡ conversation_id)
    × (r.tool_name ≡ tool_name)
    × (decide k "approve" "session" before.manager ≡ ok (d, m))
    × (after ≡ record before { manager = m })

module _ (conversation_id tool_name : String) where
  abbrev IsAllowed : Manager → Type 0
  IsAllowed m = is_session_allowed conversation_id tool_name m ≡ true

  same_sessions :
      (m m' : Manager)
      → m'.session_allowed_tools ≡ m.session_allowed_tools
      → IsAllowed m'
      → IsAllowed m
  unfolding is_session_allowed
  same_sessions m m' e h = rw e at h

  granted_cases :
      (verdict scope : String) (r : ApprovalRequest) (m : Manager)
      → IsAllowed (granted verdict scope r m)
      → IsAllowed m
        ⊎ ((verdict ≡ "approve")
            × (scope ≡ "session")
            × (r.conversation_id ≡ conversation_id)
            × (r.tool_name ≡ tool_name))
  granted_cases verdict scope r m h = elim (Bool-cases (verdict == "approve")) [
    | inr e ↦ inl (rw e at h)
    | inl e ↦ elim (Bool-cases (scope == "session")) [
      | inr g ↦ inl (rw (e, g) at h)
      | inl g ↦
          elim (allow_in_session_cases r.conversation_id r.tool_name conversation_id tool_name m
            (rw (e, g) at h)) [
              | inl before ↦ inl before
              | inr (c, t) ↦
                  inr ((eq_iff verdict "approve").0 e, (eq_iff scope "session").0 g, c, t)
            ]
    ]
  ]

  decision_cases :
      (s : System) (k verdict scope : String) (d : ApprovalDecision) (m : Manager)
      → decide k verdict scope s.manager ≡ ok (d, m)
      → IsAllowed m
      → IsAllowed s.manager ⊎ IsGrant s (record s { manager = m }) conversation_id tool_name
  decision_cases s k verdict scope d m made h =
      let (r, there, v, q, accepted, left') = decide_ok k verdict scope s.manager made in
      let tried = (try_resolve k d s.manager).1 in
      elim (granted_cases verdict scope r tried (subst IsAllowed left' h)) [
        | inl before ↦ inl (same_sessions _ _ (try_resolve-sessions k d s.manager) before)
        | inr (a, b, c, t) ↦ inr (k, r, d, m, there, c, t, rw (a, b) at made, refl)
      ]

  Step_cases :
      {s s' : System}
      → Step s s'
      → IsAllowed s'.manager
      → IsAllowed s.manager ⊎ IsGrant s s' conversation_id tool_name
  Step_cases {s} (begin now r m absent fresh made) h =
      inl (same_sessions _ _ (begin-sessions now r s.manager m made) h)
  Step_cases {s} (start k e) h = inl h
  Step_cases {s} (resume k w event e l may) h =
      inl (same_sessions _ _ (wait_for_decision-sessions event k s.manager) h)
  Step_cases {s} (withdraw k e) h =
      inl (same_sessions _ _ (try_resolve-sessions k cancellation s.manager) h)
  Step_cases {s} (cancel k w e l) h =
      inl (same_sessions _ _ (try_resolve-sessions k cancellation s.manager) h)
  Step_cases {s} (call_back k w e l) h =
      inl (same_sessions _ _ (call_back-sessions k (was_stopped w) s.manager) h)
  Step_cases {s} (decision k verdict scope d m made) h = decision_cases s k verdict scope d m made h
  Step_cases {s} (cancel_node node_id) h =
      inl (same_sessions _ _ (cancel_for_node-sessions node_id s.manager) h)

  nothing_allowed : (timeout_seconds : Option ℕ) → IsAllowed (new_manager timeout_seconds) → ⊥
  unfolding is_session_allowed new_manager
  nothing_allowed timeout_seconds h = cc (rw get-empty at h)

-- From no approvals, in whatever order things happen: if a session allows a tool, then one of the
-- steps that led there was a decision of a user, to approve a request of this conversation for this
-- tool, for the session. The decision was accepted; before it the session did not allow the tool,
-- after it the session did, and what happened since led on from there.
pub is_session_allowed_lem :
    (timeout_seconds : Option ℕ) (conversation_id tool_name : String) {s : System}
    → Steps (new_system timeout_seconds) s
    → is_session_allowed conversation_id tool_name s.manager ≡ true
    → (before : System) × (after : System) × Steps (new_system timeout_seconds) before
      × (is_session_allowed conversation_id tool_name before.manager ≡ false)
      × IsGrant before after conversation_id tool_name
      × (is_session_allowed conversation_id tool_name after.manager ≡ true)
      × Steps after s
is_session_allowed_lem timeout_seconds conversation_id tool_name here h =
    absurd (nothing_allowed conversation_id tool_name timeout_seconds h)
is_session_allowed_lem timeout_seconds conversation_id tool_name {s} (next {t} steps step) h =
    elim (Bool-cases (is_session_allowed conversation_id tool_name t.manager)) [
      | inl e ↦
          let (before, after, first, off, grant, on, rest) =
            is_session_allowed_lem timeout_seconds conversation_id tool_name steps e in
          (before, after, first, off, grant, on, next rest step)
      | inr e ↦ elim (Step_cases conversation_id tool_name step h) [
        | inl allowed ↦ absurd (cc (sym allowed ∙ e))
        | inr grant ↦ (t, s, steps, e, grant, h, here)
      ]
    ]
