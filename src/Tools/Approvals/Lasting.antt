-- ===== src/Tools/Approvals/Lasting.antt =====
-- That a tool that a user has allowed for the session stays allowed, in
-- backend/core/tools/security/approval.py.
use chat_tree.Prelude.{
  String, ◌≡◌, refl, sym, ap, ◌∙◌, ◌==◌, eq_iff, eq_refl, true, ◌&&◌, some, some-cancel, List, [],
  ◌∷◌, ◌++◌, inl, inr, Bool-cases, ok, subst,
}
use chat_tree.Dict.{get, get-insert}
use chat_tree.Dict.Keys.{get-insert_self}
use chat_tree.Chat.Conversation.{contains}
use chat_tree.Tools.Approvals.Types.{ApprovalRequest, ApprovalDecision, Manager}
use chat_tree.Tools.Approvals.Manager.{
  tools_or_empty, is_session_allowed, try_resolve, added, allow_in_session, granted, decide,
  cancellation,
}
use chat_tree.Tools.Approvals.Waits.{
  was_stopped, System, Step, begin, start, resume, withdraw, cancel, call_back, decision,
  cancel_node, Steps, here, next,
}
use chat_tree.Tools.Approvals.Methods.{decide_ok}
use chat_tree.Tools.Approvals.Grants.{
  try_resolve-sessions, cancel_for_node-sessions, wait_for_decision-sessions, call_back-sessions,
  begin-sessions,
}

contains_last : (t : String) (tools : List String) → contains t (tools ++ t ∷ []) ≡ true
contains_last t [] = rw eq_refl refl
contains_last t (u ∷ tools) = elim (Bool-cases (u == t)) [
  | inl e ↦ rw e refl
  | inr e ↦ rw e (contains_last t tools)
]

contains_kept :
    (t tool : String) (tools : List String)
    → contains t tools ≡ true
    → contains t (tools ++ tool ∷ []) ≡ true
contains_kept t tool [] h = absurd (cc h)
contains_kept t tool (u ∷ tools) h = elim (Bool-cases (u == t)) [
  | inl e ↦ rw e refl
  | inr e ↦ rw e (contains_kept t tool tools (rw e at h))
]

added_self : (t : String) (tools : List String) → contains t (added t tools) ≡ true
added_self t tools = elim (Bool-cases (contains t tools)) [
  | inl e ↦ rw e e
  | inr e ↦ rw e (contains_last t tools)
]

added_kept :
    (t tool : String) (tools : List String)
    → contains t tools ≡ true
    → contains t (added tool tools) ≡ true
added_kept t tool tools h = elim (Bool-cases (contains tool tools)) [
  | inl e ↦ rw e h
  | inr e ↦ rw e (contains_kept t tool tools h)
]

allow_in_session_self :
    (c t : String) (m : Manager) → is_session_allowed c t (allow_in_session c t m) ≡ true
unfolding is_session_allowed allow_in_session
allow_in_session_self c t m =
    rw get-insert_self (added_self t (tools_or_empty (get c m.session_allowed_tools)))

module _ (c t : String) where
  abbrev IsAllowed : Manager → Type 0
  IsAllowed m = is_session_allowed c t m ≡ true

  same_sessions :
      (m m' : Manager)
      → m'.session_allowed_tools ≡ m.session_allowed_tools
      → IsAllowed m
      → IsAllowed m'
  unfolding is_session_allowed
  same_sessions m m' e h = rw e h

  allow_in_session-kept :
      (c' t' : String) (m : Manager) → IsAllowed m → IsAllowed (allow_in_session c' t' m)
  unfolding is_session_allowed allow_in_session
  allow_in_session-kept c' t' m h = rw get-insert (elim (Bool-cases (c' == c)) [
    | inl e ↦
        let same : c ≡ c' = sym ((eq_iff c' c).0 e) in
        rw e (
          added_kept t t' (tools_or_empty (get c' m.session_allowed_tools)) (
            subst (λ i. contains t (tools_or_empty (get i m.session_allowed_tools)) ≡ true) same h))
    | inr e ↦ rw e h
  ])

  granted-kept :
      (verdict scope : String) (r : ApprovalRequest) (m : Manager)
      → IsAllowed m
      → IsAllowed (granted verdict scope r m)
  granted-kept verdict scope r m h =
      elim (Bool-cases (verdict == "approve" && scope == "session")) [
        | inl e ↦ rw e (allow_in_session-kept r.conversation_id r.tool_name m h)
        | inr e ↦ rw e h
      ]

  Step-kept : {s s' : System} → Step s s' → IsAllowed s.manager → IsAllowed s'.manager
  Step-kept {s} (begin now r m absent fresh made) h =
      same_sessions _ _ (begin-sessions now r s.manager m made) h
  Step-kept {s} (start k e) h = h
  Step-kept {s} (resume k w event e l may) h =
      same_sessions _ _ (wait_for_decision-sessions event k s.manager) h
  Step-kept {s} (withdraw k e) h =
      same_sessions _ _ (try_resolve-sessions k cancellation s.manager) h
  Step-kept {s} (cancel k w e l) h =
      same_sessions _ _ (try_resolve-sessions k cancellation s.manager) h
  Step-kept {s} (call_back k w e l) h =
      same_sessions _ _ (call_back-sessions k (was_stopped w) s.manager) h
  Step-kept {s} (decision k verdict scope d m made) h =
      let (r, there, v, q, accepted, left') = decide_ok k verdict scope s.manager made in
      subst IsAllowed (sym left')
        (granted-kept verdict scope r _ (same_sessions _ _ (try_resolve-sessions k d s.manager) h))
  Step-kept {s} (cancel_node node_id) h =
      same_sessions _ _ (cancel_for_node-sessions node_id s.manager) h

  Steps-kept : {s s' : System} → Steps s s' → IsAllowed s.manager → IsAllowed s'.manager
  Steps-kept here h = h
  Steps-kept (next steps step) h = Step-kept step (Steps-kept steps h)

-- When a user's decision to approve a request for the session is accepted, the session allows the
-- tool of the request in its conversation from then on, whatever happens afterwards.
pub decide-granted :
    (k : String) (r : ApprovalRequest) (d : ApprovalDecision) (s : System) (m : Manager)
    {s' : System}
    → get k s.manager.requests ≡ some r
    → decide k "approve" "session" s.manager ≡ ok (d, m)
    → Steps (record s { manager = m }) s'
    → is_session_allowed r.conversation_id r.tool_name s'.manager ≡ true
decide-granted k r d s m there made steps =
    let (r', there', v, q, accepted, left') = decide_ok k "approve" "session" s.manager made in
    let same : r' ≡ r = some-cancel (sym there' ∙ there) in
    let allowed : is_session_allowed r'.conversation_id r'.tool_name m ≡ true =
      ap (is_session_allowed r'.conversation_id r'.tool_name) left'
      ∙ allow_in_session_self r'.conversation_id r'.tool_name (try_resolve k d s.manager).1 in
    Steps-kept r.conversation_id r.tool_name steps (
      subst (λ (x : ApprovalRequest). is_session_allowed x.conversation_id x.tool_name m ≡ true)
        same allowed)
