-- ===== src/Examples/Approvals.antt =====
-- Examples for approvals: a request is made, the user approves it for the session while its task
-- has not run yet, and the task then returns the approval.
use chat_tree.Prelude.{inl, false, ◌≡◌, refl, true, none, some, [], ◌∷◌, ok}
use chat_tree.Dict.{get, insert}
use chat_tree.Tools.Approvals.Types.{
  pending, approved, ApprovalRequest, ApprovalDecision, Manager, to_payload,
}
use chat_tree.Tools.Approvals.Manager.{
  new_manager, is_session_allowed, payloads, list_pending, begin_request, with_expiry, resolved,
  try_resolve, allow_in_session, verdict_of, decide, granted, cancellation, cancel_for_node,
}
use chat_tree.Tools.Approvals.Waits.{
  Wait, created, waiting, returned, completed, wait_start, wait_for_decision, System, moved, begin,
  start, resume, decision, Steps, here, next, new_system,
}
use chat_tree.Tools.Approvals.Consistency.{IsSound}
use chat_tree.Tools.Approvals.Preservation.{Steps-IsSound}
use chat_tree.Tools.Approvals.Outcomes.{first_decision}
use chat_tree.Tools.Approvals.Decisions.{TaskSteps, HasEnded, decide-Steps}
use chat_tree.Tools.Approvals.Nodes.{cancel_for_node_lem}
use chat_tree.Tools.Approvals.Grants.{IsGrant, is_session_allowed_lem}
use chat_tree.Tools.Approvals.Lasting.{decide-granted}

abbrev request : ApprovalRequest
request = record {
  id = "a1";
  conversation_id = "c1";
  node_id = "n1";
  tool_call_id = "t1";
  tool_name = "shell";
  arguments_preview = "{}";
  risk_level = "high";
  reason = "Approval required by rule default-ask-shell";
  suggested_actions = "approve" ∷ "deny" ∷ [];
  run_id = some "r1";
  run_kind = none;
  created_by_run_id = none;
  cancellation_parent_run_id = none;
  root_run_id = none;
  agent_name = none;
  task_summary = none;
  source_label = none;
  created_at = 99;
  expires_at = none;
  status = pending;
}

abbrev entered : Manager
entered = record {
  timeout_seconds = some 60;
  requests = ("a1", with_expiry 100 (some 60) request) ∷ [];
  futures = ("a1", none) ∷ [];
  session_allowed_tools = [];
}

abbrev begun : System
begun = moved "a1" (created, entered) (new_system (some 60))

begin_accepted : begin_request 100 request (new_manager (some 60)) ≡ ok entered
unfolding begin_request new_manager get insert
begin_accepted = refl

never_seen : get {V = Wait} "a1" [] ≡ none
unfolding get
never_seen = refl

begun-Steps : Steps (new_system (some 60)) begun
begun-Steps = next here (begin 100 request entered never_seen refl begin_accepted)

abbrev approval : ApprovalDecision
approval = record { status = approved; scope = some "session" }

abbrev after : Manager
after =
    granted "approve" "session" request
      (resolved "a1" approval (with_expiry 100 (some 60) request) entered)

decision_accepted : decide "a1" "approve" "session" entered ≡ ok (approval, after)
unfolding decide verdict_of try_resolve get allow_in_session
decision_accepted = refl

abbrev decided_system : System
decided_system = record begun { manager = after }

decided-Steps : Steps (new_system (some 60)) decided_system
decided-Steps =
    next begun-Steps (decision "a1" "approve" "session" approval after decision_accepted)

Steps-IsSound_example : IsSound decided_system
Steps-IsSound_example = Steps-IsSound (some 60) decided-Steps

task_created : get "a1" begun.waits ≡ some created
unfolding get insert
task_created = refl

future_stored : get "a1" after.futures ≡ some (some approval)
unfolding get insert allow_in_session
future_stored = refl

abbrev started : System
started = moved "a1" (wait_start "a1" after, after) decided_system

task_waiting : get "a1" started.waits ≡ some waiting
unfolding get insert wait_start allow_in_session
task_waiting = refl

abbrev ended : System
ended = moved "a1" (wait_for_decision (completed approval) "a1" after) started

task_returned : get "a1" ended.waits ≡ some (returned approval)
unfolding get insert wait_for_decision wait_start
task_returned = refl

first_decision_example : approval ≡ approval
first_decision_example =
    first_decision (some 60) "a1" approval approval decided-Steps future_stored
      (next (next here (start "a1" task_created))
        (resume "a1" waiting (completed approval) task_waiting refl future_stored))
      task_returned

request_there : get "a1" entered.requests ≡ some (with_expiry 100 (some 60) request)
unfolding get
request_there = refl

decide-Steps_example :
    (m : Manager) × (decide "a1" "approve" "session" entered ≡ ok (approval, m))
    × (s' : System) × TaskSteps "a1" (record begun { manager = m }) s'
    × HasEnded "a1" approval s'
decide-Steps_example =
    decide-Steps (some 60) "a1" "approve" "session" approved (with_expiry 100 (some 60) request)
      begun-Steps request_there refl (inl (refl, refl))

future_open : get "a1" entered.futures ≡ some none
unfolding get
future_open = refl

cancel_for_node_example : get "a1" (cancel_for_node "n1" entered).futures ≡ some (some cancellation)
cancel_for_node_example =
    cancel_for_node_lem (some 60) "n1" "a1" (with_expiry 100 (some 60) request) none begun-Steps
      request_there refl future_open

session_allowed : is_session_allowed "c1" "shell" after ≡ true
unfolding is_session_allowed allow_in_session get insert
session_allowed = refl

is_session_allowed_example :
    (before : System) × (after_it : System) × Steps (new_system (some 60)) before
    × (is_session_allowed "c1" "shell" before.manager ≡ false)
    × IsGrant before after_it "c1" "shell"
    × (is_session_allowed "c1" "shell" after_it.manager ≡ true)
    × Steps after_it decided_system
is_session_allowed_example =
    is_session_allowed_lem (some 60) "c1" "shell" decided-Steps session_allowed

decide-granted_example : is_session_allowed "c1" "shell" started.manager ≡ true
decide-granted_example =
    decide-granted "a1" (with_expiry 100 (some 60) request) approval begun after request_there
      decision_accepted (next here (start "a1" task_created))

-- Before the decision the request is listed, after it not.
listed : list_pending (some "c1") entered ≡ to_payload (with_expiry 100 (some 60) request) ∷ []
unfolding list_pending payloads
listed = refl

not_listed : list_pending none after ≡ []
unfolding list_pending payloads allow_in_session insert
not_listed = refl
