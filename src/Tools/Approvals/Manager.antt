-- ===== src/Tools/Approvals/Manager.antt =====
-- The methods of `ApprovalManager` of backend/core/tools/security/approval.py that run at once. A
-- method takes the manager, and returns the manager that it leaves.
use chat_tree.Prelude.{
  ℕ, ◌+◌, String, ◌==◌, Bool, true, false, ◌&&◌, Option, none, some, List, [], ◌∷◌, ◌++◌,
  if◌then◌else◌, Result, ok, err, append_text,
}
use chat_tree.Dict.{Dict, get, insert, remove, has}
use chat_tree.Json.{Value}
use chat_tree.Chat.Conversation.{contains}
use chat_tree.Tools.Approvals.Types.{
  Verdict, approved, denied, cancelled, decided, ApprovalRequest, ApprovalDecision, Future, Manager,
  ApprovalError, key_error, value_error, to_payload, is_pending,
}

-- `ApprovalManager(timeout_seconds)`
unfoldable pub new_manager : Option ℕ → Manager
new_manager timeout_seconds = record {
  timeout_seconds = timeout_seconds;
  requests = [];
  futures = [];
  session_allowed_tools = [];
}

-- self._session_allowed_tools.get(conversation_id, set())
abbrev pub tools_or_empty : Option (List String) → List String
tools_or_empty none = []
tools_or_empty (some tools) = tools

unfoldable pub is_session_allowed : String → String → Manager → Bool
is_session_allowed conversation_id tool_name m =
    contains tool_name (tools_or_empty (get conversation_id m.session_allowed_tools))

-- conversation_id is None or request.conversation_id == conversation_id
abbrev pub is_of : Option String → ApprovalRequest → Bool
is_of none r = true
is_of (some conversation_id) r = r.conversation_id == conversation_id

unfoldable pub payloads : Option String → Dict ApprovalRequest → List (Dict Value)
payloads conversation_id [] = []
payloads conversation_id ((k, r) ∷ rest) =
    if is_pending r.status && is_of conversation_id r
    then to_payload r ∷ payloads conversation_id rest
    else payloads conversation_id rest

unfoldable pub list_pending : Option String → Manager → List (Dict Value)
unfolding payloads
list_pending conversation_id m = payloads conversation_id m.requests

-- int(time.time() + self.timeout_seconds)
abbrev pub expiry : ℕ → Option ℕ → Option ℕ
expiry now none = none
expiry now (some seconds) = some (now + seconds)

abbrev pub with_expiry : ℕ → Option ℕ → ApprovalRequest → ApprovalRequest
with_expiry now seconds r = record r { expires_at = expiry now seconds }

-- The request and its future are entered; the task is that of Waits.
unfoldable pub begin_request : ℕ → ApprovalRequest → Manager → Result ApprovalError Manager
begin_request now r m =
    if has r.id m.requests
    then err (value_error (append_text "Approval request already pending: " r.id))
    else ok (record m {
      requests = insert r.id (with_expiry now m.timeout_seconds r) m.requests;
      futures = insert r.id none m.futures;
    })

abbrev pub with_status : Verdict → ApprovalRequest → ApprovalRequest
with_status v r = record r { status = decided v }

abbrev pub resolved : String → ApprovalDecision → ApprovalRequest → Manager → Manager
resolved k d r m = record m {
  requests = insert k (with_status d.status r) m.requests;
  futures = insert k (some d) m.futures;
}

abbrev pub resolve_found :
    Option ApprovalRequest → Option Future → String → ApprovalDecision → Manager → Bool × Manager
resolve_found none f k d m = (false, m)
resolve_found (some r) none k d m = (false, m)
resolve_found (some r) (some (some e)) k d m = (false, m)
resolve_found (some r) (some none) k d m =
    if is_pending r.status then (true, resolved k d r m) else (false, m)

-- `_try_resolve`
unfoldable pub try_resolve : String → ApprovalDecision → Manager → Bool × Manager
try_resolve k d m = resolve_found (get k m.requests) (get k m.futures) k d m

-- self._session_allowed_tools.setdefault(conversation_id, set()).add(tool_name)
abbrev pub added : String → List String → List String
added tool tools = if contains tool tools then tools else tools ++ tool ∷ []

unfoldable pub allow_in_session : String → String → Manager → Manager
allow_in_session conversation_id tool_name m = record m {
  session_allowed_tools =
      insert conversation_id
        (added tool_name (tools_or_empty (get conversation_id m.session_allowed_tools)))
        m.session_allowed_tools;
}

-- The status that the decision of a user has.
unfoldable pub verdict_of : String → Result ApprovalError Verdict
verdict_of decision =
    if decision == "approve"
    then ok approved
    else if decision == "deny"
    then ok denied
    else err (value_error (append_text "Unknown approval decision: " decision))

-- An approval for the session is remembered.
abbrev pub granted : String → String → ApprovalRequest → Manager → Manager
granted decision scope r m =
    if decision == "approve" && scope == "session"
    then allow_in_session r.conversation_id r.tool_name m
    else m

abbrev pub settled :
    String
    → String
    → String
    → ApprovalRequest
    → ApprovalDecision
    → Bool × Manager
    → Result ApprovalError (ApprovalDecision × Manager)
settled k decision scope r d (false, m) = err (key_error k)
settled k decision scope r d (true, m) = ok (d, granted decision scope r m)

abbrev pub decided_by :
    String
    → String
    → String
    → ApprovalRequest
    → Result ApprovalError Verdict
    → Manager
    → Result ApprovalError (ApprovalDecision × Manager)
decided_by k decision scope r (err e) m = err e
decided_by k decision scope r (ok v) m =
    let d : ApprovalDecision = record { status = v; scope = some scope } in
    settled k decision scope r d (try_resolve k d m)

unfoldable pub decide :
    String → String → String → Manager → Result ApprovalError (ApprovalDecision × Manager)
unfolding verdict_of
decide k decision scope m = elim (get k m.requests) [
  | none ↦ err (key_error k)
  | some r ↦ decided_by k decision scope r (verdict_of decision) m
]

abbrev pub cancellation : ApprovalDecision
cancellation = record { status = cancelled; scope = none }

unfoldable pub requests_of_node : String → Dict ApprovalRequest → List String
requests_of_node node_id [] = []
requests_of_node node_id ((k, r) ∷ rest) =
    if r.node_id == node_id
    then k ∷ requests_of_node node_id rest
    else requests_of_node node_id rest

unfoldable pub cancel_all : List String → Manager → Manager
unfolding try_resolve
cancel_all [] m = m
cancel_all (k ∷ ks) m = cancel_all ks (try_resolve k cancellation m).1

unfoldable pub cancel_for_node : String → Manager → Manager
unfolding cancel_all requests_of_node
cancel_for_node node_id m = cancel_all (requests_of_node node_id m.requests) m

-- `get`
unfoldable pub get_request : String → Manager → Option ApprovalRequest
get_request k m = get k m.requests

-- `_cleanup`
unfoldable pub cleanup : String → Manager → Manager
cleanup k m = record m { requests = remove k m.requests; futures = remove k m.futures }

-- `_cleanup_cancelled_before_start`; `was_cancelled` is `task.cancelled()`.
unfoldable pub cleanup_cancelled_before_start : String → Bool → Manager → Manager
unfolding cleanup try_resolve
cleanup_cancelled_before_start k was_cancelled m =
    if was_cancelled && has k m.requests then cleanup k (try_resolve k cancellation m).1 else m
