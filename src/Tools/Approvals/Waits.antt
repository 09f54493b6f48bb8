-- ===== src/Tools/Approvals/Waits.antt =====
-- The tasks that wait for a decision, of backend/core/tools/security/approval.py, as a step relation:
-- what the event loop, the users and the clock may do next. `asyncio.wait_for` gives the result of
-- the future, which then is there, or times out if there is a timeout, or passes on the
-- cancellation of its task.
use chat_tree.Prelude.{
  ℕ, String, ◌≡◌, Bool, true, false, Option, none, some, [], if◌then◌else◌, is_some, ok,
}
use chat_tree.Dict.{Dict, get, insert, has}
use chat_tree.Tools.Approvals.Types.{
  pending, expired, ApprovalRequest, ApprovalDecision, Future, Manager,
}
use chat_tree.Tools.Approvals.Manager.{
  new_manager, begin_request, try_resolve, decide, cancellation, cancel_for_node, cleanup,
  cleanup_cancelled_before_start,
}

-- The state of a task: not yet run, waiting, waiting with its cancellation accepted, accepted before
-- the task ran, and its ends. A coroutine that ends by a `KeyError` has failed.
pub data Wait : Type 0 where
  created waiting cancelling withdrawn : Wait
  returned : ApprovalDecision → Wait
  stopped failed : Wait

pub data WaitEvent : Type 0 where
  completed : ApprovalDecision → WaitEvent
  timed_out interrupted : WaitEvent

abbrev pub expiration : ApprovalDecision
expiration = record { status = expired; scope = none }

-- future.result() if future.done(), else the expiration
abbrev pub result_or_expired : Option Future → ApprovalDecision
result_or_expired none = expiration
result_or_expired (some none) = expiration
result_or_expired (some (some d)) = d

-- The task runs first: it takes its future, which raises when there is none.
unfoldable pub wait_start : String → Manager → Wait
wait_start k m = if has k m.futures then waiting else failed

abbrev pub after_timeout : String → Manager → Bool × Manager → Wait × Manager
after_timeout k m (true, m') = (returned expiration, cleanup k m')
after_timeout k m (false, m') = (returned (result_or_expired (get k m.futures)), cleanup k m')

-- `_wait_for_decision` from its `await` on.
unfoldable pub wait_for_decision : WaitEvent → String → Manager → Wait × Manager
wait_for_decision (completed d) k m = (returned d, cleanup k m)
wait_for_decision timed_out k m = after_timeout k m (try_resolve k expiration m)
wait_for_decision interrupted k m = (stopped, cleanup k (try_resolve k cancellation m).1)

pub record System : Type 0 where
  pub manager : Manager
  pub waits : Dict Wait

abbrev pub moved : String → Wait × Manager → System → System
moved k (w, m) s = record { manager = m; waits = insert k w s.waits }

-- `_ApprovalWaitTask.cancel` of a task that is not done resolves its request at once.
abbrev pub cancel_task : String → Wait → System → System
cancel_task k w s = moved k (w, (try_resolve k cancellation s.manager).1) s

abbrev pub was_stopped : Wait → Bool
was_stopped withdrawn = true
was_stopped stopped = true
was_stopped _ = false

-- The state of a task whose callback has run.
abbrev pub called_back : Wait → Wait
called_back withdrawn = stopped
called_back w = w

abbrev pub is_ended : Wait → Bool
is_ended withdrawn = true
is_ended (returned d) = true
is_ended stopped = true
is_ended failed = true
is_ended _ = false

abbrev pub is_waiting : Wait → Bool
is_waiting waiting = true
is_waiting cancelling = true
is_waiting _ = false

-- What `asyncio.wait_for` may give to the task of the request.
abbrev pub MayHappen : WaitEvent → String → Wait → System → Type 0
MayHappen (completed d) k w s = get k s.manager.futures ≡ some (some d)
MayHappen timed_out k w s = is_some s.manager.timeout_seconds ≡ true
MayHappen interrupted k w s = w ≡ cancelling

-- `uuid4` gives every request an identifier of its own, and a request is made with the status that
-- the field defaults to.
pub data Step (s : System) : System → Type 0 where
  begin :
      (now : ℕ) (r : ApprovalRequest) (m : Manager)
      → get r.id s.waits ≡ none
      → r.status ≡ pending
      → begin_request now r s.manager ≡ ok m
      → Step s (moved r.id (created, m) s)
  start :
      (k : String)
      → get k s.waits ≡ some created
      → Step s (moved k (wait_start k s.manager, s.manager) s)
  resume :
      (k : String) (w : Wait) (event : WaitEvent)
      → get k s.waits ≡ some w
      → is_waiting w ≡ true
      → MayHappen event k w s
      → Step s (moved k (wait_for_decision event k s.manager) s)
  withdraw : (k : String) → get k s.waits ≡ some created → Step s (cancel_task k withdrawn s)
  cancel :
      (k : String) (w : Wait)
      → get k s.waits ≡ some w
      → is_waiting w ≡ true
      → Step s (cancel_task k cancelling s)
  call_back :
      (k : String) (w : Wait)
      → get k s.waits ≡ some w
      → is_ended w ≡ true
      → Step s
          (moved k (called_back w, cleanup_cancelled_before_start k (was_stopped w) s.manager) s)
  decision :
      (k verdict scope : String) (d : ApprovalDecision) (m : Manager)
      → decide k verdict scope s.manager ≡ ok (d, m)
      → Step s (record s { manager = m })
  cancel_node :
      (node_id : String) → Step s (record s { manager = cancel_for_node node_id s.manager })

pub data Steps (s : System) : System → Type 0 where
  here : Steps s s
  next : {t u : System} → Steps s t → Step t u → Steps s u

abbrev pub new_system : Option ℕ → System
new_system timeout_seconds = record { manager = new_manager timeout_seconds; waits = [] }
