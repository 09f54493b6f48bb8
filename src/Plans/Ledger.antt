-- ===== src/Plans/Ledger.antt =====
-- `PlanLedger` of backend/core/plans/ledger.py, whose lock makes each method atomic. A session is
-- the row that it is made from.
use chat_tree.Prelude.{
  ℕ, String, ◌==◌, Bool, not, Option, none, some, if◌then◌else◌, Result, ok, err, ◌>>=◌,
}
use chat_tree.Tools.Permissions.{normalize_permission_mode}
use chat_tree.Plans.Types.{
  Plan, Tables, PlanError, value_error, not_found, Transaction, may_ask, may_exit, awaits_question,
  awaits_approval,
}
use chat_tree.Plans.Table.{
  find_plan, create_plan, get_active_or_awaiting, ask_question, await_approval, answer_question,
  approve_plan, reject_plan,
}

-- if previous_mode == "plan": previous_mode = "modify_only"
unfoldable pub previous_mode : Option String → String
unfolding normalize_permission_mode
previous_mode value =
    if normalize_permission_mode value == "plan"
    then "modify_only"
    else normalize_permission_mode value

abbrev pub created : String → Option Plan → Tables → Result PlanError (Plan × Tables)
created plan_id none s = err (not_found plan_id)
created plan_id (some p) s = ok (p, s)

unfoldable pub enter_plan_mode :
    String → ℕ → String → Option String → Option String → Option String → Transaction
unfolding get_active_or_awaiting create_plan find_plan previous_mode
enter_plan_mode plan_id now conversation_id node_id mode run_id s =
    if conversation_id == ""
    then err (value_error "conversation_id is required")
    else elim (get_active_or_awaiting conversation_id s) [
      | some current ↦ ok (current, s)
      | none ↦
          create_plan plan_id now conversation_id node_id (previous_mode mode) run_id s >>= λ s'.
          created plan_id (find_plan conversation_id plan_id s'.plans) s'
    ]

-- The open plan of the conversation, if its status is one of those that the method takes.
unfoldable pub with_open :
    (Plan → Bool)
    → Option Plan
    → (Plan → Result PlanError (Plan × Tables))
    → Result PlanError (Plan × Tables)
with_open takes none next = err (value_error "active plan session is required")
with_open takes (some p) next =
    if takes p then next p else err (value_error "active plan session is required")

-- The plan that is named, if its status is the one that the method takes.
unfoldable pub with_plan :
    String
    → String
    → (Plan → Bool)
    → Option Plan
    → Result PlanError (Plan × Tables)
    → Result PlanError (Plan × Tables)
with_plan plan_id message takes none next = err (not_found plan_id)
with_plan plan_id message takes (some p) next = if takes p then next else err (value_error message)

-- `questions` is whether there are any.
unfoldable pub ask_user_question :
    ℕ → String → Bool → Option String → Option String → Option String → Transaction
unfolding with_open get_active_or_awaiting ask_question
ask_user_question now conversation_id questions node_id run_id tool_call_id s =
    if conversation_id == ""
    then err (value_error "conversation_id is required")
    else if not questions
    then err (value_error "questions is required")
    else with_open (λ p. may_ask p.status) (get_active_or_awaiting conversation_id s)
        (λ p. ask_question now conversation_id p.id node_id tool_call_id run_id s)

unfoldable pub exit_plan_mode : ℕ → String → Option String → Option String → String → Transaction
unfolding with_open get_active_or_awaiting await_approval
exit_plan_mode now conversation_id node_id run_id tool_call_id s =
    if conversation_id == ""
    then err (value_error "conversation_id is required")
    else if tool_call_id == ""
    then err (value_error "tool_call_id is required")
    else with_open (λ p. may_exit p.status) (get_active_or_awaiting conversation_id s)
        (λ p. await_approval now conversation_id p.id tool_call_id node_id run_id s)

-- `answers` is whether there are any.
unfoldable pub answer_plan_question : ℕ → String → String → Bool → Transaction
unfolding with_plan find_plan answer_question
answer_plan_question now conversation_id plan_id answers s =
    if not answers
    then err (value_error "answers is required")
    else with_plan plan_id "plan must be awaiting question" (λ p. awaits_question p.status)
        (find_plan conversation_id plan_id s.plans) (answer_question now conversation_id plan_id s)

unfoldable pub approve : ℕ → String → String → Option String → Transaction
unfolding with_plan find_plan approve_plan
approve now conversation_id plan_id run_id s =
    with_plan plan_id "plan must be awaiting approval" (λ p. awaits_approval p.status)
      (find_plan conversation_id plan_id s.plans)
      (approve_plan now conversation_id plan_id run_id s)

unfoldable pub reject : ℕ → String → String → Transaction
unfolding with_plan find_plan reject_plan
reject now conversation_id plan_id s =
    with_plan plan_id "plan must be awaiting approval" (λ p. awaits_approval p.status)
      (find_plan conversation_id plan_id s.plans) (reject_plan now conversation_id plan_id s)
