-- ===== src/Plans/Table.antt =====
-- `SQLitePlanRepository` of backend/core/persistence/plan_repository.py. The fresh identifier and the
-- clock reading are arguments. An update that raises is rolled back, so that it leaves the tables.
use Prim.Native.String.{compare}
use text.Mathlib.Text.{is_le}
use chat_tree.Prelude.{
  ℕ, String, ◌==◌, Bool, true, not, ◌&&◌, ◌||◌, Option, none, some, List, [], ◌∷◌, ◌++◌, ltb, eqb,
  if◌then◌else◌, Result, ok, err,
}
use chat_tree.Chat.Conversation.{contains}
use chat_tree.Plans.Types.{
  active, awaiting_question, awaiting_approval, approved, Plan, Tables, PlanError, key_error,
  integrity_error, Transaction, refers, is_open, is_approved,
}

-- WHERE conversation_id = ? AND id = ?
abbrev pub is_plan : String → String → Plan → Bool
is_plan conversation_id plan_id p = p.conversation_id == conversation_id && p.id == plan_id

unfoldable pub find_plan : String → String → List Plan → Option Plan
find_plan conversation_id plan_id [] = none
find_plan conversation_id plan_id (p ∷ ps) =
    if is_plan conversation_id plan_id p then some p else find_plan conversation_id plan_id ps

unfoldable pub update_plan : String → String → (Plan → Plan) → List Plan → List Plan
update_plan conversation_id plan_id change [] = []
update_plan conversation_id plan_id change (p ∷ ps) =
    (if is_plan conversation_id plan_id p then change p else p)
    ∷ update_plan conversation_id plan_id change ps

-- `_require_plan`
abbrev pub required : String → Option Plan → Tables → Result PlanError (Plan × Tables)
required plan_id none s = err (key_error plan_id)
required plan_id (some p) s = ok (p, s)

-- An update and the row as it is then. `valid` is whether the references hold.
unfoldable pub change_plan : String → String → Bool → (Plan → Plan) → Transaction
unfolding find_plan update_plan
change_plan conversation_id plan_id valid change s =
    elim (find_plan conversation_id plan_id s.plans) [
      | none ↦ err (key_error plan_id)
      | some p ↦
          if valid
          then (let plans = update_plan conversation_id plan_id change s.plans in
              required plan_id (find_plan conversation_id plan_id plans)
                (record s { plans = plans }))
          else err integrity_error
    ]

unfoldable pub new_plan : String → ℕ → String → Option String → String → Option String → Plan
new_plan plan_id now conversation_id node_id previous_mode run_id = record {
  id = plan_id;
  conversation_id = conversation_id;
  status = active;
  previous_permission_mode = previous_mode;
  entered_node_id = node_id;
  entered_run_id = run_id;
  approved_run_id = none;
  question_tool_call_id = none;
  exit_tool_call_id = none;
  blocking_node_id = none;
  blocking_run_id = none;
  approved_at = none;
  rejected_at = none;
  created_at = now;
  updated_at = now;
}

-- The column `id` is a primary key.
abbrev pub is_new_id : String → List Plan → Bool
is_new_id plan_id [] = true
is_new_id plan_id (p ∷ ps) = not (p.id == plan_id) && is_new_id plan_id ps

unfoldable pub create_plan :
    String → ℕ → String → Option String → String → Option String → Tables → Result PlanError Tables
unfolding new_plan refers
create_plan plan_id now conversation_id node_id previous_mode run_id s =
    if is_new_id plan_id s.plans
      && contains conversation_id s.conversations
      && refers s.nodes conversation_id node_id
      && refers s.runs conversation_id run_id
    then ok (record s {
      plans = s.plans ++ new_plan plan_id now conversation_id node_id previous_mode run_id ∷ [];
    })
    else err integrity_error

-- The columns that the update sets.
abbrev pub asked : ℕ → Option String → Option String → Option String → Plan → Plan
asked now node_id tool_call_id run_id p = record p {
  status = awaiting_question;
  question_tool_call_id = tool_call_id;
  blocking_node_id = node_id;
  blocking_run_id = run_id;
  updated_at = now;
}

unfoldable pub ask_question :
    ℕ → String → String → Option String → Option String → Option String → Transaction
unfolding change_plan
ask_question now conversation_id plan_id node_id tool_call_id run_id s =
    change_plan conversation_id plan_id
      (refers s.nodes conversation_id node_id && refers s.runs conversation_id run_id)
      (asked now node_id tool_call_id run_id) s

-- The columns that the update sets.
abbrev pub submitted : ℕ → String → Option String → Option String → Plan → Plan
submitted now tool_call_id node_id run_id p = record p {
  status = awaiting_approval;
  exit_tool_call_id = some tool_call_id;
  blocking_node_id = node_id;
  blocking_run_id = run_id;
  updated_at = now;
}

unfoldable pub await_approval :
    ℕ → String → String → String → Option String → Option String → Transaction
unfolding change_plan
await_approval now conversation_id plan_id tool_call_id node_id run_id s =
    change_plan conversation_id plan_id
      (refers s.nodes conversation_id node_id && refers s.runs conversation_id run_id)
      (submitted now tool_call_id node_id run_id) s

-- The columns that the update sets.
abbrev pub answered : ℕ → Plan → Plan
answered now p = record p { status = active; question_tool_call_id = none; updated_at = now }

unfoldable pub answer_question : ℕ → String → String → Transaction
unfolding change_plan
answer_question now conversation_id plan_id =
    change_plan conversation_id plan_id true (answered now)

-- The columns that the update sets.
abbrev pub accepted : ℕ → Option String → Plan → Plan
accepted now run_id p = record p {
  status = approved;
  approved_run_id = run_id;
  approved_at = some now;
  updated_at = now;
}

unfoldable pub approve_plan : ℕ → String → String → Option String → Transaction
unfolding change_plan
approve_plan now conversation_id plan_id run_id s =
    change_plan conversation_id plan_id (refers s.runs conversation_id run_id) (accepted now run_id)
      s

-- The columns that the update sets.
abbrev pub with_run : ℕ → Option String → Plan → Plan
with_run now run_id p = record p { approved_run_id = run_id; updated_at = now }

-- Only an approved plan is found by the update.
abbrev pub if_approved :
    String → Option Plan → Result PlanError (Plan × Tables) → Result PlanError (Plan × Tables)
if_approved plan_id none r = err (key_error plan_id)
if_approved plan_id (some p) r = if is_approved p.status then r else err (key_error plan_id)

unfoldable pub update_approved_run_id : ℕ → String → String → Option String → Transaction
unfolding change_plan
update_approved_run_id now conversation_id plan_id run_id s =
    if_approved plan_id (find_plan conversation_id plan_id s.plans) (
      change_plan conversation_id plan_id (refers s.runs conversation_id run_id)
        (with_run now run_id) s)

-- The columns that the update sets.
abbrev pub declined : ℕ → Plan → Plan
declined now p = record p {
  status = active;
  exit_tool_call_id = none;
  rejected_at = some now;
  updated_at = now;
}

unfoldable pub reject_plan : ℕ → String → String → Transaction
unfolding change_plan
reject_plan now conversation_id plan_id = change_plan conversation_id plan_id true (declined now)

-- ORDER BY updated_at DESC, created_at DESC, id DESC: whether `p` comes before `q`.
unfoldable pub is_newer : Plan → Plan → Bool
is_newer p q =
    ltb q.updated_at p.updated_at
    || eqb q.updated_at p.updated_at
      && (ltb q.created_at p.created_at
          || eqb q.created_at p.created_at && is_le (compare q.id p.id))

abbrev pub newest : Plan → Option Plan → Option Plan
newest p none = some p
newest p (some q) = if is_newer p q then some p else some q

-- The first row in that order, of those that the query selects.
unfoldable pub select_newest : (Plan → Bool) → List Plan → Option Plan
unfolding is_newer
select_newest keep [] = none
select_newest keep (p ∷ ps) =
    let rest = select_newest keep ps in if keep p then newest p rest else rest

unfoldable pub get_active_or_awaiting : String → Tables → Option Plan
unfolding select_newest
get_active_or_awaiting conversation_id s =
    select_newest (λ p. p.conversation_id == conversation_id && is_open p.status) s.plans

unfoldable pub get_latest : String → Tables → Option Plan
unfolding select_newest
get_latest conversation_id s = select_newest (λ p. p.conversation_id == conversation_id) s.plans
