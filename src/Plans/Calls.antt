-- ===== src/Plans/Calls.antt =====
-- The calls of backend/core/plans/ledger.py, and that those on an open plan leave one open plan at
-- most. A call that raises changes nothing.
use chat_tree.Prelude.{
  ℕ, String, ◌≡◌, refl, ◌==◌, Bool, true, false, not, ◌&&◌, Option, none, some, List, [], ◌∷◌,
  if◌then◌else◌, arith, Bool-cases, inl, inr, All, Result, ok, err,
}
use chat_tree.Plans.Types.{
  Plan, PlanStatus, Tables, PlanError, refers, is_open, may_ask, may_exit, awaits_question,
  awaits_approval,
}
use chat_tree.Plans.Table.{
  is_plan, find_plan, asked, submitted, answered, accepted, declined, get_active_or_awaiting,
  ask_question, await_approval, answer_question, approve_plan, reject_plan, update_approved_run_id,
}
use chat_tree.Plans.Ledger.{
  enter_plan_mode, with_open, with_plan, ask_user_question, exit_plan_mode, answer_plan_question,
  approve, reject,
}
use chat_tree.Plans.Single.{
  AreSingle, IsThat, find_plan_that, select-IsThat, open_fine, change_plan-AreSingle,
}

pub data Call : Type 0 where
  enter : String → ℕ → String → Option String → Option String → Option String → Call
  ask : ℕ → String → Bool → Option String → Option String → Option String → Call
  exit : ℕ → String → Option String → Option String → String → Call
  answer : ℕ → String → String → Bool → Call
  accept : ℕ → String → String → Option String → Call
  set_run : ℕ → String → String → Option String → Call
  refuse : ℕ → String → String → Call

abbrev pub left : Result PlanError (Plan × Tables) → Tables → Tables
left (err e) s = s
left (ok (p, s')) s = s'

unfoldable pub perform : Call → Tables → Tables
perform (enter plan_id now k node_id mode run_id) s =
    left (enter_plan_mode plan_id now k node_id mode run_id s) s
perform (ask now k questions node_id run_id tool_call_id) s =
    left (ask_user_question now k questions node_id run_id tool_call_id s) s
perform (exit now k node_id run_id tool_call_id) s =
    left (exit_plan_mode now k node_id run_id tool_call_id s) s
perform (answer now k plan_id answers) s = left (answer_plan_question now k plan_id answers s) s
perform (accept now k plan_id run_id) s = left (approve now k plan_id run_id s) s
perform (set_run now k plan_id run_id) s = left (update_approved_run_id now k plan_id run_id s) s
perform (refuse now k plan_id) s = left (reject now k plan_id s) s

unfoldable pub perform_plans : List Call → Tables → Tables
unfolding perform
perform_plans [] s = s
perform_plans (call ∷ calls) s = perform_plans calls (perform call s)

pub left-AreSingle :
    (r : Result PlanError (Plan × Tables)) (s : Tables)
    → AreSingle s.plans
    → ((p : Plan) (s' : Tables) → r ≡ ok (p, s') → AreSingle s'.plans)
    → AreSingle (left r s).plans
left-AreSingle (err e) s a h = a
left-AreSingle (ok (p, s')) s a h = h p s' refl

with_open_ok :
    (takes : Plan → Bool) (o : Option Plan) (next : Plan → Result PlanError (Plan × Tables))
    {r : Plan × Tables}
    → with_open takes o next ≡ ok r
    → (p : Plan) × (o ≡ some p) × (next p ≡ ok r)
unfolding with_open
with_open_ok takes none next h = absurd (cc h)
with_open_ok takes (some p) next h = elim (Bool-cases (takes p)) [
  | inl e ↦ (p, refl, rw e at h)
  | inr e ↦ absurd (cc (rw e at h))
]

with_plan_ok :
    (i message : String) (takes : Plan → Bool) (o : Option Plan)
    (next : Result PlanError (Plan × Tables)) {r : Plan × Tables}
    → with_plan i message takes o next ≡ ok r
    → (p : Plan) × (o ≡ some p) × (takes p ≡ true) × (next ≡ ok r)
unfolding with_plan
with_plan_ok i message takes none next h = absurd (cc h)
with_plan_ok i message takes (some p) next h = elim (Bool-cases (takes p)) [
  | inl e ↦ (p, refl, e, rw e at h)
  | inr e ↦ absurd (cc (rw e at h))
]

-- The rows with the names of the plan that was selected are open.
selected_open :
    (k i : String) (ps : List Plan)
    → All (IsThat (λ q. (q.conversation_id == k && is_open q.status) ≡ true) i) ps
    → All (λ q. is_plan k i q ≡ true → is_open q.status ≡ true) ps
selected_open k i [] h = tt
selected_open k i (q ∷ ps) (h, hs) = (
  (λ e. let named : (q.id == i) ≡ true = ground arith in let both = h named in ground arith),
  selected_open k i ps hs,
)

awaits_open : (st : PlanStatus) → awaits_approval st ≡ true → is_open st ≡ true
awaits_open st h = ground arith

question_open : (st : PlanStatus) → awaits_question st ≡ true → is_open st ≡ true
question_open st h = ground arith

pub guard_ok :
    (b : Bool) (e : PlanError) (next : Result PlanError (Plan × Tables)) {r : Plan × Tables}
    → (if b then err e else next) ≡ ok r
    → next ≡ ok r
guard_ok true e next h = absurd (cc h)
guard_ok false e next h = h

module _ (s : Tables) (a : AreSingle s.plans) where
  pub ask-AreSingle :
      (now : ℕ) (k : String) (questions : Bool) (node_id run_id tool_call_id : Option String)
      {p : Plan} {s' : Tables}
      → ask_user_question now k questions node_id run_id tool_call_id s ≡ ok (p, s')
      → AreSingle s'.plans
  unfolding ask_user_question ask_question get_active_or_awaiting
  ask-AreSingle now k questions node_id run_id tool_call_id h =
      let (p, found, h') =
        with_open_ok (λ p. may_ask p.status) (get_active_or_awaiting k s) _
          (guard_ok (not questions) _ _ (guard_ok (k == "") _ _ h)) in
      change_plan-AreSingle k p.id (refers s.nodes k node_id && refers s.runs k run_id)
        (asked now node_id tool_call_id run_id) s a
        (open_fine k p.id (asked now node_id tool_call_id run_id) s.plans (λ q. (refl, refl))
          (selected_open k p.id s.plans (select-IsThat _ s.plans a found)))
        h'

  pub exit-AreSingle :
      (now : ℕ) (k : String) (node_id run_id : Option String) (tool_call_id : String) {p : Plan}
      {s' : Tables}
      → exit_plan_mode now k node_id run_id tool_call_id s ≡ ok (p, s')
      → AreSingle s'.plans
  unfolding exit_plan_mode await_approval get_active_or_awaiting
  exit-AreSingle now k node_id run_id tool_call_id h =
      let (p, found, h') =
        with_open_ok (λ p. may_exit p.status) (get_active_or_awaiting k s) _
          (guard_ok (tool_call_id == "") _ _ (guard_ok (k == "") _ _ h)) in
      change_plan-AreSingle k p.id (refers s.nodes k node_id && refers s.runs k run_id)
        (submitted now tool_call_id node_id run_id) s a
        (open_fine k p.id (submitted now tool_call_id node_id run_id) s.plans (λ q. (refl, refl))
          (selected_open k p.id s.plans (select-IsThat _ s.plans a found)))
        h'

  pub answer-AreSingle :
      (now : ℕ) (k plan_id : String) (answers : Bool) {p : Plan} {s' : Tables}
      → answer_plan_question now k plan_id answers s ≡ ok (p, s')
      → AreSingle s'.plans
  unfolding answer_plan_question answer_question
  answer-AreSingle now k plan_id answers h =
      let (p, found, takes, h') =
        with_plan_ok plan_id "plan must be awaiting question" (λ p. awaits_question p.status)
          (find_plan k plan_id s.plans) _ (guard_ok (not answers) _ _ h) in
      change_plan-AreSingle k plan_id true (answered now) s a
        (open_fine k plan_id (answered now) s.plans (λ q. (refl, refl))
          (find_plan_that (λ q. is_open q.status ≡ true) k plan_id s.plans a found
            (question_open p.status takes)))
        h'

  pub accept-AreSingle :
      (now : ℕ) (k plan_id : String) (run_id : Option String) {p : Plan} {s' : Tables}
      → approve now k plan_id run_id s ≡ ok (p, s')
      → AreSingle s'.plans
  unfolding approve approve_plan
  accept-AreSingle now k plan_id run_id h =
      let (p, found, takes, h') =
        with_plan_ok plan_id "plan must be awaiting approval" (λ p. awaits_approval p.status)
          (find_plan k plan_id s.plans) _ h in
      change_plan-AreSingle k plan_id (refers s.runs k run_id) (accepted now run_id) s a
        (open_fine k plan_id (accepted now run_id) s.plans (λ q. (refl, refl))
          (find_plan_that (λ q. is_open q.status ≡ true) k plan_id s.plans a found
            (awaits_open p.status takes)))
        h'

  pub refuse-AreSingle :
      (now : ℕ) (k plan_id : String) {p : Plan} {s' : Tables}
      → reject now k plan_id s ≡ ok (p, s')
      → AreSingle s'.plans
  unfolding reject reject_plan
  refuse-AreSingle now k plan_id h =
      let (p, found, takes, h') =
        with_plan_ok plan_id "plan must be awaiting approval" (λ p. awaits_approval p.status)
          (find_plan k plan_id s.plans) _ h in
      change_plan-AreSingle k plan_id true (declined now) s a
        (open_fine k plan_id (declined now) s.plans (λ q. (refl, refl))
          (find_plan_that (λ q. is_open q.status ≡ true) k plan_id s.plans a found
            (awaits_open p.status takes)))
        h'
