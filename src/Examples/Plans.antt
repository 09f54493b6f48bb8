-- ===== src/Examples/Plans.antt =====
-- Examples for the plans of conversations.
use chat_tree.Prelude.{String, ◌≡◌, refl, true, none, some, List, [], ◌∷◌, map}
use chat_tree.Plans.Types.{PlanStatus, active, approved, Tables, refers}
use chat_tree.Plans.Table.{
  find_plan, update_plan, change_plan, new_plan, create_plan, select_newest, get_active_or_awaiting,
  ask_question, await_approval, answer_question, approve_plan, is_newer,
}
use chat_tree.Plans.Ledger.{
  previous_mode, enter_plan_mode, with_open, with_plan, ask_user_question, exit_plan_mode,
  answer_plan_question, approve,
}
use chat_tree.Plans.Single.{AreSingle}
use chat_tree.Plans.Calls.{Call, enter, ask, exit, answer, accept, perform, perform_plans}
use chat_tree.Plans.Sequence.{perform_plans-AreSingle}
use chat_tree.Tools.Permissions.{normalize_permission_mode}

abbrev tables : Tables
tables = record {
  conversations = "c1" ∷ [];
  nodes = ("c1", "n1") ∷ [];
  runs = ("c1", "r1") ∷ [];
  plans = [];
}

abbrev calls : List Call
calls =
    enter "p1" 1 "c1" (some "n1") (some "plan") (some "r1")
    ∷ ask 2 "c1" true (some "n1") (some "r1") (some "t1")
    ∷ answer 3 "c1" "p1" true
    ∷ exit 4 "c1" (some "n1") (some "r1") "t2"
    ∷ accept 5 "c1" "p1" none
    ∷ enter "p2" 6 "c1" none none none
    ∷ enter "p3" 7 "c1" none none none
    ∷ []

perform_plans-AreSingle_example : AreSingle (perform_plans calls tables).plans
perform_plans-AreSingle_example = perform_plans-AreSingle calls tables tt

-- The first plan is approved, the second is open, and there is no third.
plans_after :
    map {B = String × PlanStatus} (λ p. (p.id, p.status)) (perform_plans calls tables).plans
    ≡ ("p1", approved) ∷ ("p2", active) ∷ []
unfolding perform_plans perform enter_plan_mode get_active_or_awaiting select_newest is_newer
    create_plan new_plan refers find_plan ask_user_question with_open ask_question change_plan
    update_plan answer_plan_question with_plan answer_question exit_plan_mode await_approval approve
    approve_plan
plans_after = refl

-- A plan entered from the plan mode goes back to the default of the modes.
plan_mode_left : previous_mode (some "plan_mode") ≡ "modify_only"
unfolding previous_mode normalize_permission_mode
plan_mode_left = refl
