-- ===== src/Plans/Sequence.antt =====
-- Any sequence of calls of backend/core/plans/ledger.py.
use chat_tree.Prelude.{
  arith, ℕ, String, ◌≡◌, refl, sym, ap, subst, ◌==◌, eq_iff, true, false, ◌&&◌, Option, none, some,
  List, [], ◌∷◌, ◌++◌, Bool-cases, Option-cases, inl, inr, All, Result, ok, >>=-ok, ok-injective,
  ne→eq_false,
}
use chat_tree.Chat.Conversation.{contains}
use chat_tree.Plans.Types.{Plan, Tables, PlanError, refers, is_open, is_approved}
use chat_tree.Plans.Table.{
  is_new_id, is_plan, find_plan, new_plan, with_run, create_plan, get_active_or_awaiting,
  if_approved, update_approved_run_id,
}
use chat_tree.Plans.Ledger.{previous_mode, created, enter_plan_mode}
use chat_tree.Plans.Single.{IsOther, AreSingle, IsWeaker, select_none, change_plan-AreSingle}
use chat_tree.Plans.Calls.{
  Call, enter, ask, exit, answer, accept, set_run, refuse, perform, perform_plans, left-AreSingle,
  guard_ok, ask-AreSingle, exit-AreSingle, answer-AreSingle, accept-AreSingle, refuse-AreSingle,
}

-- Setting the run leaves the status.
same_status :
    (k i : String) (now : ℕ) (run_id : Option String) (ps : List Plan)
    → All (λ q. is_plan k i q ≡ true → IsWeaker (with_run now run_id q) q) ps
same_status k i now run_id [] = tt
same_status k i now run_id (q ∷ ps) = ((λ e. (refl, refl, λ h. h)), same_status k i now run_id ps)

if_approved_ok :
    (i : String) (o : Option Plan) (next : Result PlanError (Plan × Tables)) {r : Plan × Tables}
    → if_approved i o next ≡ ok r
    → next ≡ ok r
if_approved_ok i none next h = absurd (cc h)
if_approved_ok i (some p) next h = elim (Bool-cases (is_approved p.status)) [
  | inl e ↦ rw e at h
  | inr e ↦ absurd (cc (rw e at h))
]

set_run-AreSingle :
    (s : Tables) (now : ℕ) (k plan_id : String) (run_id : Option String) {p : Plan} {s' : Tables}
    → AreSingle s.plans
    → update_approved_run_id now k plan_id run_id s ≡ ok (p, s')
    → AreSingle s'.plans
unfolding update_approved_run_id
set_run-AreSingle s now k plan_id run_id a h =
    change_plan-AreSingle k plan_id (refers s.runs k run_id) (with_run now run_id) s a
      (same_status k plan_id now run_id s.plans)
      (if_approved_ok plan_id (find_plan k plan_id s.plans) _ h)

All-append-IsOther :
    (ps : List Plan) (p new : Plan)
    → All (IsOther p) ps
    → IsOther p new
    → All (IsOther p) (ps ++ new ∷ [])
All-append-IsOther [] p new h o = (o, tt)
All-append-IsOther (q ∷ ps) p new (h, hs) o = (h, All-append-IsOther ps p new hs o)

append-AreSingle :
    (ps : List Plan) (new : Plan)
    → AreSingle ps
    → All (λ p. (p.id == new.id) ≡ false) ps
    → All (λ p. (p.conversation_id == new.conversation_id && is_open p.status) ≡ false) ps
    → AreSingle (ps ++ new ∷ [])
append-AreSingle [] new a f g = (tt, tt)
append-AreSingle (p ∷ ps) new (o, a) (f, fs) (g, gs) = (
  All-append-IsOther ps p new o (
    ne→eq_false new.id p.id (λ e. cc (f, (eq_iff p.id new.id).1 (sym e))),
    λ was e.
        let same : (p.conversation_id == new.conversation_id) ≡ true =
          (eq_iff p.conversation_id new.conversation_id).1
            (sym ((eq_iff new.conversation_id p.conversation_id).0 e)) in
        absurd (cc (sym (rw (same, was) at g))),
  ),
  append-AreSingle ps new a fs gs,
)

created_same :
    (i : String) (o : Option Plan) (s : Tables) {p : Plan} {s' : Tables}
    → created i o s ≡ ok (p, s')
    → s ≡ s'
created_same i none s h = absurd (cc h)
created_same i (some q) s h = ap (λ x. x.1) (ok-injective h)

-- What the primary key refuses.
new_id_differs :
    (i : String) (ps : List Plan) → is_new_id i ps ≡ true → All (λ p. (p.id == i) ≡ false) ps
new_id_differs i [] h = tt
new_id_differs i (p ∷ ps) h = elim (Bool-cases (p.id == i)) [
  | inl e ↦ absurd (cc (rw e at h))
  | inr e ↦ (e, new_id_differs i ps (rw e at h))
]

create_plan-AreSingle :
    (s : Tables) (plan_id : String) (now : ℕ) (k : String) (node_id : Option String) (mode : String)
    (run_id : Option String) {s' : Tables}
    → AreSingle s.plans
    → All (λ p. (p.conversation_id == k && is_open p.status) ≡ false) s.plans
    → create_plan plan_id now k node_id mode run_id s ≡ ok s'
    → AreSingle s'.plans
unfolding create_plan new_plan
create_plan-AreSingle s plan_id now k node_id mode run_id a shut h =
    elim (Bool-cases (
      is_new_id plan_id s.plans
      && contains k s.conversations
      && refers s.nodes k node_id
      && refers s.runs k run_id)) [
        | inl e ↦
            let fresh = new_id_differs plan_id s.plans (ground arith) in
            subst (λ (x : Tables). AreSingle x.plans) (ok-injective (rw e at h))
              (append-AreSingle s.plans (new_plan plan_id now k node_id mode run_id) a fresh shut)
        | inr e ↦ absurd (cc (rw e at h))
      ]

enter-AreSingle :
    (s : Tables) (plan_id : String) (now : ℕ) (k : String) (node_id mode run_id : Option String)
    {p : Plan} {s' : Tables}
    → AreSingle s.plans
    → enter_plan_mode plan_id now k node_id mode run_id s ≡ ok (p, s')
    → AreSingle s'.plans
unfolding enter_plan_mode get_active_or_awaiting
enter-AreSingle s plan_id now k node_id mode run_id a h =
    let h' = guard_ok (k == "") _ _ h in
    elim (Option-cases (get_active_or_awaiting k s)) [
      | inl e ↦
          let (s₁, c, h'') =
            >>=-ok (create_plan plan_id now k node_id (previous_mode mode) run_id s) _
              (rw e at h') in
          subst (λ (x : Tables). AreSingle x.plans) (created_same plan_id _ s₁ h'')
            (create_plan-AreSingle s plan_id now k node_id (previous_mode mode) run_id a
              (select_none (λ p. p.conversation_id == k && is_open p.status) s.plans e) c)
      | inr (q, e) ↦
          subst (λ (x : Tables). AreSingle x.plans) (ap (λ x. x.1) (ok-injective (rw e at h'))) a
    ]

perform-AreSingle :
    (call : Call) (s : Tables) → AreSingle s.plans → AreSingle (perform call s).plans
unfolding perform
perform-AreSingle (enter plan_id now k node_id mode run_id) s a =
    left-AreSingle _ s a (λ p s' h. enter-AreSingle s plan_id now k node_id mode run_id a h)
perform-AreSingle (ask now k questions node_id run_id tool_call_id) s a =
    left-AreSingle _ s a (λ p s' h. ask-AreSingle s a now k questions node_id run_id tool_call_id h)
perform-AreSingle (exit now k node_id run_id tool_call_id) s a =
    left-AreSingle _ s a (λ p s' h. exit-AreSingle s a now k node_id run_id tool_call_id h)
perform-AreSingle (answer now k plan_id answers) s a =
    left-AreSingle _ s a (λ p s' h. answer-AreSingle s a now k plan_id answers h)
perform-AreSingle (accept now k plan_id run_id) s a =
    left-AreSingle _ s a (λ p s' h. accept-AreSingle s a now k plan_id run_id h)
perform-AreSingle (set_run now k plan_id run_id) s a =
    left-AreSingle _ s a (λ p s' h. set_run-AreSingle s now k plan_id run_id a h)
perform-AreSingle (refuse now k plan_id) s a =
    left-AreSingle _ s a (λ p s' h. refuse-AreSingle s a now k plan_id h)

-- Whatever calls are made from tables of which this holds: the identifiers of plans are distinct, and a conversation has at most one plan that
-- is active or awaits an answer or an approval.
pub perform_plans-AreSingle :
    (calls : List Call) (s : Tables) → AreSingle s.plans → AreSingle (perform_plans calls s).plans
unfolding perform_plans
perform_plans-AreSingle [] s a = a
perform_plans-AreSingle (call ∷ calls) s a =
    perform_plans-AreSingle calls (perform call s) (perform-AreSingle call s a)
