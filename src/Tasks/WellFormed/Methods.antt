-- ===== src/Tasks/WellFormed/Methods.antt =====
-- The methods of backend/core/persistence/task_repository.py preserve the invariant.
use chat_tree.Prelude.{
  ℕ, String, ◌≡◌, refl, ap, ◌∙◌, subst, ◌==◌, Bool, true, false, not, ◌&&◌, ◌||◌, Option, none,
  some, List, arith, ◌⊎◌, inl, inr, Bool-cases, Result, ok, err, ◌>>◌, >>=-ok, ok-injective,
  is_none,
}
use chat_tree.Dict.{Dict, get, insert}
use chat_tree.Dict.Keys.{get-insert_self}
use chat_tree.Tasks.Types.{Step, Task, Binding, Tables, TaskError, integrity_error, value_error}
use chat_tree.Tasks.Steps.{
  is_completed, find_step, previous_completed, all_steps_completed, set_result,
}
use chat_tree.Tasks.Queries.{
  binding_of, check_version, require_version, guard, found, ensure_no_active_binding,
  require_previous, refers_to_run,
}
use chat_tree.Tasks.Changes.{
  conclude, StepOutcome, revised, is_step_status, set_step_result, cancel_task,
}
use chat_tree.Tasks.Order.{KeepsCompleted, update_step-IsOrdered}
use chat_tree.Tasks.WellFormed.{
  WellFormed, binding_of_absent, insert_task-WellFormed, delete_task-WellFormed,
}

pub guard_holds : (b : Bool) (e : TaskError) {u : Unit {0}} → guard b e ≡ ok u → b ≡ true
guard_holds true e h = refl
guard_holds false e h = absurd (cc h)

-- A sequence that returned passed its first step.
pub >>-ok :
    {A B : Type 0} (m : Result TaskError A) (next : Result TaskError B) {b : B}
    → (m >> next) ≡ ok b
    → ((a : A) × (m ≡ ok a)) × (next ≡ ok b)
>>-ok (ok a) next h = ((a, refl), h)
>>-ok (err e) next h = absurd (cc h)

pub guarded :
    {B : Type 0} (b : Bool) (e : TaskError) (next : Result TaskError B) {r : B}
    → (guard b e >> next) ≡ ok r
    → (b ≡ true) × (next ≡ ok r)
guarded true e next h = (refl, h)
guarded false e next h = absurd (cc h)

pub found_there : (o : Option Step) {x : Step} → found o ≡ ok x → o ≡ some x
found_there none h = absurd (cc h)
found_there (some y) h = cc

pub require_version_there :
    (k : String) (generation : Option String) (revision : Option ℕ) (tasks : Dict Task) {t : Task}
    → require_version k generation revision tasks ≡ ok t
    → get k tasks ≡ some t
unfolding require_version check_version
require_version_there k generation revision tasks h = ground arith

pub is_none_eq : {A : Type 0} (o : Option A) → is_none o ≡ true → o ≡ none
is_none_eq none h = refl
is_none_eq (some a) h = absurd (cc h)

pub ensure_none :
    (k : String) (bs : List Binding) {u : Unit {0}}
    → ensure_no_active_binding k bs ≡ ok u
    → binding_of k bs ≡ none
unfolding ensure_no_active_binding
ensure_none k bs h = is_none_eq (binding_of k bs) (guard_holds _ _ h)

pub previous_true :
    (p : ℕ) (steps : List Step) {u : Unit {0}}
    → require_previous p steps ≡ ok u
    → previous_completed p steps ≡ true
unfolding require_previous
previous_true p steps h = guard_holds _ _ h

conclude-WellFormed :
    (s : Tables) (t : Task) {o : StepOutcome} {s' : Tables}
    → WellFormed s
    → get t.conversation_id s.tasks ≡ some t
    → conclude t s ≡ ok (o, s')
    → WellFormed s'
unfolding conclude
conclude-WellFormed s t {o} {s'} w there h = elim (Bool-cases (all_steps_completed t.steps)) [
  | inl e ↦
      subst WellFormed (ap (λ x. x.1) (ok-injective (rw e at h)))
        (delete_task-WellFormed s t t w there refl)
  | inr e ↦ subst WellFormed (ap (λ x. x.1) (ok-injective (rw e at h))) w
]

-- A result may be set on a step that is not completed, or if it is completed by it.
may_set :
    (current : Step) (status : String) (run : Option String) (evidence : String) (now : ℕ)
    → (not (is_completed current) || status == "completed") ≡ true
    → (is_completed current ≡ false) ⊎ KeepsCompleted (set_result status run evidence now)
may_set current status run evidence now h = elim (Bool-cases (is_completed current)) [
  | inl e ↦ inr (λ x done. rw e at h)
  | inr e ↦ inl e
]

-- What a call that set a result found.
pub record Accepted (s : Tables) (k : String) (step : ℕ) (status : String)
    (generation : Option String) (revision : Option ℕ) (task : Task) : Type 0 where
  pub version : require_version k generation revision s.tasks ≡ ok task
  pub free : binding_of k s.bindings ≡ none
  pub current : Step
  pub there : find_step step task.steps ≡ some current
  pub before : previous_completed step task.steps ≡ true
  pub may : (not (is_completed current) || status == "completed") ≡ true

pub set_step_result-Accepted :
    (s : Tables) (now : ℕ) (k : String) (step : ℕ) (status evidence : String)
    (run generation : Option String) (revision : Option ℕ) {o : StepOutcome} {s' : Tables}
    → set_step_result now k step status evidence run generation revision s ≡ ok (o, s')
    → (task : Task) × Accepted s k step status generation revision task
      × (conclude (revised step (set_result status run evidence now) now task) (record s {
        tasks = insert k (revised step (set_result status run evidence now) now task) s.tasks;
      })
          ≡ ok (o, s'))
unfolding set_step_result
set_step_result-Accepted s now k step status evidence run generation revision h =
    let (task, e, h₁) = >>=-ok (require_version k generation revision s.tasks) _ h in
    let (free, h₂) = >>-ok (ensure_no_active_binding k s.bindings) _ h₁ in
    let (current, f, h₃) = >>=-ok (found (find_step step task.steps)) _ h₂ in
    let (before, h₄) = >>-ok (require_previous step task.steps) _ h₃ in
    let (may, h₅) =
      guarded (not (is_completed current) || status == "completed") value_error _ h₄ in
    let (checked, h₆) =
      guarded (is_step_status status && refers_to_run run k s.runs) integrity_error _ h₅ in
    (
      task,
      record {
        version = e;
        free = ensure_none k s.bindings free.1;
        current = current;
        there = found_there (find_step step task.steps) f;
        before = previous_true step task.steps before.1;
        may = may;
      },
      h₆,
    )

pub set_step_result-WellFormed :
    (s : Tables) (now : ℕ) (k : String) (step : ℕ) (status evidence : String)
    (run generation : Option String) (revision : Option ℕ) {o : StepOutcome} {s' : Tables}
    → WellFormed s
    → set_step_result now k step status evidence run generation revision s ≡ ok (o, s')
    → WellFormed s'
unfolding revised
set_step_result-WellFormed s now k step status evidence run generation revision w h =
    let (task, a, h') =
      set_step_result-Accepted s now k step status evidence run generation revision h in
    let filed = w.filed k task (require_version_there k generation revision s.tasks a.version) in
    let change = set_result status run evidence now in
    let task' = revised step change now task in
    conclude-WellFormed (record s { tasks = insert k task' s.tasks }) task'
      (insert_task-WellFormed s k task' s.bindings w filed.0
        (update_step-IsOrdered step change task.steps a.current (λ x. refl) filed.1 a.before a.there
          (may_set a.current status run evidence now a.may))
        w.bound w.alone (binding_of_absent k s.bindings a.free))
      (ap (λ i. get i (insert k task' s.tasks)) filed.0 ∙ get-insert_self k task' s.tasks) h'

pub cancel_task-WellFormed :
    (s : Tables) (k : String) (generation : Option String) (revision : Option ℕ) {o : Bool}
    {s' : Tables}
    → WellFormed s
    → cancel_task k generation revision s ≡ ok (o, s')
    → WellFormed s'
unfolding cancel_task
cancel_task-WellFormed s k generation revision w h =
    let (task, e, h₁) = >>=-ok (require_version k generation revision s.tasks) _ h in
    let there = require_version_there k generation revision s.tasks e in
    subst WellFormed (ap (λ x. x.1) (ok-injective h₁)) (
      delete_task-WellFormed s task task w
        (ap (λ i. get i s.tasks) (w.filed k task there).0 ∙ there) refl)
