-- ===== src/Tasks/Versions.antt =====
-- The revisions of a task, in backend/core/persistence/task_repository.py.
use chat_tree.Prelude.{
  ℕ, ◌+◌, String, ◌≡◌, refl, sym, ap, ◌∙◌, ◌==◌, false, Option, some, some-cancel, List, All, arith,
  inr, Result, ok, err, is_ok, ◌>>=◌,
}
use chat_tree.Dict.{Dict, insert}
use chat_tree.Dict.Keys.{get-insert_self}
use chat_tree.Tasks.Types.{Step, Task, Tables, TaskError}
use chat_tree.Tasks.Steps.{set_result}
use chat_tree.Tasks.Queries.{check_version, require_version}
use chat_tree.Tasks.Changes.{StepOutcome, revised, set_step_result}
use chat_tree.Tasks.WellFormed.Methods.{set_step_result-Accepted}
use chat_tree.Tasks.Calls.{Call, perform_tasks}
use chat_tree.Tasks.Stale.{IsPast, IsOther, perform_tasks-IsPast, conclude-IsPast, IsPast-refused}

version_matched :
    (k : String) (generation : Option String) (n : ℕ) (tasks : Dict Task) {t : Task}
    → require_version k generation (some n) tasks ≡ ok t
    → t.revision ≡ n
unfolding require_version check_version
version_matched k generation n tasks h = ground arith

refused_first :
    {A B : Type 0} (m : Result TaskError A) (f : A → Result TaskError B)
    → is_ok m ≡ false
    → is_ok (m >>= f) ≡ false
refused_first (err e) f h = refl
refused_first (ok a) f h = absurd (cc h)

written-IsPast :
    (k generation : String) (n step : ℕ) (change : Step → Step) (now : ℕ) (task : Task)
    (tasks : Dict Task)
    → task.revision ≡ n
    → IsPast k generation n (insert k (revised step change now task) tasks)
unfolding revised
written-IsPast k generation n step change now task tasks e t h =
    let same : t ≡ revised step change now task =
      some-cancel (sym h ∙ get-insert_self k (revised step change now task) tasks) in
    let later : t.revision ≡ task.revision + 1 = ap (λ (x : Task). x.revision) same in
    inr (omega (arith, e, later))

set_step_result_refused :
    (s : Tables) (now : ℕ) (k : String) (step : ℕ) (status evidence : String)
    (run generation : Option String) (revision : Option ℕ)
    → is_ok (require_version k generation revision s.tasks) ≡ false
    → is_ok (set_step_result now k step status evidence run generation revision s) ≡ false
unfolding set_step_result
set_step_result_refused s now k step status evidence run generation revision h =
    refused_first (require_version k generation revision s.tasks) _ h

-- Once a result is set on a revision of a generation of a task, no other is
-- set on it: whatever calls are made in between, where a task that they create gets another
-- generation, a second result for this generation and this revision is refused.
pub set_step_result_once :
    (s : Tables) (now : ℕ) (k : String) (step : ℕ) (status evidence : String) (run : Option String)
    (generation : String) (n : ℕ) {o : StepOutcome} {s' : Tables} (calls : List Call)
    (now' step' : ℕ) (status' evidence' : String) (run' : Option String)
    → (generation == "") ≡ false
    → set_step_result now k step status evidence run (some generation) (some n) s ≡ ok (o, s')
    → All (IsOther k generation n) calls
    → is_ok (
        set_step_result now' k step' status' evidence' run'
          (some generation)
          (some n)
          (perform_tasks calls s'))
      ≡ false
set_step_result_once s now k step status evidence run generation n {o} {s'} calls now' step' status'
      evidence' run' named h others =
    let (task, a, h') =
      set_step_result-Accepted s now k step status evidence run (some generation) (some n) h in
    let change = set_result status run evidence now in
    let passed : IsPast k generation n (insert k (revised step change now task) s.tasks) =
      written-IsPast k generation n step change now task s.tasks
        (version_matched k (some generation) n s.tasks a.version) in
    let after = perform_tasks calls s' in
    set_step_result_refused after now' k step' status' evidence' run' (some generation) (some n) (
      IsPast-refused k generation n after.tasks named (
        perform_tasks-IsPast k generation n calls s' others
          (conclude-IsPast k generation n _ _ passed h')))
