-- ===== src/Tasks/Release.antt =====
-- What the end of a run does to the step that it is bound to, in
-- backend/core/persistence/task_repository.py.
use chat_tree.Prelude.{
  ℕ, ◌+◌, String, ◌≡◌, refl, sym, ap, ◌∙◌, subst, ◌==◌, eq_iff, true, ◌&&◌, Option, none, some, ◌⊎◌,
  inl, inr, Bool-cases,
}
use chat_tree.Dict.{get, insert, remove}
use chat_tree.Dict.Keys.{get-insert_self, get-remove_self}
use chat_tree.Tasks.Types.{Step, Task, Binding, Tables}
use chat_tree.Tasks.Steps.{find_step, all_steps_completed}
use chat_tree.Tasks.Queries.{binding_of, binding_of_run}
use chat_tree.Tasks.Changes.{delete_task, revised}
use chat_tree.Tasks.Bindings.{
  release, RunOutcome, outcome, decided, completes, or_released, next_status, evidence_text,
  finish_bound, finish_run_binding,
}
use chat_tree.Tasks.Ends.{
  IsEnd, IsLast, status_after, next_status-IsEnd, completes-IsLast, IsLast-completes,
}
use chat_tree.Tasks.Order.{find-update_self}
use chat_tree.Tasks.WellFormed.{IsBound, WellFormed, IsElsewhere-binding_of, All-unbound}
use chat_tree.Tasks.WellFormed.Finish.{
  found_binding, found_run, release-IsElsewhere, decided_position,
}

status_decided :
    (next : Option String) (run evidence : String) (now : ℕ) (x : Step)
    → (decided next run evidence now x).status ≡ status_after next x.status
status_decided none run evidence now x = refl
status_decided (some status) run evidence now x = refl

-- The task is gone exactly if the run has completed its last step; otherwise it is there, one
-- revision further, its step has the new status, and it is active.
abbrev pub IsSettled : String → String → ℕ → Task → String → String → Tables → Type 0
IsSettled terminal_status k p task new task_status s =
    (IsLast terminal_status p task.steps × (get k s.tasks ≡ none) × (task_status ≡ "completed"))
    ⊎ (¬ (IsLast terminal_status p task.steps)
        × (t : Task) × (y : Step) × (get k s.tasks ≡ some t)
        × (t.revision ≡ task.revision + 1)
        × (find_step p t.steps ≡ some y)
        × (y.status ≡ new)
        × (task_status ≡ "active"))

finish_bound_lem :
    (s : Tables) (now : ℕ) (b : Binding) (task : Task) (x : Step) (terminal_status : String)
    (error : Option String) (summary : String)
    → WellFormed s
    → binding_of_run b.run_id s.bindings ≡ some b
    → get b.conversation_id s.tasks ≡ some task
    → find_step b.step_position task.steps ≡ some x
    → let r = finish_bound now b task terminal_status error summary s in
      ((r.0.step ≡ b.step_position)
        × (r.0.run_status ≡ terminal_status)
        × (r.0.step_status ≡ or_released (next_status terminal_status)))
      × (binding_of b.conversation_id r.1.bindings ≡ none)
      × IsSettled terminal_status b.conversation_id b.step_position task
          (status_after (next_status terminal_status) x.status)
          r.0.task_status
          r.1
unfolding finish_bound outcome revised
finish_bound_lem s now b task x terminal_status error summary w found there here =
    let next = next_status terminal_status in
    let change = decided next b.run_id (evidence_text error summary terminal_status) now in
    let task' = revised b.step_position change now task in
    let named = (w.filed b.conversation_id task there).0 in
    let free = release-IsElsewhere b.run_id s.bindings w.alone found in
    elim (Bool-cases (completes next && all_steps_completed task'.steps)) [
      | inl e ↦ rw e (
        (refl, refl, refl),
        unfold delete_task in
            IsElsewhere-binding_of b.conversation_id _
              (All-unbound _ task' (release b.run_id s.bindings) free),
        inl (
          completes-IsLast terminal_status b.step_position change task.steps (unfold revised in e),
          unfold delete_task in
              (ap
                  (λ i.
                    get i (remove task.conversation_id (insert b.conversation_id task' s.tasks)))
                  (sym named)
                ∙ get-remove_self task.conversation_id (insert b.conversation_id task' s.tasks)),
          refl,
        ),
      )
      | inr e ↦ rw e (
        (refl, refl, refl),
        IsElsewhere-binding_of b.conversation_id (release b.run_id s.bindings) free,
        inr (
          (λ l. absurd (
              cc (
                e,
                IsLast-completes terminal_status b.step_position change task.steps
                    (λ y. status_decided next b.run_id _ now y) l,
              ))),
          task',
          change x,
          get-insert_self b.conversation_id task' s.tasks,
          refl,
          find-update_self b.step_position change task.steps (decided_position next b.run_id _ now)
              here,
          status_decided next b.run_id _ now x,
          refl,
        ),
      )
    ]

finish_run_binding_eq :
    (s : Tables) (now : ℕ) (b : Binding) (task : Task) (run_id terminal_status : String)
    (error : Option String) (summary : String)
    → binding_of_run run_id s.bindings ≡ some b
    → get b.conversation_id s.tasks ≡ some task
    → (task.generation_id == b.task_generation_id) ≡ true
    → finish_run_binding now run_id terminal_status error summary s ≡ (
      some (finish_bound now b task terminal_status error summary s).0,
      (finish_bound now b task terminal_status error summary s).1,
    )
unfolding finish_run_binding
finish_run_binding_eq s now b task run_id terminal_status error summary e f g =
    rw (e, finish_run_binding) (rw f (rw g refl))

-- In well-formed tables the end of a run with a binding always produces an outcome, which names the
-- step of the binding and the status of the run. If the run completed, the outcome says "completed"
-- and this is the new status of the step; if it failed, both are "blocked"; otherwise the outcome
-- says "released" and the status of the step is as it was. The conversation is bound no more. The
-- task is gone exactly if the run completed and all other steps are completed, and the outcome then
-- says that the task is completed; otherwise it says that the task is active, and the task is there
-- with one more revision and with the new status of the step.
pub finish_run_binding_lem :
    (s : Tables) (now : ℕ) (b : Binding) (run_id terminal_status : String) (error : Option String)
    (summary : String)
    → WellFormed s
    → binding_of_run run_id s.bindings ≡ some b
    → let after = finish_run_binding now run_id terminal_status error summary s in
      (o : RunOutcome) × (task : Task) × (x : Step) × (get b.conversation_id s.tasks ≡ some task)
      × (find_step b.step_position task.steps ≡ some x)
      × (after.0 ≡ some o)
      × (o.step ≡ b.step_position)
      × (o.run_status ≡ terminal_status)
      × (new : String) × IsEnd terminal_status x.status o.step_status new
      × (binding_of b.conversation_id after.1.bindings ≡ none)
      × IsSettled terminal_status b.conversation_id b.step_position task new o.task_status after.1
finish_run_binding_lem s now b run_id terminal_status error summary w found =
    let (task, there, gen, ((x, here, live), before)) =
      found_binding (IsBound s.tasks) run_id s.bindings w.bound found in
    let r = finish_bound now b task terminal_status error summary s in
    let eq =
      finish_run_binding_eq s now b task run_id terminal_status error summary found there
        ((eq_iff task.generation_id b.task_generation_id).1 gen) in
    let ((step, run, status), free, settled) =
      finish_bound_lem s now b task x terminal_status error summary w
        (ap (λ i. binding_of_run i s.bindings) (found_run run_id s.bindings found) ∙ found) there
        here in
    (
      r.0,
      task,
      x,
      there,
      here,
      ap (λ y. y.0) eq,
      step,
      run,
      status_after (next_status terminal_status) x.status,
      subst
          (λ reported.
            IsEnd terminal_status x.status reported
              (status_after (next_status terminal_status) x.status))
          (sym status) (next_status-IsEnd terminal_status x.status),
      ap (λ y. binding_of b.conversation_id y.1.bindings) eq ∙ free,
      subst
          (λ y.
            IsSettled terminal_status b.conversation_id b.step_position task
              (status_after (next_status terminal_status) x.status) r.0.task_status y.1)
          (sym eq) settled,
    )
