-- ===== src/Tasks/Stale.antt =====
-- That a revision of a task, once passed, does not come back, in
-- backend/core/persistence/task_repository.py.
use chat_tree.Prelude.{
  ℕ, ◌+◌, ◌<◌, String, ◌≡◌, ◌≢◌, refl, sym, ap, ◌∙◌, subst, ◌==◌, Bool, false, not, ◌&&◌, Option,
  some, ◌⊎◌, inl, inr, Bool-cases, Option-cases, List, [], ◌∷◌, All, Result, ok, err, >>=-ok,
  ok-injective, arith, is_none, ltb, is_ok, ne→eq_false,
}
use chat_tree.Dict.{Dict, get, insert, remove}
use chat_tree.Dict.Keys.{get-insert_cases, get-remove_cases}
use chat_tree.Chat.Conversation.{contains}
use chat_tree.Tasks.Types.{Step, Task, Tables, TaskError, Binding, integrity_error, connect}
use chat_tree.Tasks.Steps.{is_completed, find_step, all_steps_completed, set_result}
use chat_tree.Tasks.Queries.{
  check_version, require_version, found, require_previous, ensure_no_active_binding, refers_to_run,
  binding_of_run, TaskView, get_active_task,
}
use chat_tree.Tasks.Changes.{
  NewTask, build_task, is_new_generation, same_call, create_task, delete_task, revised, conclude,
  StepOutcome, set_step_result, cancel_task,
}
use chat_tree.Tasks.Bindings.{
  BindingRequest, is_revision, bind_run, completes, decided, next_status, evidence_text,
  finish_bound, finish_run_binding,
}
use chat_tree.Tasks.WellFormed.Methods.{
  >>-ok, guarded, require_version_there, set_step_result-Accepted,
}
use chat_tree.Tasks.WellFormed.Runs.{viewed_same}
use chat_tree.Tasks.Calls.{
  Call, create, set_result_of, cancel, bind, finish, perform, perform_tasks,
}

module _ (k generation : String) (n : ℕ) where
  -- A task of the conversation is of another generation, or it is past the revision.
  abbrev pub IsPast : Dict Task → Type 0
  IsPast tasks =
      (t : Task) → get k tasks ≡ some t → (t.generation_id ≢ generation) ⊎ (n < t.revision)

  -- A call that creates a task gives it another generation.
  abbrev pub IsOther : Call → Type 0
  IsOther (create made now j new) = made ≢ generation
  IsOther (set_result_of now j step status evidence run g revision) = Unit
  IsOther (cancel j g revision) = Unit
  IsOther (bind run_id now request) = Unit
  IsOther (finish now run_id terminal_status error summary) = Unit

  -- A task that is written again one revision later.
  revised-IsPast :
      (j : String) (step : ℕ) (change : Step → Step) (now : ℕ) (task : Task) (tasks : Dict Task)
      → IsPast tasks
      → get j tasks ≡ some task
      → IsPast (insert j (revised step change now task) tasks)
  unfolding revised
  revised-IsPast j step change now task tasks p there t h =
      elim (get-insert_cases j k (revised step change now task) t tasks h) [
        | inl (same, e) ↦ elim (p task (ap (λ i. get i tasks) same ∙ there)) [
          | inl q ↦ inl (λ g. q (ap (λ (x : Task). x.generation_id) (sym e) ∙ g))
          | inr l ↦
              let later : t.revision ≡ task.revision + 1 = ap (λ (x : Task). x.revision) e in
              inr (omega arith)
        ]
        | inr (other, e) ↦ p t e
      ]

  remove-IsPast : (j : String) (tasks : Dict Task) → IsPast tasks → IsPast (remove j tasks)
  remove-IsPast j tasks p t h = p t (get-remove_cases j k t tasks h).1

  connect-IsPast :
      {A : Type 0} (r : Result TaskError (A × Tables)) (s : Tables)
      → IsPast s.tasks
      → ((a : A) (s' : Tables) → r ≡ ok (a, s') → IsPast s'.tasks)
      → IsPast (connect r s).1.tasks
  connect-IsPast (err e) s p h = p
  connect-IsPast (ok (a, s')) s p h = h a s' refl

  create_task-IsPast :
      (s : Tables) (made : String) (now : ℕ) (j : String) (new : NewTask) {o : TaskView}
      {s' : Tables}
      → made ≢ generation
      → IsPast s.tasks
      → create_task made now j new s ≡ ok (o, s')
      → IsPast s'.tasks
  unfolding create_task build_task
  create_task-IsPast s made now j new {o} {s'} f p h = elim (Option-cases (get_active_task j s)) [
    | inl e ↦
        let h' = rw (e, create_task) at h in
        let (fine, h'') =
          guarded
            (is_new_generation made s.tasks
              && contains j s.conversations
              && refers_to_run new.created_by_run_id j s.runs)
            integrity_error _ h' in
        subst (λ (x : Tables). IsPast x.tasks) (viewed_same _ _ h'')
          (λ t there. elim (get-insert_cases j k (build_task made now j new) t s.tasks there) [
            | inl (same, q) ↦ inl (λ g. f (ap (λ (x : Task). x.generation_id) (sym q) ∙ g))
            | inr (other, q) ↦ p t q
          ])
    | inr e ↦
        let h' = rw (e.1, create_task) at h in
        elim (Bool-cases (same_call new.created_by_tool_call_id e.0.task.created_by_tool_call_id)) [
          | inl c ↦
              subst (λ (x : Tables). IsPast x.tasks) (ap (λ x. x.1) (ok-injective (rw c at h'))) p
          | inr c ↦ absurd (cc (rw c at h'))
        ]
  ]

  pub conclude-IsPast :
      (s : Tables) (t : Task) {o : StepOutcome} {s' : Tables}
      → IsPast s.tasks
      → conclude t s ≡ ok (o, s')
      → IsPast s'.tasks
  unfolding conclude delete_task
  conclude-IsPast s t {o} {s'} p h = elim (Bool-cases (all_steps_completed t.steps)) [
    | inl e ↦
        subst (λ (x : Tables). IsPast x.tasks) (ap (λ x. x.1) (ok-injective (rw e at h)))
          (remove-IsPast t.conversation_id s.tasks p)
    | inr e ↦ subst (λ (x : Tables). IsPast x.tasks) (ap (λ x. x.1) (ok-injective (rw e at h))) p
  ]

  set_step_result-IsPast :
      (s : Tables) (now : ℕ) (j : String) (step : ℕ) (status evidence : String)
      (run g : Option String) (revision : Option ℕ) {o : StepOutcome} {s' : Tables}
      → IsPast s.tasks
      → set_step_result now j step status evidence run g revision s ≡ ok (o, s')
      → IsPast s'.tasks
  set_step_result-IsPast s now j step status evidence run g revision p h =
      let (task, a, h') = set_step_result-Accepted s now j step status evidence run g revision h in
      conclude-IsPast _ _
        (revised-IsPast j step (set_result status run evidence now) now task s.tasks p
          (require_version_there j g revision s.tasks a.version))
        h'

  cancel_task-IsPast :
      (s : Tables) (j : String) (g : Option String) (revision : Option ℕ) {o : Bool} {s' : Tables}
      → IsPast s.tasks
      → cancel_task j g revision s ≡ ok (o, s')
      → IsPast s'.tasks
  unfolding cancel_task delete_task
  cancel_task-IsPast s j g revision p h =
      let (task, e, h₁) = >>=-ok (require_version j g revision s.tasks) _ h in
      subst (λ (x : Tables). IsPast x.tasks) (ap (λ x. x.1) (ok-injective h₁))
        (remove-IsPast task.conversation_id s.tasks p)

  bind_run-IsPast :
      (s : Tables) (run_id : String) (now : ℕ) (request : BindingRequest) {o : String × ℕ}
      {s' : Tables}
      → IsPast s.tasks
      → bind_run run_id now request s ≡ ok (o, s')
      → IsPast s'.tasks
  unfolding bind_run
  bind_run-IsPast s run_id now request p h =
      let j = request.conversation_id in
      let (task, e, h₁) =
        >>=-ok (require_version j (some request.task_generation_id) request.base_revision s.tasks) _
          h in
      let (current_revision, h₂) =
        guarded (is_revision request.base_revision task.revision) _ _ h₁ in
      let (current, f, h₃) = >>=-ok (found (find_step request.step_position task.steps)) _ h₂ in
      let (live, h₄) = guarded (not (is_completed current)) _ _ h₃ in
      let (before, h₅) = >>-ok (require_previous request.step_position task.steps) _ h₄ in
      let (free, h₆) = >>-ok (ensure_no_active_binding j s.bindings) _ h₅ in
      let (fine, h₇) =
        guarded
          (is_none (binding_of_run run_id s.bindings)
            && refers_to_run (some run_id) j s.runs
            && ltb 0 request.step_position)
          integrity_error _ h₆ in
      subst (λ (x : Tables). IsPast x.tasks) (ap (λ x. x.1) (ok-injective h₇)) p

  finish_bound-IsPast :
      (s : Tables) (now : ℕ) (b : Binding) (task : Task) (terminal_status : String)
      (error : Option String) (summary : String)
      → IsPast s.tasks
      → get b.conversation_id s.tasks ≡ some task
      → IsPast (finish_bound now b task terminal_status error summary s).1.tasks
  unfolding finish_bound delete_task
  finish_bound-IsPast s now b task terminal_status error summary p there =
      let change =
        decided (next_status terminal_status) b.run_id (evidence_text error summary terminal_status)
          now in
      let task' = revised b.step_position change now task in
      let p' = revised-IsPast b.conversation_id b.step_position change now task s.tasks p there in
      elim (Bool-cases
        (completes (next_status terminal_status) && all_steps_completed task'.steps)) [
          | inl e ↦ rw e (remove-IsPast task'.conversation_id _ p')
          | inr e ↦ rw e p'
        ]

  finish_run_binding-IsPast :
      (s : Tables) (now : ℕ) (run_id terminal_status : String) (error : Option String)
      (summary : String)
      → IsPast s.tasks
      → IsPast (finish_run_binding now run_id terminal_status error summary s).1.tasks
  unfolding finish_run_binding
  finish_run_binding-IsPast s now run_id terminal_status error summary p =
      elim (Option-cases (binding_of_run run_id s.bindings)) [
        | inl e ↦ rw (e, finish_run_binding) p
        | inr (b, e) ↦ elim (Option-cases (get b.conversation_id s.tasks)) [
          | inl f ↦ rw (e, finish_run_binding) (rw f p)
          | inr (task, f) ↦ elim (Bool-cases (task.generation_id == b.task_generation_id)) [
            | inl g ↦
                rw (e, finish_run_binding)
                  (rw f (rw g (finish_bound-IsPast s now b task terminal_status error summary p f)))
            | inr g ↦ rw (e, finish_run_binding) (rw f (rw g p))
          ]
        ]
      ]

  perform-IsPast :
      (call : Call) (s : Tables) → IsOther call → IsPast s.tasks → IsPast (perform call s).tasks
  unfolding perform
  perform-IsPast (create made now j new) s f p =
      connect-IsPast _ s p (λ a s' h. create_task-IsPast s made now j new f p h)
  perform-IsPast (set_result_of now j step status evidence run g revision) s f p =
      connect-IsPast _ s p
        (λ a s' h. set_step_result-IsPast s now j step status evidence run g revision p h)
  perform-IsPast (cancel j g revision) s f p =
      connect-IsPast _ s p (λ a s' h. cancel_task-IsPast s j g revision p h)
  perform-IsPast (bind run_id now request) s f p =
      connect-IsPast _ s p (λ a s' h. bind_run-IsPast s run_id now request p h)
  perform-IsPast (finish now run_id terminal_status error summary) s f p =
      finish_run_binding-IsPast s now run_id terminal_status error summary p

  pub perform_tasks-IsPast :
      (calls : List Call) (s : Tables)
      → All IsOther calls
      → IsPast s.tasks
      → IsPast (perform_tasks calls s).tasks
  unfolding perform_tasks
  perform_tasks-IsPast [] s f p = p
  perform_tasks-IsPast (call ∷ calls) s (f, fs) p =
      perform_tasks-IsPast calls (perform call s) fs (perform-IsPast call s f p)

  -- Such a revision of the generation is refused.
  pub IsPast-refused :
      (tasks : Dict Task)
      → (generation == "") ≡ false
      → IsPast tasks
      → is_ok (require_version k (some generation) (some n) tasks) ≡ false
  unfolding require_version check_version
  IsPast-refused tasks named p = elim (Option-cases (get k tasks)) [
    | inl e ↦ rw (e, check_version) refl
    | inr (t, e) ↦ elim (p t e) [
      | inl other ↦
          let differs = ne→eq_false t.generation_id generation other in
          rw (e, check_version) (rw (differs, named) refl)
      | inr later ↦ rw (e, check_version) (ground arith)
    ]
  ]
