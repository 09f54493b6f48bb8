-- ===== src/Tasks/WellFormed/Runs.antt =====
-- The creation of a task and the runs of its steps, in
-- backend/core/persistence/task_repository.py, preserve the invariant.
use chat_tree.Prelude.{
  ℕ, ◌+◌, String, ◌≡◌, refl, sym, ap, subst, eq_iff, false, not, ◌&&◌, Option, none, some, List, [],
  ◌∷◌, ◌++◌, arith, inl, inr, Bool-cases, Option-cases, some-cancel, ne→eq_false, All, All-append,
  ok, >>=-ok, ok-injective, is_none, ltb, eqb,
}
use chat_tree.Dict.{Dict, get, insert}
use chat_tree.Chat.Conversation.{contains}
use chat_tree.Tasks.Types.{
  Step, Task, Binding, Tables, integrity_error, runtime_error, version_conflict,
}
use chat_tree.Tasks.Steps.{is_completed, find_step}
use chat_tree.Tasks.Queries.{
  binding_of, binding_of_run, require_version, found, ensure_no_active_binding, require_previous,
  get_active_task, TaskView, refers_to_run,
}
use chat_tree.Tasks.Changes.{
  prepared_steps, NewTask, build_task, is_new_generation, create_task, viewed, same_call,
}
use chat_tree.Tasks.Bindings.{BindingRequest, new_binding, is_revision, bind_run}
use chat_tree.Tasks.WellFormed.{
  IsBound, AreAlone, IsElsewhere, WellFormed, binding_of_absent, IsElsewhere-binding_of,
  insert_task-WellFormed,
}
use chat_tree.Tasks.WellFormed.Methods.{
  >>-ok, guarded, found_there, ensure_none, previous_true, require_version_there,
}

pub viewed_same :
    (v : Option TaskView) (s : Tables) {o : TaskView} {s' : Tables}
    → viewed v s ≡ ok (o, s')
    → s ≡ s'
viewed_same none s h = absurd (cc h)
viewed_same (some v) s h = ap (λ x. x.1) (ok-injective h)

no_task : (k : String) (s : Tables) → get_active_task k s ≡ none → get k s.tasks ≡ none
unfolding get_active_task
no_task k s h = elim (Option-cases (get k s.tasks)) [
  | inl e ↦ e
  | inr e ↦ absurd (cc (rw (e.1, get_active_task) at h))
]

-- No step of a new task is completed.
prepared_open :
    (now q : ℕ) (items : List (String × String)) (p : ℕ) {x : Step}
    → find_step p (prepared_steps now q items) ≡ some x
    → is_completed x ≡ false
unfolding find_step prepared_steps
prepared_open now q [] p h = absurd (cc h)
prepared_open now q ((title, detail) ∷ items) p {x} h = elim (Bool-cases (eqb q p)) [
  | inl e ↦ ap is_completed (sym (some-cancel (rw e at h)))
  | inr e ↦ prepared_open now (q + 1) items p (rw e at h)
]

absent-IsElsewhere :
    (k : String) (tasks : Dict Task) (bs : List Binding)
    → get k tasks ≡ none
    → All (IsBound tasks) bs
    → All (IsElsewhere k) bs
absent-IsElsewhere k tasks [] absent h = tt
absent-IsElsewhere k tasks (b ∷ bs) absent ((t, there, same, next), hs) = (
  ne→eq_false b.conversation_id k (λ p. cc (absent, there, ap (λ i. get i tasks) p)),
  absent-IsElsewhere k tasks bs absent hs,
)

created-WellFormed :
    (s : Tables) (generation : String) (now : ℕ) (k : String) (new : NewTask)
    → WellFormed s
    → get k s.tasks ≡ none
    → WellFormed (record s { tasks = insert k (build_task generation now k new) s.tasks })
unfolding build_task
created-WellFormed s generation now k new w absent =
    insert_task-WellFormed s k (build_task generation now k new) s.bindings w refl
      (λ p x h done. absurd (cc (done, prepared_open now 1 new.steps p h))) w.bound w.alone
      (absent-IsElsewhere k s.tasks s.bindings absent w.bound)

pub create_task-WellFormed :
    (s : Tables) (generation : String) (now : ℕ) (k : String) (new : NewTask) {o : TaskView}
    {s' : Tables}
    → WellFormed s
    → create_task generation now k new s ≡ ok (o, s')
    → WellFormed s'
unfolding create_task
create_task-WellFormed s generation now k new w h = elim (Option-cases (get_active_task k s)) [
  | inl e ↦
      let h' = rw (e, create_task) at h in
      let (fine, h'') =
        guarded
          (is_new_generation generation s.tasks
            && contains k s.conversations
            && refers_to_run new.created_by_run_id k s.runs)
          integrity_error _ h' in
      subst WellFormed (viewed_same _ _ h'')
        (created-WellFormed s generation now k new w (no_task k s e))
  | inr e ↦
      let h' = rw (e.1, create_task) at h in
      elim (Bool-cases (same_call new.created_by_tool_call_id e.0.task.created_by_tool_call_id)) [
        | inl c ↦ subst WellFormed (ap (λ x. x.1) (ok-injective (rw c at h'))) w
        | inr c ↦ absurd (cc (rw c at h'))
      ]
]

alone-append :
    (bs : List Binding) (b : Binding)
    → AreAlone bs
    → All (IsElsewhere b.conversation_id) bs
    → AreAlone (bs ++ b ∷ [])
unfolding binding_of
alone-append [] b a e = (refl, tt)
alone-append (c ∷ bs) b (h, a) (e, es) = (
  IsElsewhere-binding_of c.conversation_id (bs ++ b ∷ []) (
      All-append _ bs _ (binding_of_absent c.conversation_id bs h) (
        ne→eq_false b.conversation_id c.conversation_id
            (λ p. cc (e, (eq_iff c.conversation_id b.conversation_id).1 (sym p))),
        tt,
      )),
  alone-append bs b a es,
)

pub bind_run-WellFormed :
    (s : Tables) (run_id : String) (now : ℕ) (request : BindingRequest) {o : String × ℕ}
    {s' : Tables}
    → WellFormed s
    → bind_run run_id now request s ≡ ok (o, s')
    → WellFormed s'
unfolding bind_run
bind_run-WellFormed s run_id now request w h =
    let k = request.conversation_id in
    let (task, e, h₁) =
      >>=-ok (require_version k (some request.task_generation_id) request.base_revision s.tasks) _
        h in
    let (current_revision, h₂) =
      guarded (is_revision request.base_revision task.revision)
        (version_conflict task.generation_id task.revision) _ h₁ in
    let (current, f, h₃) = >>=-ok (found (find_step request.step_position task.steps)) _ h₂ in
    let (live, h₄) =
      guarded (not (is_completed current)) (runtime_error "task step is already completed") _ h₃ in
    let (before, h₅) = >>-ok (require_previous request.step_position task.steps) _ h₄ in
    let (free, h₆) = >>-ok (ensure_no_active_binding k s.bindings) _ h₅ in
    let (fine, h₇) =
      guarded
        (is_none (binding_of_run run_id s.bindings)
          && refers_to_run (some run_id) k s.runs
          && ltb 0 request.step_position)
        integrity_error _ h₆ in
    let there =
      require_version_there k (some request.task_generation_id) request.base_revision s.tasks e in
    subst WellFormed (ap (λ x. x.1) (ok-injective h₇)) (record {
      filed = w.filed;
      bound = All-append (IsBound s.tasks) s.bindings _ w.bound (
        (
          task,
          there,
          refl,
          (
            (current, found_there (find_step request.step_position task.steps) f, ground arith),
            previous_true request.step_position task.steps before.1,
          ),
        ),
        tt,
      );
      alone =
          alone-append s.bindings (new_binding run_id now request task) w.alone
            (binding_of_absent k s.bindings (ensure_none k s.bindings free.1));
    })
