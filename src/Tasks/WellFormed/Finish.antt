-- ===== src/Tasks/WellFormed/Finish.antt =====
-- The end of a run that is bound to a step, in backend/core/persistence/task_repository.py,
-- preserves the invariant.
use chat_tree.Prelude.{
  ℕ, String, ◌≡◌, refl, sym, ap, ◌∙◌, subst, ◌==◌, eq_iff, ◌&&◌, Option, none, some, List, [], ◌∷◌,
  inl, inr, Bool-cases, Option-cases, some-cancel, ne→eq_false, All,
}
use chat_tree.Dict.{get, insert}
use chat_tree.Dict.Keys.{get-insert_self}
use chat_tree.Tasks.Types.{Task, Binding, Tables}
use chat_tree.Tasks.Steps.{find_step, previous_completed, all_steps_completed}
use chat_tree.Tasks.Queries.{binding_of_run, found}
use chat_tree.Tasks.Changes.{revised}
use chat_tree.Tasks.Bindings.{
  release, decided, completes, next_status, evidence_text, finish_bound, finish_run_binding,
}
use chat_tree.Tasks.Order.{KeepsPosition, update_step-IsOrdered}
use chat_tree.Tasks.WellFormed.{
  IsBound, AreAlone, IsElsewhere, WellFormed, binding_of_absent, IsElsewhere-binding_of,
  insert_task-WellFormed, delete_task-WellFormed,
}

pub All-release :
    (P : Binding → Type 0) (k : String) (bs : List Binding) → All P bs → All P (release k bs)
unfolding release
All-release P k [] h = tt
All-release P k (b ∷ bs) (h, hs) = elim (Bool-cases (b.run_id == k)) [
  | inl e ↦ rw e (All-release P k bs hs)
  | inr e ↦ rw e (h, All-release P k bs hs)
]

release-AreAlone : (k : String) (bs : List Binding) → AreAlone bs → AreAlone (release k bs)
unfolding release
release-AreAlone k [] h = tt
release-AreAlone k (b ∷ bs) (h, hs) = elim (Bool-cases (b.run_id == k)) [
  | inl e ↦ rw e (release-AreAlone k bs hs)
  | inr e ↦ rw e (
    IsElsewhere-binding_of b.conversation_id (release k bs)
        (All-release _ k bs (binding_of_absent b.conversation_id bs h)),
    release-AreAlone k bs hs,
  )
]

-- What holds of all bindings holds of the one that is found.
pub found_binding :
    (P : Binding → Type 0) (k : String) (bs : List Binding) {b : Binding}
    → All P bs
    → binding_of_run k bs ≡ some b
    → P b
unfolding binding_of_run
found_binding P k [] a h = absurd (cc h)
found_binding P k (c ∷ bs) (a, later) h = elim (Bool-cases (c.run_id == k)) [
  | inl e ↦ subst P (some-cancel (rw e at h)) a
  | inr e ↦ found_binding P k bs later (rw e at h)
]

-- Once the binding of a run is released, its conversation has none.
pub release-IsElsewhere :
    (k : String) (bs : List Binding) {b : Binding}
    → AreAlone bs
    → binding_of_run k bs ≡ some b
    → All (IsElsewhere b.conversation_id) (release k bs)
unfolding release binding_of_run
release-IsElsewhere k [] a h = absurd (cc h)
release-IsElsewhere k (c ∷ bs) {b} (a, later) h = elim (Bool-cases (c.run_id == k)) [
  | inl e ↦
      let same : c ≡ b = some-cancel (rw e at h) in
      rw e (
        subst (λ (x : Binding). All (IsElsewhere x.conversation_id) (release k bs)) same
          (All-release _ k bs (binding_of_absent c.conversation_id bs a)))
  | inr e ↦
      let other =
        found_binding (IsElsewhere c.conversation_id) k bs
          (binding_of_absent c.conversation_id bs a) (rw e at h) in
      rw e (
        ne→eq_false c.conversation_id b.conversation_id
            (λ p. cc (other, (eq_iff b.conversation_id c.conversation_id).1 (sym p))),
        release-IsElsewhere k bs later (rw e at h),
      )
]

pub decided_position :
    (next : Option String) (run evidence : String) (now : ℕ)
    → KeepsPosition (decided next run evidence now)
decided_position none run evidence now x = refl
decided_position (some status) run evidence now x = refl

finish_bound-WellFormed :
    (s : Tables) (now : ℕ) (b : Binding) (task : Task) (terminal_status : String)
    (error : Option String) (summary : String)
    → WellFormed s
    → binding_of_run b.run_id s.bindings ≡ some b
    → get b.conversation_id s.tasks ≡ some task
    → WellFormed (finish_bound now b task terminal_status error summary s).1
unfolding finish_bound revised
finish_bound-WellFormed s now b task terminal_status error summary w found there =
    let (t, at, gen, ((x, here, live), before)) =
      found_binding (IsBound s.tasks) b.run_id s.bindings w.bound found in
    let same : t ≡ task = some-cancel (sym at ∙ there) in
    let change =
      decided (next_status terminal_status) b.run_id (evidence_text error summary terminal_status)
        now in
    let filed = w.filed b.conversation_id task there in
    let task' = revised b.step_position change now task in
    let w' =
      insert_task-WellFormed s b.conversation_id task' (release b.run_id s.bindings) w filed.0
        (update_step-IsOrdered b.step_position change task.steps x
          (decided_position (next_status terminal_status) b.run_id _ now) filed.1
          (ap (λ (u : Task). previous_completed b.step_position u.steps) (sym same) ∙ before)
          (ap (λ (u : Task). find_step b.step_position u.steps) (sym same) ∙ here) (inl live))
        (All-release _ b.run_id s.bindings w.bound) (release-AreAlone b.run_id s.bindings w.alone)
        (release-IsElsewhere b.run_id s.bindings w.alone found) in
    elim (Bool-cases (completes (next_status terminal_status) && all_steps_completed task'.steps)) [
      | inl e ↦ rw e (
          delete_task-WellFormed _ task' task' w'
            (ap (λ i. get i (insert b.conversation_id task' s.tasks)) filed.0
              ∙ get-insert_self b.conversation_id task' s.tasks)
            refl)
      | inr e ↦ rw e w'
    ]

release-WellFormed :
    (s : Tables) (k : String)
    → WellFormed s
    → WellFormed (record s { bindings = release k s.bindings })
release-WellFormed s k w = record {
  filed = w.filed;
  bound = All-release _ k s.bindings w.bound;
  alone = release-AreAlone k s.bindings w.alone;
}

-- The binding that is found is that of the run.
pub found_run :
    (k : String) (bs : List Binding) {b : Binding} → binding_of_run k bs ≡ some b → b.run_id ≡ k
unfolding binding_of_run
found_run k [] h = absurd (cc h)
found_run k (c ∷ bs) h = elim (Bool-cases (c.run_id == k)) [
  | inl e ↦ ap (λ (x : Binding). x.run_id) (sym (some-cancel (rw e at h))) ∙ (eq_iff c.run_id k).0 e
  | inr e ↦ found_run k bs (rw e at h)
]

pub finish_run_binding-WellFormed :
    (s : Tables) (now : ℕ) (run_id terminal_status : String) (error : Option String)
    (summary : String)
    → WellFormed s
    → WellFormed (finish_run_binding now run_id terminal_status error summary s).1
unfolding finish_run_binding
finish_run_binding-WellFormed s now run_id terminal_status error summary w =
    elim (Option-cases (binding_of_run run_id s.bindings)) [
      | inl e ↦ rw (e, finish_run_binding) w
      | inr (b, e) ↦ elim (Option-cases (get b.conversation_id s.tasks)) [
        | inl f ↦ rw (e, finish_run_binding) (rw f (release-WellFormed s run_id w))
        | inr (task, f) ↦ elim (Bool-cases (task.generation_id == b.task_generation_id)) [
          | inl g ↦
              rw (e, finish_run_binding)
                (rw f (
                  rw g (
                    finish_bound-WellFormed s now b task terminal_status error summary w
                      (ap (λ i. binding_of_run i s.bindings) (found_run run_id s.bindings e) ∙ e)
                      f)))
          | inr g ↦ rw (e, finish_run_binding) (rw f (rw g (release-WellFormed s run_id w)))
        ]
      ]
    ]
