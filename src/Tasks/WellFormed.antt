-- ===== src/Tasks/WellFormed.antt =====
-- The invariant of the tables of backend/core/persistence/task_repository.py.
pub mod Methods
pub mod Runs
pub mod Finish
use chat_tree.Prelude.{
  ℕ, String, ◌≡◌, ◌≢◌, refl, sym, ap, ◌∙◌, subst, ◌==◌, eq_iff, Bool, true, false, not, ◌&&◌,
  Option, none, some, List, [], ◌∷◌, ◌++◌, if◌then◌else◌, arith, ◌⊎◌, inl, inr, Bool-cases,
  Option-cases, some-cancel, ne→eq_false, All, All-append,
}
use chat_tree.Dict.{Dict, get, insert, remove}
use chat_tree.Dict.Keys.{get-insert_cases, get-insert_ne, get-remove_cases, get-remove_ne}
use chat_tree.Tasks.Types.{Step, Task, Binding, Tables}
use chat_tree.Tasks.Steps.{is_completed, find_step, previous_completed}
use chat_tree.Tasks.Queries.{binding_of, binding_of_run}
use chat_tree.Tasks.Changes.{unbound, delete_task}
use chat_tree.Tasks.Bindings.{release}
use chat_tree.Tasks.Order.{IsOrdered}

-- The step of a binding is there, is not completed, and all before it are.
abbrev pub IsNext : ℕ → List Step → Type 0
IsNext p steps =
    ((x : Step) × (find_step p steps ≡ some x) × (is_completed x ≡ false))
    × (previous_completed p steps ≡ true)

-- A binding leads to a task of its generation and to the next step of it.
abbrev pub IsBound : Dict Task → Binding → Type 0
IsBound tasks b =
    (t : Task) × (get b.conversation_id tasks ≡ some t)
    × (t.generation_id ≡ b.task_generation_id)
    × IsNext b.step_position t.steps

-- No conversation has two bindings.
abbrev pub AreAlone : List Binding → Type 0
AreAlone [] = Unit
AreAlone (b ∷ bs) = (binding_of b.conversation_id bs ≡ none) × AreAlone bs

pub record WellFormed (s : Tables) : Type 0 where
  pub filed :
      (k : String) (t : Task) → get k s.tasks ≡ some t → (t.conversation_id ≡ k) × IsOrdered t.steps
  pub bound : All (IsBound s.tasks) s.bindings
  pub alone : AreAlone s.bindings

abbrev pub IsElsewhere : String → Binding → Type 0
IsElsewhere k b = (b.conversation_id == k) ≡ false

pub binding_of_absent :
    (k : String) (bs : List Binding) → binding_of k bs ≡ none → All (IsElsewhere k) bs
unfolding binding_of
binding_of_absent k [] h = tt
binding_of_absent k (b ∷ bs) h = elim (Bool-cases (b.conversation_id == k)) [
  | inl e ↦ absurd (cc (rw e at h))
  | inr e ↦ (e, binding_of_absent k bs (rw e at h))
]

pub IsElsewhere-binding_of :
    (k : String) (bs : List Binding) → All (IsElsewhere k) bs → binding_of k bs ≡ none
unfolding binding_of
IsElsewhere-binding_of k [] h = refl
IsElsewhere-binding_of k (b ∷ bs) (e, rest) = rw e (IsElsewhere-binding_of k bs rest)

-- Bindings of other conversations do not see a change of the task.
elsewhere_bound :
    (k : String) (t : Task) (tasks : Dict Task) (bs : List Binding)
    → All (IsElsewhere k) bs
    → All (IsBound tasks) bs
    → All (IsBound (insert k t tasks)) bs
elsewhere_bound k t tasks [] e h = tt
elsewhere_bound k t tasks (b ∷ bs) (e, es) ((t', there, same, next), hs) = (
  (
    t',
    get-insert_ne k b.conversation_id t tasks (λ p. cc (e, (eq_iff b.conversation_id k).1 p))
        ∙ there,
    same,
    next,
  ),
  elsewhere_bound k t tasks bs es hs,
)

-- A task is added or changed that no binding leads to.
pub insert_task-WellFormed :
    (s : Tables) (k : String) (t : Task) (bs : List Binding)
    → WellFormed s
    → t.conversation_id ≡ k
    → IsOrdered t.steps
    → All (IsBound s.tasks) bs
    → AreAlone bs
    → All (IsElsewhere k) bs
    → WellFormed (record s { tasks = insert k t s.tasks; bindings = bs })
insert_task-WellFormed s k t bs w named ordered bound alone e = record {
  filed = λ j t' h. elim (get-insert_cases k j t t' s.tasks h) [
    | inl here ↦ (
      ap (λ (x : Task). x.conversation_id) here.1 ∙ named ∙ sym here.0,
      subst (λ (x : Task). IsOrdered x.steps) (sym here.1) ordered,
    )
    | inr there ↦ w.filed j t' there.1
  ];
  bound = elsewhere_bound k t s.tasks bs e bound;
  alone = alone;
}

pub All-unbound :
    (P : Binding → Type 0) (t : Task) (bs : List Binding) → All P bs → All P (unbound t bs)
unfolding unbound
All-unbound P t [] h = tt
All-unbound P t (b ∷ bs) (h, hs) =
    elim (Bool-cases
      (b.conversation_id == t.conversation_id && b.task_generation_id == t.generation_id)) [
        | inl e ↦ rw e (All-unbound P t bs hs)
        | inr e ↦ rw e (h, All-unbound P t bs hs)
      ]

unbound-AreAlone : (t : Task) (bs : List Binding) → AreAlone bs → AreAlone (unbound t bs)
unfolding unbound
unbound-AreAlone t [] h = tt
unbound-AreAlone t (b ∷ bs) (h, hs) =
    elim (Bool-cases
      (b.conversation_id == t.conversation_id && b.task_generation_id == t.generation_id)) [
        | inl e ↦ rw e (unbound-AreAlone t bs hs)
        | inr e ↦ rw e (
          IsElsewhere-binding_of b.conversation_id (unbound t bs)
              (All-unbound _ t bs (binding_of_absent b.conversation_id bs h)),
          unbound-AreAlone t bs hs,
        )
      ]

-- What is left leads to other tasks.
unbound-elsewhere :
    (t t' : Task) (tasks : Dict Task) (bs : List Binding)
    → get t.conversation_id tasks ≡ some t'
    → t'.generation_id ≡ t.generation_id
    → All (IsBound tasks) bs
    → All (IsBound (remove t.conversation_id tasks)) (unbound t bs)
unfolding unbound
unbound-elsewhere t t' tasks [] there gen h = tt
unbound-elsewhere t t' tasks (b ∷ bs) there gen ((u, at, same, next), hs) =
    elim (Bool-cases
      (b.conversation_id == t.conversation_id && b.task_generation_id == t.generation_id)) [
        | inl e ↦ rw e (unbound-elsewhere t t' tasks bs there gen hs)
        | inr e ↦ rw e (
          (u, get-remove_ne t.conversation_id b.conversation_id tasks (other e) ∙ at, same, next),
          unbound-elsewhere t t' tasks bs there gen hs,
        )
      ]
  where
    other :
        (b.conversation_id == t.conversation_id && b.task_generation_id == t.generation_id) ≡ false
        → b.conversation_id ≢ t.conversation_id
    other e p =
        let it : u ≡ t' = some-cancel (sym at ∙ ap (λ k. get k tasks) p ∙ there) in
        let one = (eq_iff b.conversation_id t.conversation_id).1 p in
        let two =
          (eq_iff b.task_generation_id t.generation_id).1
            (sym same ∙ ap (λ (x : Task). x.generation_id) it ∙ gen) in
        let e' : (true && true) ≡ false = rw (one, two) at e in cc e'

pub delete_task-WellFormed :
    (s : Tables) (t t' : Task)
    → WellFormed s
    → get t.conversation_id s.tasks ≡ some t'
    → t'.generation_id ≡ t.generation_id
    → WellFormed (delete_task t s)
unfolding delete_task
delete_task-WellFormed s t t' w there gen = record {
  filed = λ k u h. w.filed k u (get-remove_cases t.conversation_id k u s.tasks h).1;
  bound = unbound-elsewhere t t' s.tasks s.bindings there gen w.bound;
  alone = unbound-AreAlone t s.bindings w.alone;
}
