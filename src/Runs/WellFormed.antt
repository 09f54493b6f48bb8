-- ===== src/Runs/WellFormed.antt =====
-- The invariant of the repository of backend/core/runs/repository.py.
pub mod Preserved
pub mod Methods
pub mod Lifecycle
pub mod Deletion
use chat_tree.Prelude.{
  ℕ, suc, ◌+◌, String, ◌≡◌, refl, sym, ◌≢◌, ◌⊎◌, inl, inr, ◌==◌, eq_iff, eq_refl, Bool-cases,
  Option, none, some, List, [], ◌∷◌, ◌++◌, arith, true, false, length, length-append, subst, ap,
  ◌∙◌, some-cancel,
}
use chat_tree.Dict.{Dict, get, insert, remove}
use chat_tree.Dict.Keys.{
  IsUnique, insert-IsUnique, remove-IsUnique, get-insert_self, get-insert_ne, get-insert_cases,
  get-remove_cases, get-remove_ne,
}
use chat_tree.Runs.Types.{Run, Event, Repository, new_repository}

-- The events of a run carry its identifier and consecutive places from `n`.
abbrev pub NumberedFrom : String → ℕ → List Event → Type 0
NumberedFrom run_id n [] = Unit
NumberedFrom run_id n (e ∷ es) =
    ((e.run_id ≡ run_id) × (e.event_index ≡ n) × (e.id ≡ n + 1)) × NumberedFrom run_id (n + 1) es

-- A run is filed under its identifier, and its log is there, numbered from 0, as long as it says.
pub record IsLogged (events : Dict (List Event)) (run_id : String) (run : Run) : Type 0 where
  pub named : (run.id ≡ run_id) × (run.run_id ≡ run_id)
  pub log : List Event
  pub filed : get run_id events ≡ some log
  pub counted : run.event_count ≡ length log
  pub numbered : NumberedFrom run_id 0 log

pub record WellFormed (s : Repository) : Type 0 where
  pub logged :
      (run_id : String) (run : Run) → get run_id s.runs ≡ some run → IsLogged s.events run_id run
  -- An idempotency key leads to a run that carries it, and a run that carries one is found by it.
  pub bound :
      (key run_id : String)
      → get key s.idempotency ≡ some run_id
      → (run : Run) × (get run_id s.runs ≡ some run) × (run.idempotency_key ≡ some key)
  pub recorded :
      (run_id key : String) (run : Run)
      → get run_id s.runs ≡ some run
      → run.idempotency_key ≡ some key
      → get key s.idempotency ≡ some run_id
  -- There is no log of a run that is not there.
  pub owned : (run_id : String) → get run_id s.runs ≡ none → get run_id s.events ≡ none
  pub unique : IsUnique s.runs

NumberedFrom-append :
    (run_id : String) (n : ℕ) (xs ys : List Event)
    → NumberedFrom run_id n xs
    → NumberedFrom run_id (n + length xs) ys
    → NumberedFrom run_id n (xs ++ ys)
NumberedFrom-append run_id n [] ys hx hy = subst (λ m. NumberedFrom run_id m ys) (omega arith) hy
NumberedFrom-append run_id n (e ∷ xs) ys hx hy = (
  hx.0,
  NumberedFrom-append run_id (n + 1) xs ys hx.1
      (subst (λ m. NumberedFrom run_id m ys) (omega arith) hy),
)

pub NumberedFrom-append_log :
    (run_id : String) (xs ys : List Event)
    → NumberedFrom run_id 0 xs
    → NumberedFrom run_id (length xs) ys
    → NumberedFrom run_id 0 (xs ++ ys)
NumberedFrom-append_log run_id xs ys hx hy =
    NumberedFrom-append run_id 0 xs ys hx (subst (λ m. NumberedFrom run_id m ys) (omega arith) hy)

pub new_repository-WellFormed : WellFormed new_repository
unfolding new_repository get
new_repository-WellFormed = record {
  logged = λ k r h. absurd (cc h);
  bound = λ k r h. absurd (cc h);
  recorded = λ k j r h. absurd (cc h);
  owned = λ k h. refl;
  unique = tt;
}
