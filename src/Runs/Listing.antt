-- ===== src/Runs/Listing.antt =====
-- `list_runs`, `list_active` and the interruption of unfinished runs at startup, of
-- backend/core/runs/repository.py.
use Prim.Native.String.{compare}
use text.Mathlib.Text.{is_le}
use chat_tree.Prelude.{
  ℕ, String, ◌==◌, Bool, true, not, ◌&&◌, ◌||◌, Option, none, some, List, [], ◌∷◌, map, Result, ok,
  err, if◌then◌else◌, ltb, eqb,
}
use chat_tree.Dict.{values}
use chat_tree.Json.{Value}
use chat_tree.Runs.Types.{Run, RepositoryError, Repository, Method, is_finished}
use chat_tree.Runs.Finish.{finish_run}

-- The order of the pairs (created_at, run_id).
unfoldable pub comes_first : Run → Run → Bool
comes_first a b =
    ltb a.created_at b.created_at
    || eqb a.created_at b.created_at && is_le (compare a.run_id b.run_id)

unfoldable pub insert_sorted : Run → List Run → List Run
insert_sorted run [] = run ∷ []
insert_sorted run (r ∷ rs) = if comes_first run r then run ∷ r ∷ rs else r ∷ insert_sorted run rs

-- sorted(runs, key=λ run. (run["created_at"], run["run_id"]))
unfoldable pub sorted_runs : List Run → List Run
unfolding insert_sorted comes_first
sorted_runs [] = []
sorted_runs (run ∷ runs) = insert_sorted run (sorted_runs runs)

abbrev in_conversation : Option String → Run → Bool
in_conversation none run = true
in_conversation (some conversation_id) run = run.conversation_id == conversation_id

abbrev pub keep : (Run → Bool) → List Run → List Run
keep p [] = []
keep p (run ∷ runs) = let rest = keep p runs in if p run then run ∷ rest else rest

unfoldable pub list_runs : Option String → Repository → List Run
unfolding sorted_runs
list_runs conversation_id s = sorted_runs (keep (in_conversation conversation_id) (values s.runs))

unfoldable pub list_active : Option String → Repository → List Run
unfolding list_runs
list_active conversation_id s =
    keep (λ run. not (is_finished run.status)) (list_runs conversation_id s)

-- What a round of the loop below returns, from what ending the run returned and left, and what the
-- later rounds did: a raise ends the loop.
abbrev pub after_finish :
    String
    → Result RepositoryError (Option Run)
    → Repository
    → Result RepositoryError (List String) × Repository
    → Result RepositoryError (List String) × Repository
after_finish run_id (err e) s' later = (err e, s')
after_finish run_id (ok run) s' (err e, s'') = (err e, s'')
after_finish run_id (ok run) s' (ok done, s'') = (ok (run_id ∷ done), s'')

module _ (str : Value → String) where
  -- The loop of `mark_unfinished_as_interrupted`; `times` holds the two clock readings of the end
  -- of each run.
  unfoldable pub interrupt_all : (String → ℕ × ℕ) → List String → Method (List String)
  interrupt_all times [] s = (ok [], s)
  interrupt_all times (run_id ∷ run_ids) s =
      let (r, s') =
        finish_run str run_id (times run_id).0 (times run_id).1 "interrupted"
          (some "interrupted on startup") s in
      after_finish run_id r s' (interrupt_all times run_ids s')

  unfoldable pub mark_unfinished_as_interrupted : (String → ℕ × ℕ) → Method (List String)
  unfolding interrupt_all
  mark_unfinished_as_interrupted times s =
      interrupt_all times (map (λ run. run.run_id) (list_active none s)) s
