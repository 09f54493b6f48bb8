-- ===== src/Examples/Runs.antt =====
-- Examples for the repository of runs.
use chat_tree.Prelude.{
  ℕ, String, ◌≡◌, refl, true, false, none, some, List, [], ◌∷◌, map, ok, err, length, All, eq_iff,
  ◌==◌, if◌then◌else◌,
}
use chat_tree.Dict.{Dict, get, insert}
use chat_tree.Json.{Value, string}
use chat_tree.Runs.Types.{Run, Event, Repository, idempotency_conflict, new_repository, is_finished}
use chat_tree.Runs.Create.{NewRun, build_run, add_run, create_or_get_run}
use chat_tree.Runs.Events.{append_events, read_events}
use chat_tree.Runs.Finish.{finish_run, request_stop}
use chat_tree.Runs.Listing.{list_active, mark_unfinished_as_interrupted}
use chat_tree.Runs.WellFormed.{WellFormed, new_repository-WellFormed}
use chat_tree.Runs.WellFormed.Lifecycle.{create_or_get_run-WellFormed}
use chat_tree.Runs.Evolution.{Kept}
use chat_tree.Runs.Calls.{
  Call, create, append, finish, delete, perform_all, AreFresh, Spares, perform_all-WellFormed,
  perform_all-Kept,
}
use chat_tree.Runs.Idempotency.{started, start, create_or_get_run_retry, create_or_get_run_once}
use chat_tree.Runs.Replay.{read_events-append_events}
use chat_tree.Runs.Finishing.{IsOver, finish_run_first}
use chat_tree.Runs.Startup.{mark_unfinished_as_interrupted_lem}

abbrev str : Value → String
str (string s) = s
str _ = "value"

abbrev new_run : NewRun
new_run = record {
  kind = "chat";
  anchor_node_id = none;
  target_node_id = some "node";
  created_by_run_id = none;
  cancellation_parent_run_id = none;
  summary = "";
  metadata = [];
  task_binding = none;
}

abbrev sources : List (ℕ × Dict Value)
sources = (3, ("type", string "content") ∷ []) ∷ (4, ("status", string "idle") ∷ []) ∷ []

-- A repository with one run.
abbrev one_run : Run
one_run = build_run "r1" 1 "c1" (some "k1") (some "f1") new_run

abbrev one : Repository
one = (create_or_get_run "r1" 1 "c1" (some "k1") (some "f1") new_run new_repository).1

one-WellFormed : WellFormed one
unfolding get new_repository
one-WellFormed =
    create_or_get_run-WellFormed "r1" 1 "c1" (some "k1") (some "f1") new_run new_repository
      new_repository-WellFormed refl

one_there : get "r1" one.runs ≡ some one_run
unfolding get insert new_repository create_or_get_run add_run build_run
one_there = refl

abbrev calls : List Call
calls =
    create "r2" 2 "c1" none none new_run
    ∷ append "r1" sources
    ∷ finish "r1" 5 6 "completed" none
    ∷ delete "r2"
    ∷ []

calls-AreFresh : AreFresh str calls one
unfolding get insert new_repository create_or_get_run add_run build_run
calls-AreFresh = (refl, (tt, (tt, (tt, tt))))

calls-Spares : Spares str "r1" calls
calls-Spares = ((λ h. cc ((eq_iff "r1" "r2").1 h)), tt)

perform_all-WellFormed_example : WellFormed (perform_all str calls one)
perform_all-WellFormed_example = perform_all-WellFormed str calls one one-WellFormed calls-AreFresh

perform_all-Kept_example : Kept "r1" one (perform_all str calls one)
perform_all-Kept_example =
    perform_all-Kept str "r1" calls one one-WellFormed calls-AreFresh calls-Spares

once-AreFresh :
    AreFresh str (start "r1" 1 "c1" "k1" "f1" new_run ∷ append "r1" sources ∷ []) new_repository
unfolding get new_repository
once-AreFresh = (refl, (tt, tt))

create_or_get_run_once_example :
    ((create_or_get_run "r1" 1 "c1" (some "k1") (some "f1") new_run new_repository).0
      ≡ ok (started "r1" 1 "c1" "k1" "f1" new_run, true))
    × ((run : Run) × (run.run_id ≡ "r1")
        × (create_or_get_run "r9" 9 "c2" (some "k1") (some "f1") new_run (
              perform_all str
                (start "r1" 1 "c1" "k1" "f1" new_run ∷ append "r1" sources ∷ [])
                new_repository)
            ≡ (
              ok (run, false),
              perform_all str
                  (start "r1" 1 "c1" "k1" "f1" new_run ∷ append "r1" sources ∷ [])
                  new_repository,
            )))
unfolding get new_repository
create_or_get_run_once_example =
    create_or_get_run_once "r1" 1 "c1" "k1" "f1" new_run str new_repository
      (append "r1" sources ∷ []) "r9" 9 "c2" new_run new_repository-WellFormed refl refl
      once-AreFresh tt

create_or_get_run_retry_example :
    create_or_get_run "r9" 9 "c2" (some "k1") (some "f2") new_run one
    ≡ ((if "f1" == "f2" then ok (one_run, false) else err (idempotency_conflict "r1")), one)
unfolding build_run
create_or_get_run_retry_example =
    create_or_get_run_retry one "r1" "k1" "f1" "f2" one_run "r9" 9 "c2" new_run one-WellFormed
      one_there refl refl

read_events-append_events_example :
    (appended : List Event) × ((append_events str "r1" sources one).0 ≡ ok appended)
    × (read_events "r1" one_run.event_count (append_events str "r1" sources one).1
        ≡ (ok appended, (append_events str "r1" sources one).1))
    × (length appended ≡ length sources)
read_events-append_events_example =
    read_events-append_events str one "r1" one_run sources one-WellFormed one_there

finish_run_first_example :
    (run' : Run) × ((finish_run str "r1" 5 6 "failed" (some "e") one).0 ≡ ok (some run'))
    × (get "r1" (finish_run str "r1" 5 6 "failed" (some "e") one).1.runs ≡ some run')
    × (run'.status ≡ (if is_finished one_run.status then one_run.status else "failed"))
    × (run'.finished_at ≡ (if is_finished one_run.status then one_run.finished_at else some 5))
finish_run_first_example =
    finish_run_first str one "r1" one_run 5 6 "failed" (some "e") one-WellFormed one_there

abbrev times : String → ℕ × ℕ
times run_id = (7, 8)

mark_unfinished_as_interrupted_example :
    ((mark_unfinished_as_interrupted str times one).0
      ≡ ok (map (λ r. r.run_id) (list_active none one)))
    × All
        (IsOver (mark_unfinished_as_interrupted str times one).1)
        (map (λ r. r.run_id) (list_active none one))
    × (list_active none (mark_unfinished_as_interrupted str times one).1 ≡ [])
mark_unfinished_as_interrupted_example =
    mark_unfinished_as_interrupted_lem str times one one-WellFormed

-- A run that is over is neither stopped nor finished again.
request_stop_over :
    (request_stop str "r1" 9 9 (finish_run str "r1" 5 6 "completed" none one).1).0 ≡ ok false
unfolding get insert new_repository create_or_get_run add_run build_run finish_run append_events
    request_stop is_finished
request_stop_over = refl
