-- ===== src/Runs/Replay.antt =====
-- Resuming the event log of a run, in backend/core/runs/repository.py.
use chat_tree.Prelude.{ℕ, String, ◌≡◌, refl, ◌∙◌, some, List, ok, length, drop, drop-length_append}
use chat_tree.Dict.{Dict, get}
use chat_tree.Dict.Keys.{get-insert_self}
use chat_tree.Json.{Value}
use chat_tree.Runs.Types.{Run, Event, Repository}
use chat_tree.Runs.Events.{build_events, append_events, read_events}
use chat_tree.Runs.WellFormed.{WellFormed}
use chat_tree.Runs.WellFormed.Methods.{length-build_events}

read_events_filed :
    (s : Repository) (run_id : String) (n : ℕ) {run : Run} {log : List Event}
    → get run_id s.runs ≡ some run
    → get run_id s.events ≡ some log
    → read_events run_id n s ≡ (ok (drop n log), s)
unfolding read_events
read_events_filed s run_id n there filed = rw (there, read_events) (rw filed refl)

module _ (str : Value → String) where
  -- Appending to a run that is there, in a well-formed repository, succeeds, and a reader who had
  -- read all its events gets exactly the appended ones, in order, by reading on from the old
  -- count; one event for each payload.
  pub read_events-append_events :
      (s : Repository) (run_id : String) (run : Run) (sources : List (ℕ × Dict Value))
      → WellFormed s
      → get run_id s.runs ≡ some run
      → let s' = (append_events str run_id sources s).1 in
        (appended : List Event) × ((append_events str run_id sources s).0 ≡ ok appended)
        × (read_events run_id run.event_count s' ≡ (ok appended, s'))
        × (length appended ≡ length sources)
  unfolding append_events
  read_events-append_events s run_id run sources w there =
      let l = w.logged run_id run there in
      let appended = build_events str run run_id (length l.log) sources in
      (
        appended,
        rw (there, append_events) (rw l.filed refl),
        rw (there, append_events)
            (rw l.filed (
              read_events_filed _ run_id run.event_count (get-insert_self run_id _ s.runs)
                (get-insert_self run_id _ s.events)
              ∙ rw l.counted (rw drop-length_append refl))),
        length-build_events str run run_id (length l.log) sources,
      )
