-- ===== src/Runs/Finish.antt =====
-- The methods of backend/core/runs/repository.py that end a run, and its deletion.
use chat_tree.Prelude.{
  ℕ, String, ◌==◌, Bool, true, false, Option, none, some, [], ◌∷◌, ok, err, if◌then◌else◌,
}
use chat_tree.Dict.{Dict, get, insert, remove}
use chat_tree.Json.{Value, string, nat, optional}
use chat_tree.Runs.Types.{Run, key_error, Repository, Method, is_finished}
use chat_tree.Runs.Events.{append_events}

abbrev with_error : Option String → Dict Value → Dict Value
with_error none metadata = metadata
with_error (some error) metadata =
    if error == "" then metadata else insert "error" (string error) metadata

unfoldable pub finished_run : ℕ → String → Option String → Run → Run
finished_run finished_at status error run = record run {
  status = status;
  finished_at = some finished_at;
  updated_at = finished_at;
  metadata = with_error error run.metadata;
}

unfoldable pub finish_event : ℕ → String → Option String → Dict Value
finish_event finished_at status error =
    ("type", string "run_finished")
    ∷ ("status", string status)
    ∷ ("error", optional error)
    ∷ ("finished_at", nat finished_at)
    ∷ []

unfoldable pub stop_event : Dict Value
stop_event = ("type", string "run_stop_requested") ∷ ("status", string "stopping") ∷ []

module _ (str : Value → String) where
  -- What follows the lock in `finish_run`: the event, and the run read again, `{}` being no run.
  unfoldable pub announce_finish : String → ℕ → ℕ → String → Option String → Method (Option Run)
  announce_finish run_id finished_at event_at status error s =
      let (appended, s') =
        append_events str run_id ((event_at, finish_event finished_at status error) ∷ []) s in
      elim appended [ err e ↦ (err e, s') | ok events ↦ (ok (get run_id s'.runs), s') ]

  unfoldable pub finish_run : String → ℕ → ℕ → String → Option String → Method (Option Run)
  unfolding announce_finish finished_run finish_event
  finish_run run_id finished_at event_at status error s = elim (get run_id s.runs) [
    | none ↦ (err (key_error run_id), s)
    | some run ↦
        if is_finished run.status
        then (ok (some run), s)
        else announce_finish run_id finished_at event_at status error
            (record s { runs = insert run_id (finished_run finished_at status error run) s.runs })
  ]

  unfoldable pub announce_stop : String → ℕ → Method Bool
  unfolding stop_event
  announce_stop run_id event_at s =
      let (appended, s') = append_events str run_id ((event_at, stop_event) ∷ []) s in
      elim appended [ err e ↦ (err e, s') | ok events ↦ (ok true, s') ]

  unfoldable pub request_stop : String → ℕ → ℕ → Method Bool
  unfolding announce_stop
  request_stop run_id now event_at s = elim (get run_id s.runs) [
    | none ↦ (ok false, s)
    | some run ↦
        if is_finished run.status
        then (ok false, s)
        else announce_stop run_id event_at (record s {
          runs = insert run_id (record run { status = "stopping"; updated_at = now }) s.runs;
        })
  ]

abbrev pub unbind : Option String → Dict String → Dict String
unbind none d = d
unbind (some key) d = remove key d

-- `run is not None and run.get("idempotency_key") is not None`
abbrev pub key_of : Option Run → Option String
key_of none = none
key_of (some run) = run.idempotency_key

unfoldable pub delete_run : String → Repository → Repository
delete_run run_id s = record {
  runs = remove run_id s.runs;
  events = remove run_id s.events;
  idempotency = unbind (key_of (get run_id s.runs)) s.idempotency;
}
