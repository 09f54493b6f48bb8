-- ===== src/Runs/Events.antt =====
-- The event log of backend/core/runs/repository.py. `str` of a value that is no text is an
-- argument of what calls it.
use chat_tree.Prelude.{
  ℕ, ◌+◌, String, none, some, List, [], ◌∷◌, ◌++◌, ok, err, length, drop, if◌then◌else◌,
}
use chat_tree.Dict.{Dict, get, insert, has}
use chat_tree.Json.{Value, string, nat, truthy, optional, get_value}
use chat_tree.Runs.Types.{Run, Event, key_error, Method}

-- d.setdefault(k, v)
unfoldable pub set_default : String → Value → Dict Value → Dict Value
set_default k v d = if has k d then d else insert k v d

-- The run after `appended`: unchanged where nothing is.
abbrev pub counted : Run → ℕ → List (ℕ × Dict Value) → Run
counted run total [] = run
counted run total ((created_at, source) ∷ []) = record run {
  event_count = total;
  updated_at = created_at;
}
counted run total (a ∷ b ∷ rest) = counted run total (b ∷ rest)

module _ (str : Value → String) where
  -- str(payload.get("type") or payload.get("event_type") or payload.get("status") or "event")
  unfoldable pub event_type_of : Dict Value → String
  event_type_of payload =
      if truthy (get_value "type" payload)
      then str (get_value "type" payload)
      else if truthy (get_value "event_type" payload)
      then str (get_value "event_type" payload)
      else if truthy (get_value "status" payload)
      then str (get_value "status" payload)
      else "event"

  unfoldable pub build_event : Run → String → ℕ → ℕ → Dict Value → Event
  unfolding event_type_of
  build_event run run_id index created_at source =
      let payload = insert "event_index" (nat index) (
        set_default "target_node_id" (optional run.target_node_id) (
          set_default "kind" (string run.kind) (
            set_default "conversation_id" (string run.conversation_id)
              (set_default "run_id" (string run_id) source)))) in
      record {
        id = index + 1;
        run_id = run_id;
        conversation_id = run.conversation_id;
        event_index = index;
        event_type = event_type_of payload;
        payload = payload;
        payload_inline = none;
        payload_blob_id = none;
        created_at = created_at;
      }

  -- The loop: `index` is `len(events)`. A source stands beside the reading of the clock for it.
  unfoldable pub build_events : Run → String → ℕ → List (ℕ × Dict Value) → List Event
  unfolding build_event
  build_events run run_id index [] = []
  build_events run run_id index ((created_at, source) ∷ rest) =
      build_event run run_id index created_at source ∷ build_events run run_id (index + 1) rest

  unfoldable pub append_events : String → List (ℕ × Dict Value) → Method (List Event)
  unfolding build_events
  append_events run_id sources s = elim (get run_id s.runs) [
    | none ↦ (err (key_error run_id), s)
    | some run ↦ elim (get run_id s.events) [
      | none ↦ (err (key_error run_id), s)
      | some events ↦
          (let appended = build_events run run_id (length events) sources in
            (
              ok appended,
              record s {
                runs = insert run_id (counted run (length (events ++ appended)) sources) s.runs;
                events = insert run_id (events ++ appended) s.events;
              },
            ))
    ]
  ]

-- The clamp of `max(0, int(from_event or 0))` is the identity on ℕ.
unfoldable pub read_events : String → ℕ → Method (List Event)
read_events run_id from_event s = elim (get run_id s.runs) [
  | none ↦ (err (key_error run_id), s)
  | some run ↦ elim (get run_id s.events) [
    | none ↦ (err (key_error run_id), s)
    | some events ↦ (ok (drop from_event events), s)
  ]
]
