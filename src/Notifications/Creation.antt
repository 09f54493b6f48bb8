-- ===== src/Notifications/Creation.antt =====
-- The creation of a notification of backend/core/notifications/task_notifications.py: by itself, and
-- from a run that finished. `str` is Python's, of a value, and `dumps` is `json.dumps`; the events of
-- the run, which the repository of runs reads, are their payloads.
use chat_tree.Prelude.{
  ℕ, String, ◌==◌, Bool, true, false, not, ◌||◌, Option, none, some, List, [], ◌∷◌, reverse,
  if◌then◌else◌, err, append_text,
}
use chat_tree.Dict.{get, insert}
use chat_tree.Json.{Value, null, string, object, Fields, no_field, field, truthy}
use chat_tree.Chat.Conversation.{contains}
use chat_tree.Tools.Matching.{codes, strip}
use chat_tree.Notifications.Types.{
  unbound, Notification, Tables, key_error, transition_error, integrity_error, has_run,
}
use chat_tree.Notifications.Delivery.{Outcome, get_notification}

pub record NewNotification : Type 0 where
  pub conversation_id : String
  pub source_run_id : String
  pub source_run_kind : String
  pub summary : String
  pub content : String

abbrev pub build_notification : String → ℕ → NewNotification → Notification
build_notification row_id now new = record {
  id = row_id;
  conversation_id = new.conversation_id;
  source_run_id = new.source_run_id;
  source_run_kind = new.source_run_kind;
  status = unbound;
  summary = new.summary;
  content = new.content;
  delivery_node_id = none;
  delivery_run_id = none;
  created_at = now;
  updated_at = now;
}

-- ON CONFLICT(conversation_id, id) DO UPDATE
abbrev pub renewed : ℕ → NewNotification → Notification → Notification
renewed now new n = record n {
  source_run_id = new.source_run_id;
  source_run_kind = new.source_run_kind;
  summary = new.summary;
  content = new.content;
  updated_at = now;
}

abbrev pub store : Notification → String → ℕ → NewNotification → Tables → Outcome
store n row_id now new s =
    get_notification new.conversation_id row_id
      (record s { notifications = insert row_id n s.notifications })

-- A row with this identifier may be one of another conversation, which the primary key forbids.
abbrev pub upsert : Option Notification → String → ℕ → NewNotification → Tables → Outcome
upsert none row_id now new s = store (build_notification row_id now new) row_id now new s
upsert (some n) row_id now new s =
    if not (n.conversation_id == new.conversation_id)
    then err integrity_error
    else if not (n.source_run_id == new.source_run_id)
    then err (transition_error "cannot change task notification source run")
    else store (renewed now new n) row_id now new s

unfoldable pub create : String → ℕ → NewNotification → Tables → Outcome
unfolding has_run get_notification
create row_id now new s =
    if not (has_run new.conversation_id new.source_run_id s.runs)
    then err (key_error new.source_run_id)
    else upsert (get row_id s.notifications) row_id now new s

-- d.get(k) on an object of JSON; the last assignment to a key is its value.
unfoldable pub field_of : String → Fields → Value
field_of k no_field = null
field_of k (field j v fs) = let later = field_of k fs in if j == k then v else later

-- v if isinstance(v, dict) else {}
abbrev pub fields_or_empty : Value → Fields
fields_or_empty (object fs) = fs
fields_or_empty _ = no_field

abbrev pub is_object : Value → Bool
is_object (object fs) = true
is_object _ = false

-- a or b
abbrev pub first_truthy : Value → Value → Value
first_truthy a b = if truthy a then a else b

abbrev pub terminal_event_types : List String
terminal_event_types =
    "subagent_result" ∷ "subagent_error" ∷ "workflow_result" ∷ "workflow_error"
    ∷ "workflow_cancelled" ∷ "command_exited" ∷ "command_stopped" ∷ "command_error" ∷ []

-- content.strip()
abbrev pub is_blank : String → Bool
is_blank s = elim (strip (codes s)) [ [] ↦ true | _ ∷ _ ↦ false ]

module _ (str : Value → String) (dumps : Value → String) where
  unfoldable pub last_terminal : List Value → Fields
  unfolding field_of truthy
  last_terminal [] = no_field
  last_terminal (event ∷ events) =
      let payload = fields_or_empty event in
      let rest = last_terminal events in
      let event_type = first_truthy (field_of "event_type" payload) (field_of "type" payload) in
      if is_object (field_of "terminal_result" payload)
      then fields_or_empty (field_of "terminal_result" payload)
      else if contains (str (first_truthy event_type (string ""))) terminal_event_types
      then payload
      else rest

  -- `_terminal_payload`
  unfoldable pub terminal_payload : List Value → Fields
  unfolding last_terminal
  terminal_payload events = last_terminal (reverse events)

  abbrev pub result_text : Value → String
  result_text null = ""
  result_text (string s) = s
  result_text v = dumps v

  abbrev pub error_or_result : Fields → String
  error_or_result payload =
      if truthy (field_of "error" payload)
      then str (field_of "error" payload)
      else result_text (field_of "result" payload)

  abbrev pub content_or : Value → Fields → String
  content_or (string s) payload = if is_blank s then error_or_result payload else s
  content_or _ payload = error_or_result payload

  -- `_notification_content`
  unfoldable pub notification_content : Fields → String
  unfolding field_of truthy strip
  notification_content payload = content_or (field_of "content" payload) payload

  -- str(v or "")
  abbrev pub text_or : Value → String → String
  text_or v other = if truthy v then str v else other

  abbrev pub is_delivered_kind : String → Bool
  is_delivered_kind kind = contains kind ("subagent" ∷ "workflow" ∷ "workflow_step" ∷ [])

  abbrev pub notification_of : Fields → Fields → String → List Value → NewNotification
  notification_of run metadata run_id events = record {
    conversation_id = text_or (field_of "conversation_id" run) "";
    source_run_id = run_id;
    source_run_kind = text_or (field_of "kind" run) "";
    summary =
        text_or (first_truthy (field_of "summary" run) (field_of "delegated_task" metadata))
          (text_or (field_of "kind" run) "");
    content = notification_content (terminal_payload events);
  }

  -- `none` where no notification is made.
  unfoldable pub create_from_finished_run : ℕ → Fields → List Value → Tables → Option Outcome
  unfolding create field_of truthy notification_content terminal_payload
  create_from_finished_run now run events s =
      let metadata = fields_or_empty (field_of "metadata" run) in
      let run_id = text_or (first_truthy (field_of "run_id" run) (field_of "id" run)) "" in
      if not (is_delivered_kind (text_or (field_of "kind" run) ""))
      then none
      else if not
          (contains (text_or (field_of "delivery_policy" metadata) "auto") ("auto" ∷ "notify" ∷ []))
      then none
      else if text_or (field_of "conversation_id" run) "" == "" || run_id == ""
      then none
      else some (
          create (append_text "task_notification_" run_id) now
            (notification_of run metadata run_id events) s)
