-- ===== src/Examples/Notifications.antt =====
-- Examples for notifications: one of a workflow that finished is delivered.
use chat_tree.Prelude.{String, ◌≡◌, refl, true, none, some, List, [], ◌∷◌}
use chat_tree.Dict.{get}
use chat_tree.Json.{Value, string, object, Fields, no_field, field, truthy}
use chat_tree.Notifications.Types.{
  unbound, delivered, delivery_cancelled, Notification, RunRow, Tables, has_run, has_node,
}
use chat_tree.Notifications.Delivery.{with_status}
use chat_tree.Notifications.Creation.{
  field_of, last_terminal, terminal_payload, notification_content,
}
use chat_tree.Notifications.Moves.{IsLater}
use chat_tree.Notifications.Calls.{
  Call, bind_to, start_with, deliver, perform_notifications, perform_notifications-IsLater,
}
use chat_tree.Notifications.Ends.{IsOver, delivered_once}
use chat_tree.Notifications.Progress.{delivery-progress}
use chat_tree.Tools.Matching.{strip, skip_spaces}

abbrev notification : Notification
notification = record {
  id = "task_notification_r1";
  conversation_id = "c1";
  source_run_id = "r1";
  source_run_kind = "workflow";
  status = unbound;
  summary = "workflow";
  content = "two files changed";
  delivery_node_id = none;
  delivery_run_id = none;
  created_at = 5;
  updated_at = 5;
}

abbrev run_row : RunRow
run_row = record {
  conversation_id = "c1";
  kind = "workflow";
  anchor_node_id = some "n1";
  target_node_id = none;
}

abbrev empty : Tables
empty = record {
  runs = ("r1", run_row) ∷ ("r2", run_row) ∷ [];
  nodes = ("c1", "n1") ∷ [];
  notifications = [];
}

abbrev tables : Tables
tables = record empty { notifications = ("task_notification_r1", notification) ∷ [] }

abbrev calls : List Call
calls =
    bind_to 6 "c1" "task_notification_r1" "n1"
    ∷ start_with 7 "c1" "task_notification_r1" "r2"
    ∷ deliver 8 "c1" "task_notification_r1"
    ∷ []

abbrev over : Tables
over = record tables {
  notifications = ("task_notification_r1", with_status 6 delivery_cancelled notification) ∷ [];
}

there_over :
    get "task_notification_r1" over.notifications
    ≡ some (with_status 6 delivery_cancelled notification)
unfolding get
there_over = refl

delivered_once_example : IsOver "task_notification_r1" (perform_notifications calls over)
delivered_once_example =
    delivered_once calls over "task_notification_r1" (with_status 6 delivery_cancelled notification)
      there_over refl

there : get "task_notification_r1" tables.notifications ≡ some notification
unfolding get
there = refl

perform_notifications-IsLater_example :
    (n' : Notification) × (get "task_notification_r1"
        (perform_notifications calls tables).notifications
      ≡ some n')
    × IsLater notification n'
perform_notifications-IsLater_example =
    perform_notifications-IsLater calls tables "task_notification_r1" notification there

node_there : has_node "c1" "n1" tables.nodes ≡ true
unfolding has_node
node_there = refl

run_there : has_run "c1" "r2" tables.runs ≡ true
unfolding has_run get
run_there = refl

delivery-progress_example :
    get "task_notification_r1" (perform_notifications calls tables).notifications
    ≡ some (record notification {
      status = delivered;
      delivery_node_id = some "n1";
      delivery_run_id = some "r2";
      updated_at = 8;
    })
delivery-progress_example =
    delivery-progress tables "c1" "task_notification_r1" "n1" "r2" notification 6 7 8 there refl
      refl node_there run_there

-- Only texts are asked for here.
abbrev str : Value → String
str (string s) = s
str _ = ""

abbrev finished_run : Fields
finished_run =
    field "run_id" (string "r1")
      (field "conversation_id" (string "c1") (field "kind" (string "workflow") no_field))

abbrev events : List Value
events =
    object (
      field "type" (string "workflow_result")
        (field "result" (string "two files changed") no_field))
    ∷ object (field "type" (string "progress") no_field)
    ∷ []

content_found : notification_content str str (terminal_payload str str events) ≡ "two files changed"
unfolding notification_content terminal_payload last_terminal field_of truthy strip skip_spaces
content_found = refl
