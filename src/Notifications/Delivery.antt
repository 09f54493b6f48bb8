-- ===== src/Notifications/Delivery.antt =====
-- The delivery of a notification of backend/core/notifications/task_notifications.py. A method is a
-- transaction: it returns its result with the new tables, or raises and leaves them. The clock
-- reading is an argument.
use chat_tree.Prelude.{ℕ, String, Bool, none, some, if◌then◌else◌, Result, ok, err, append_text}
use chat_tree.Dict.{insert}
use chat_tree.Notifications.Types.{
  Status, bound, delivering, delivered, delivery_failed, delivery_cancelled, Notification, Tables,
  NotificationError, key_error, transition_error, status_text, is_unbound, is_bound, is_delivering,
  is_pending, find_notification, has_run, has_node, NotificationView, view,
}

abbrev pub Outcome : Type 0
Outcome = Result NotificationError (NotificationView × Tables)

-- `get`
unfoldable pub get_notification : String → String → Tables → Outcome
unfolding find_notification
get_notification conversation_id id s =
    elim (find_notification conversation_id id s.notifications) [
      | none ↦ err (key_error id)
      | some n ↦ ok (view s n, s)
    ]

abbrev pub refused : String → Status → NotificationError
refused action status = transition_error (
    append_text (append_text (append_text "cannot " action) " task notification from ")
      (status_text status))

-- An update of the row, where its status is one of those that the statement names, and the row as
-- it is then; else what `_raise_missing_or_invalid_transition` raises.
unfoldable pub transition :
    String → String → String → (Status → Bool) → (Notification → Notification) → Tables → Outcome
unfolding find_notification get_notification
transition conversation_id id action takes change s =
    elim (find_notification conversation_id id s.notifications) [
      | none ↦ err (key_error id)
      | some n ↦
          if takes n.status
          then get_notification conversation_id id
              (record s { notifications = insert id (change n) s.notifications })
          else err (refused action n.status)
    ]

abbrev pub bound_to : ℕ → String → Notification → Notification
bound_to now node_id n = record n {
  status = bound;
  delivery_node_id = some node_id;
  updated_at = now;
}

unfoldable pub bind : ℕ → String → String → String → Tables → Outcome
unfolding transition has_node
bind now conversation_id id node_id s =
    if has_node conversation_id node_id s.nodes
    then transition conversation_id id "bind" is_unbound (bound_to now node_id) s
    else err (key_error node_id)

abbrev pub with_status : ℕ → Status → Notification → Notification
with_status now status n = record n { status = status; updated_at = now }

-- `delete`
unfoldable pub cancel : ℕ → String → String → Tables → Outcome
unfolding transition
cancel now conversation_id id s =
    transition conversation_id id "delete" is_pending (with_status now delivery_cancelled) s

abbrev pub delivered_by : ℕ → String → Notification → Notification
delivered_by now run_id n = record n {
  status = delivering;
  delivery_run_id = some run_id;
  updated_at = now;
}

unfoldable pub start_delivery : ℕ → String → String → String → Tables → Outcome
unfolding transition has_run
start_delivery now conversation_id id run_id s =
    if has_run conversation_id run_id s.runs
    then transition conversation_id id "start_delivery" is_bound (delivered_by now run_id) s
    else err (key_error run_id)

-- `_finish_delivery`
unfoldable pub finish_delivery : ℕ → String → String → Status → Tables → Outcome
unfolding transition
finish_delivery now conversation_id id status s =
    transition conversation_id id (status_text status) is_delivering (with_status now status) s

unfoldable pub mark_delivered : ℕ → String → String → Tables → Outcome
unfolding finish_delivery
mark_delivered now conversation_id id s = finish_delivery now conversation_id id delivered s

unfoldable pub mark_delivery_failed : ℕ → String → String → Tables → Outcome
unfolding finish_delivery
mark_delivery_failed now conversation_id id s =
    finish_delivery now conversation_id id delivery_failed s
