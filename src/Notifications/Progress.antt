-- ===== src/Notifications/Progress.antt =====
-- That a notification of backend/core/notifications/task_notifications.py can be delivered.
use chat_tree.Prelude.{ℕ, String, ◌≡◌, refl, ap, eq_iff, Bool, true, some, [], ◌∷◌}
use chat_tree.Dict.{Dict, get, insert}
use chat_tree.Dict.Keys.{get-insert_self}
use chat_tree.Notifications.Types.{
  Status, unbound, bound, delivering, delivered, Notification, Tables, is_unbound, is_bound,
  is_delivering, find_notification, has_run, has_node,
}
use chat_tree.Notifications.Delivery.{
  get_notification, transition, bound_to, bind, with_status, delivered_by, start_delivery,
  finish_delivery, mark_delivered,
}
use chat_tree.Notifications.Calls.{
  bind_to, start_with, deliver, left, perform, perform_notifications,
}

find_here :
    (k id : String) (rows : Dict Notification) (n : Notification)
    → get id rows ≡ some n
    → n.conversation_id ≡ k
    → find_notification k id rows ≡ some n
unfolding find_notification
find_here k id rows n there c =
    let same = (eq_iff n.conversation_id k).1 c in rw (there, same, find_notification) refl

got_here :
    (k id : String) (s t : Tables) (n : Notification)
    → get id t.notifications ≡ some n
    → n.conversation_id ≡ k
    → left (get_notification k id t) s ≡ t
unfolding get_notification
got_here k id s t n there c = rw (find_here k id t.notifications n there c, get_notification) refl

-- An update that the status admits.
transition_accepts :
    (k id action : String) (takes : Status → Bool) (change : Notification → Notification)
    (s : Tables) (n : Notification)
    → get id s.notifications ≡ some n
    → n.conversation_id ≡ k
    → takes n.status ≡ true
    → (change n).conversation_id ≡ k
    → left (transition k id action takes change s) s
      ≡ record s { notifications = insert id (change n) s.notifications }
unfolding transition
transition_accepts k id action takes change s n there c t c' =
    let changed : Tables = record s { notifications = insert id (change n) s.notifications } in
    rw (find_here k id s.notifications n there c, t, transition)
      (got_here k id s changed (change n) (get-insert_self id (change n) s.notifications) c')

module _ (k id : String) (n : Notification) (s : Tables) (there : get id s.notifications ≡ some n)
    (c : n.conversation_id ≡ k) where
  perform_bind :
      (now : ℕ) (node_id : String)
      → n.status ≡ unbound
      → has_node k node_id s.nodes ≡ true
      → perform (bind_to now k id node_id) s
        ≡ record s { notifications = insert id (bound_to now node_id n) s.notifications }
  unfolding perform bind
  perform_bind now node_id u node = rw node (
      transition_accepts k id "bind" is_unbound (bound_to now node_id) s n there c (ap is_unbound u)
        c)

  perform_start :
      (now : ℕ) (run_id : String)
      → n.status ≡ bound
      → has_run k run_id s.runs ≡ true
      → perform (start_with now k id run_id) s
        ≡ record s { notifications = insert id (delivered_by now run_id n) s.notifications }
  unfolding perform start_delivery
  perform_start now run_id b run = rw run (
      transition_accepts k id "start_delivery" is_bound (delivered_by now run_id) s n there c
        (ap is_bound b) c)

  perform_deliver :
      (now : ℕ)
      → n.status ≡ delivering
      → perform (deliver now k id) s
        ≡ record s { notifications = insert id (with_status now delivered n) s.notifications }
  unfolding perform mark_delivered finish_delivery
  perform_deliver now d =
      transition_accepts k id "delivered" is_delivering (with_status now delivered) s n there c
        (ap is_delivering d) c

-- A notification that is unbound, with a node and a run of its conversation: after it is bound to the
-- node, its delivery is started by the run, and it is marked as delivered, it is delivered, there and
-- by this run.
pub delivery-progress :
    (s : Tables) (k id node_id run_id : String) (n : Notification) (now later last : ℕ)
    → get id s.notifications ≡ some n
    → n.conversation_id ≡ k
    → n.status ≡ unbound
    → has_node k node_id s.nodes ≡ true
    → has_run k run_id s.runs ≡ true
    → get id
        (perform_notifications
          (bind_to now k id node_id ∷ start_with later k id run_id ∷ deliver last k id ∷ [])
          s).notifications
      ≡ some (record n {
        status = delivered;
        delivery_node_id = some node_id;
        delivery_run_id = some run_id;
        updated_at = last;
      })
unfolding perform_notifications
delivery-progress s k id node_id run_id n now later last there c u node run =
    let n1 = bound_to now node_id n in
    let s1 : Tables = record s { notifications = insert id n1 s.notifications } in
    let there1 = get-insert_self id n1 s.notifications in
    let n2 = delivered_by later run_id n1 in
    let s2 : Tables = record s { notifications = insert id n2 s1.notifications } in
    let there2 = get-insert_self id n2 s1.notifications in
    rw
      (
        perform_bind k id n s there c now node_id u node,
        perform_start k id n1 s1 there1 c later run_id refl run,
        perform_deliver k id n2 s2 there2 c last refl,
      )
      (get-insert_self id (with_status last delivered n2) s2.notifications)
