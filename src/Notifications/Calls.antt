-- ===== src/Notifications/Calls.antt =====
-- Any sequence of calls of backend/core/notifications/task_notifications.py, one transaction each. A call
-- that raises changes nothing.
use chat_tree.Prelude.{
  ℕ, String, ◌≡◌, refl, sym, ap, ◌∙◌, ◌==◌, eq_iff, Bool, true, false, inl, inr, Option, none, some,
  List, [], ◌∷◌, if◌then◌else◌, arith, Bool-cases, some-cancel, subst, ok, err, is_ok,
}
use chat_tree.Dict.{get, insert}
use chat_tree.Notifications.Types.{
  Status, unbound, bound, delivering, delivered, delivery_failed, delivery_cancelled, Notification,
  Tables, is_unbound, is_bound, is_delivering, is_pending, has_run, has_node, status_text,
}
use chat_tree.Notifications.Delivery.{
  Outcome, bound_to, bind, with_status, cancel, delivered_by, start_delivery, finish_delivery,
  mark_delivered, mark_delivery_failed,
}
use chat_tree.Notifications.Creation.{
  NewNotification, build_notification, renewed, store, upsert, create,
}
use chat_tree.Notifications.Moves.{
  is_move, stay, move, IsLater, AreLater, AreLater-refl, AreLater-trans, replaced, KeepsAll,
  got-KeepsAll, transition-KeepsAll,
}

pub data Call : Type 0 where
  create_new : String → ℕ → NewNotification → Call
  bind_to : ℕ → String → String → String → Call
  start_with : ℕ → String → String → String → Call
  deliver : ℕ → String → String → Call
  fail : ℕ → String → String → Call
  withdraw : ℕ → String → String → Call

abbrev pub left : Outcome → Tables → Tables
left (err e) s = s
left (ok (v, s')) s = s'

unfoldable pub perform : Call → Tables → Tables
perform (create_new row_id now new) s = left (create row_id now new s) s
perform (bind_to now k id node_id) s = left (bind now k id node_id s) s
perform (start_with now k id run_id) s = left (start_delivery now k id run_id s) s
perform (deliver now k id) s = left (mark_delivered now k id s) s
perform (fail now k id) s = left (mark_delivery_failed now k id s) s
perform (withdraw now k id) s = left (cancel now k id s) s

unfoldable pub perform_notifications : List Call → Tables → Tables
unfolding perform
perform_notifications [] s = s
perform_notifications (call ∷ calls) s = perform_notifications calls (perform call s)

left-AreLater : (r : Outcome) (s : Tables) → KeepsAll s r → AreLater s (left r s)
left-AreLater (err e) s h = AreLater-refl s
left-AreLater (ok (v, s')) s h = h v s' refl

unbound_eq : (st : Status) → is_unbound st ≡ true → st ≡ unbound
unbound_eq st h = ground arith

bound_eq : (st : Status) → is_bound st ≡ true → st ≡ bound
bound_eq st h = ground arith

delivering_eq : (st : Status) → is_delivering st ≡ true → st ≡ delivering
delivering_eq st h = ground arith

module _ (s : Tables) where
  guarded-KeepsAll :
      (b : Bool) (r q : Outcome)
      → (KeepsAll s q)
      → is_ok r ≡ false
      → KeepsAll s (if b then q else r)
  guarded-KeepsAll true r q k f = k
  guarded-KeepsAll false r q k f = λ v s' h. absurd (cc (ap is_ok h, f))

  bind-KeepsAll : (now : ℕ) (k id node_id : String) → KeepsAll s (bind now k id node_id s)
  unfolding bind
  bind-KeepsAll now k id node_id =
      guarded-KeepsAll (has_node k node_id s.nodes) _ _
        (transition-KeepsAll k id "bind" is_unbound (bound_to now node_id) s
          (λ n h. (refl, refl, refl, move stay (rw (unbound_eq n.status h) refl))))
        refl

  start_delivery-KeepsAll :
      (now : ℕ) (k id run_id : String) → KeepsAll s (start_delivery now k id run_id s)
  unfolding start_delivery
  start_delivery-KeepsAll now k id run_id =
      guarded-KeepsAll (has_run k run_id s.runs) _ _
        (transition-KeepsAll k id "start_delivery" is_bound (delivered_by now run_id) s
          (λ n h. (refl, refl, refl, move stay (rw (bound_eq n.status h) refl))))
        refl

  cancel-KeepsAll : (now : ℕ) (k id : String) → KeepsAll s (cancel now k id s)
  unfolding cancel
  cancel-KeepsAll now k id =
      transition-KeepsAll k id "delete" is_pending (with_status now delivery_cancelled) s
        (λ n h. (refl, refl, refl, move stay (pending_move n.status h)))
    where
      pending_move : (st : Status) → is_pending st ≡ true → is_move st delivery_cancelled ≡ true
      pending_move st h = ground arith

  finish-KeepsAll :
      (now : ℕ) (k id : String) (st : Status)
      → is_move delivering st ≡ true
      → KeepsAll s (finish_delivery now k id st s)
  unfolding finish_delivery
  finish-KeepsAll now k id st m =
      transition-KeepsAll k id (status_text st) is_delivering (with_status now st) s
        (λ n h. (refl, refl, refl, move stay (rw (delivering_eq n.status h) m)))

  stored-KeepsAll :
      (n' : Notification) (row_id : String) (now : ℕ) (new : NewNotification)
      → ((n : Notification) → get row_id s.notifications ≡ some n → IsLater n n')
      → KeepsAll s (store n' row_id now new s)
  stored-KeepsAll n' row_id now new later =
      got-KeepsAll new.conversation_id row_id s
        (record s { notifications = insert row_id n' s.notifications }) (replaced row_id n' s later)

  upsert-KeepsAll :
      (o : Option Notification) (row_id : String) (now : ℕ) (new : NewNotification)
      → get row_id s.notifications ≡ o
      → KeepsAll s (upsert o row_id now new s)
  upsert-KeepsAll none row_id now new e =
      stored-KeepsAll (build_notification row_id now new) row_id now new
        (λ n there. absurd (cc (there, e)))
  upsert-KeepsAll (some n) row_id now new e =
      elim (Bool-cases (n.conversation_id == new.conversation_id)) [
        | inr c ↦ rw c (λ v s' h. absurd (cc h))
        | inl c ↦ elim (Bool-cases (n.source_run_id == new.source_run_id)) [
          | inr g ↦ rw (c, g) (λ v s' h. absurd (cc h))
          | inl g ↦
              let same : new.source_run_id ≡ n.source_run_id =
                sym ((eq_iff n.source_run_id new.source_run_id).0 g) in
              rw (c, g)
                (stored-KeepsAll (renewed now new n) row_id now new (λ m there.
                  subst (λ x. IsLater x (renewed now new n)) (some-cancel (sym e ∙ there))
                    (refl, same, refl, stay)))
        ]
      ]

  create-KeepsAll :
      (row_id : String) (now : ℕ) (new : NewNotification) → KeepsAll s (create row_id now new s)
  unfolding create
  create-KeepsAll row_id now new =
      elim (Bool-cases (has_run new.conversation_id new.source_run_id s.runs)) [
        | inl r ↦ rw r (upsert-KeepsAll (get row_id s.notifications) row_id now new refl)
        | inr r ↦ rw r (λ v s' h. absurd (cc h))
      ]

  perform-AreLater : (call : Call) → AreLater s (perform call s)
  unfolding perform mark_delivered mark_delivery_failed
  perform-AreLater (create_new row_id now new) = left-AreLater _ s (create-KeepsAll row_id now new)
  perform-AreLater (bind_to now k id node_id) = left-AreLater _ s (bind-KeepsAll now k id node_id)
  perform-AreLater (start_with now k id run_id) =
      left-AreLater _ s (start_delivery-KeepsAll now k id run_id)
  perform-AreLater (deliver now k id) = left-AreLater _ s (finish-KeepsAll now k id delivered refl)
  perform-AreLater (fail now k id) =
      left-AreLater _ s (finish-KeepsAll now k id delivery_failed refl)
  perform-AreLater (withdraw now k id) = left-AreLater _ s (cancel-KeepsAll now k id)

pub perform_notifications-AreLater :
    (calls : List Call) (s : Tables) → AreLater s (perform_notifications calls s)
unfolding perform_notifications
perform_notifications-AreLater [] s = AreLater-refl s
perform_notifications-AreLater (call ∷ calls) s =
    AreLater-trans s (perform call s) (perform_notifications calls (perform call s))
      (perform-AreLater s call) (perform_notifications-AreLater calls (perform call s))

-- Whatever calls are made: a notification that is there stays, about the same run of the same
-- conversation and made at the same time, and its status has moved from unbound to bound, to
-- delivering, and on to delivered or failed, or from one of the first three to cancelled; it has not
-- gone back or left an end.
pub perform_notifications-IsLater :
    (calls : List Call) (s : Tables) (id : String) (n : Notification)
    → get id s.notifications ≡ some n
    → (n' : Notification) × (get id (perform_notifications calls s).notifications ≡ some n')
      × IsLater n n'
perform_notifications-IsLater calls s id n there = perform_notifications-AreLater calls s id n there
