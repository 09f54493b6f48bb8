-- ===== src/Notifications/Ends.antt =====
-- That a notification of backend/core/notifications/task_notifications.py which has come to an end stays
-- there.
use chat_tree.Prelude.{
  ℕ, String, ◌≡◌, refl, sym, ap, ◌∙◌, Bool, true, false, inl, inr, some, List, if◌then◌else◌, arith,
  Option-cases, some-cancel, subst, is_ok,
}
use chat_tree.Dict.{get}
use chat_tree.Notifications.Types.{
  Status, delivered, delivery_failed, delivery_cancelled, Notification, Tables, is_unbound,
  is_bound, is_delivering, is_pending, find_notification, has_run, has_node,
}
use chat_tree.Notifications.Delivery.{
  Outcome, transition, bound_to, bind, with_status, cancel, delivered_by, start_delivery,
  finish_delivery, mark_delivered, mark_delivery_failed,
}
use chat_tree.Notifications.Moves.{is_final, final_stays, find_there}
use chat_tree.Notifications.Calls.{Call, perform_notifications, perform_notifications-AreLater}

ends :
    (st : Status)
    → is_final st ≡ true
    → (is_unbound st ≡ false)
      × (is_bound st ≡ false)
      × (is_delivering st ≡ false)
      × (is_pending st ≡ false)
ends st h = (ground arith, ground arith, ground arith, ground arith)

refused_if :
    (b : Bool) (r q : Outcome)
    → is_ok q ≡ false
    → is_ok r ≡ false
    → is_ok (if b then q else r) ≡ false
refused_if true r q f g = f
refused_if false r q f g = g

transition_refused :
    (k id action : String) (takes : Status → Bool) (change : Notification → Notification)
    (s : Tables) {n : Notification}
    → get id s.notifications ≡ some n
    → takes n.status ≡ false
    → is_ok (transition k id action takes change s) ≡ false
unfolding transition
transition_refused k id action takes change s {n} there f =
    elim (Option-cases (find_notification k id s.notifications)) [
      | inl e ↦ rw (e, transition) refl
      | inr (m, e) ↦
          let same : n ≡ m = some-cancel (sym there ∙ find_there k id s.notifications e) in
          let f' : takes m.status ≡ false =
            subst (λ (x : Notification). takes x.status ≡ false) same f in
          rw (e, f', transition) refl
    ]

-- The methods that move a notification.
abbrev pub IsOver : String → Tables → Type 0
IsOver id s =
    (now : ℕ) (k other : String)
    → (is_ok (bind now k id other s) ≡ false)
      × (is_ok (start_delivery now k id other s) ≡ false)
      × (is_ok (mark_delivered now k id s) ≡ false)
      × (is_ok (mark_delivery_failed now k id s) ≡ false)
      × (is_ok (cancel now k id s) ≡ false)

-- Once a notification is delivered, failed or cancelled, whatever calls are made after that: binding
-- it, starting or ending its delivery, and deleting it raise. It is delivered once at most.
pub delivered_once :
    (calls : List Call) (s : Tables) (id : String) (n : Notification)
    → get id s.notifications ≡ some n
    → is_final n.status ≡ true
    → IsOver id (perform_notifications calls s)
unfolding bind start_delivery mark_delivered mark_delivery_failed finish_delivery cancel
delivered_once calls s id n there final now k other =
    let (n', there', (a, b, c, moves)) = perform_notifications-AreLater calls s id n there in
    let same = final_stays final moves in
    let still : is_final n'.status ≡ true = ap is_final same ∙ final in
    let s' = perform_notifications calls s in
    (
      refused_if (has_node k other s'.nodes) _ _
          (transition_refused k id "bind" is_unbound (bound_to now other) s' there'
            (ends n'.status still).0)
          refl,
      refused_if (has_run k other s'.runs) _ _
          (transition_refused k id "start_delivery" is_bound (delivered_by now other) s' there'
            (ends n'.status still).1)
          refl,
      transition_refused k id "delivered" is_delivering (with_status now delivered) s' there'
          (ends n'.status still).2,
      transition_refused k id "delivery_failed" is_delivering (with_status now delivery_failed) s'
          there' (ends n'.status still).2,
      transition_refused k id "delete" is_pending (with_status now delivery_cancelled) s' there'
          (ends n'.status still).3,
    )
