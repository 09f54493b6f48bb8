-- ===== src/Notifications/Moves.antt =====
-- How a notification of backend/core/notifications/task_notifications.py may change, and that its
-- methods change it so.
use chat_tree.Prelude.{
  String, ◌≡◌, refl, sym, ap, ◌∙◌, ◌==◌, eq_iff, Bool, true, false, inl, inr, some, arith,
  Bool-cases, Option-cases, some-cancel, subst, ok, ok-injective,
}
use chat_tree.Dict.{Dict, get, insert}
use chat_tree.Dict.Keys.{get-insert_self, get-insert_ne}
use chat_tree.Notifications.Types.{
  Status, unbound, bound, delivering, delivered, delivery_failed, delivery_cancelled, Notification,
  Tables, find_notification, NotificationView,
}
use chat_tree.Notifications.Delivery.{Outcome, get_notification, transition}

-- One change of the status.
abbrev pub is_move : Status → Status → Bool
is_move unbound bound = true
is_move bound delivering = true
is_move delivering delivered = true
is_move delivering delivery_failed = true
is_move unbound delivery_cancelled = true
is_move bound delivery_cancelled = true
is_move delivering delivery_cancelled = true
is_move _ _ = false

pub data Moves (a : Status) : Status → Type 0 where
  stay : Moves a a
  move : {b c : Status} → Moves a b → is_move b c ≡ true → Moves a c

pub followed : {a b c : Status} → Moves a b → Moves b c → Moves a c
followed p stay = p
followed p (move q h) = move (followed p q) h

abbrev pub is_final : Status → Bool
is_final delivered = true
is_final delivery_failed = true
is_final delivery_cancelled = true
is_final _ = false

final_move : (b c : Status) → is_final b ≡ true → is_move b c ≡ true → ⊥
final_move b c f h = ground arith

pub final_stays : {a b : Status} → is_final a ≡ true → Moves a b → b ≡ a
final_stays f stay = refl
final_stays {a} f (move {b} {c} p h) = absurd (final_move b c (ap is_final (final_stays f p) ∙ f) h)

-- The same notification later: what it is about and where it is delivered do not change, but by the
-- moves of its status.
abbrev pub IsLater : Notification → Notification → Type 0
IsLater n n' =
    (n'.conversation_id ≡ n.conversation_id)
    × (n'.source_run_id ≡ n.source_run_id)
    × (n'.created_at ≡ n.created_at)
    × Moves n.status n'.status

-- Every notification of the tables is there later.
abbrev pub AreLater : Tables → Tables → Type 0
AreLater s s' =
    (id : String) (n : Notification)
    → get id s.notifications ≡ some n
    → (n' : Notification) × (get id s'.notifications ≡ some n') × IsLater n n'

pub AreLater-refl : (s : Tables) → AreLater s s
AreLater-refl s id n h = (n, h, (refl, refl, refl, stay))

pub AreLater-trans : (s t u : Tables) → AreLater s t → AreLater t u → AreLater s u
AreLater-trans s t u p q id n h =
    let (n', h', (a, b, c, m)) = p id n h in
    let (n'', h'', (a', b', c', m')) = q id n' h' in
    (n'', h'', (a' ∙ a, b' ∙ b, c' ∙ c, followed m m'))

-- A row is replaced.
pub replaced :
    (id : String) (n' : Notification) (s : Tables)
    → ((n : Notification) → get id s.notifications ≡ some n → IsLater n n')
    → AreLater s (record s { notifications = insert id n' s.notifications })
replaced id n' s later j n h = elim (Bool-cases (j == id)) [
  | inl e ↦
      let same : j ≡ id = (eq_iff j id).0 e in
      let there : get id s.notifications ≡ some n = rw same at h in
      (n', rw same (get-insert_self id n' s.notifications), later n there)
  | inr e ↦ (
    n,
    get-insert_ne id j n' s.notifications (λ p. absurd (cc (e, (eq_iff j id).1 p))) ∙ h,
    (refl, refl, refl, stay),
  )
]

-- What a method that returned leaves.
abbrev pub KeepsAll : Tables → Outcome → Type 0
KeepsAll s r = (v : NotificationView) (s' : Tables) → r ≡ ok (v, s') → AreLater s s'

pub got-KeepsAll :
    (k id : String) (s t : Tables) → AreLater s t → KeepsAll s (get_notification k id t)
unfolding get_notification
got-KeepsAll k id s t l v s' h = elim (Option-cases (find_notification k id t.notifications)) [
  | inl e ↦ absurd (cc (rw (e, get_notification) at h))
  | inr (n, e) ↦
      subst (λ x. AreLater s x) (ap (λ x. x.1) (ok-injective (rw (e, get_notification) at h))) l
]

pub find_there :
    (k id : String) (rows : Dict Notification) {n : Notification}
    → find_notification k id rows ≡ some n
    → get id rows ≡ some n
unfolding find_notification
find_there k id rows h = elim (Option-cases (get id rows)) [
  | inl e ↦ absurd (cc (rw (e, find_notification) at h))
  | inr (n, e) ↦ elim (Bool-cases (n.conversation_id == k)) [
    | inl c ↦ e ∙ rw (e, c, find_notification) at h
    | inr c ↦ absurd (cc (rw (e, c, find_notification) at h))
  ]
]

-- A change of a row that its status admits.
pub transition-KeepsAll :
    (k id action : String) (takes : Status → Bool) (change : Notification → Notification)
    (s : Tables)
    → ((n : Notification) → takes n.status ≡ true → IsLater n (change n))
    → KeepsAll s (transition k id action takes change s)
unfolding transition
transition-KeepsAll k id action takes change s later v s' h =
    elim (Option-cases (find_notification k id s.notifications)) [
      | inl e ↦ absurd (cc (rw (e, transition) at h))
      | inr (n, e) ↦ elim (Bool-cases (takes n.status)) [
        | inr c ↦ absurd (cc (rw (e, c, transition) at h))
        | inl c ↦
            got-KeepsAll k id s (record s { notifications = insert id (change n) s.notifications })
              (replaced id (change n) s (λ m there.
                subst (λ x. IsLater x (change n))
                  (some-cancel (sym (find_there k id s.notifications e) ∙ there)) (later n c)))
              v s' (rw (e, c, transition) at h)
      ]
    ]
