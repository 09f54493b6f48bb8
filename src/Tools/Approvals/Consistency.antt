-- ===== src/Tools/Approvals/Consistency.antt =====
-- What holds between the requests, the futures and the tasks of
-- backend/core/tools/security/approval.py.
use chat_tree.Prelude.{
  String, ◌≡◌, refl, sym, ap, ◌∙◌, ◌==◌, eq_iff, Bool, true, false, Option, none, some, is_some,
  ◌≢◌, ◌⊎◌, inl, inr, Bool-cases, Option-cases, some-cancel, subst,
}
use chat_tree.Dict.{Dict, get, remove}
use chat_tree.Dict.Keys.{get-insert_self, get-insert_ne, get-remove_self, get-remove_ne}
use chat_tree.Tools.Approvals.Types.{
  pending, decided, ApprovalStatus, ApprovalRequest, ApprovalDecision, Future, Manager, is_pending,
}
use chat_tree.Tools.Approvals.Manager.{try_resolve, resolve_found, resolved, with_status, cleanup}
use chat_tree.Tools.Approvals.Waits.{Wait, created, waiting, cancelling, withdrawn, failed, System}

abbrev pub status_of : Future → ApprovalStatus
status_of none = pending
status_of (some d) = decided d.status

-- A request and its future are there together, and agree on the status.
abbrev pub Agree : String → Option ApprovalRequest → Option Future → Type 0
Agree k none none = Unit
Agree k (some r) (some f) = (r.id ≡ k) × (r.status ≡ status_of f)
Agree k none (some f) = ⊥
Agree k (some r) none = ⊥

abbrev pub is_live : Option Wait → Bool
is_live (some created) = true
is_live (some waiting) = true
is_live (some cancelling) = true
is_live (some withdrawn) = true
is_live _ = false

abbrev pub is_withdrawn : Option Wait → Bool
is_withdrawn (some cancelling) = true
is_withdrawn (some withdrawn) = true
is_withdrawn _ = false

abbrev pub is_resolved : Option Future → Bool
is_resolved (some (some d)) = true
is_resolved _ = false

abbrev pub is_failed : Option Wait → Bool
is_failed (some failed) = true
is_failed _ = false

-- The request of a task is there while the task is not done, and resolved once it is cancelled; no
-- task has failed.
abbrev pub Track : Option Future → Option Wait → Type 0
Track f w =
    (is_live w ≡ is_some f) × (is_withdrawn w ≡ true → is_resolved f ≡ true) × (is_failed w ≡ false)

abbrev pub IsConsistent : Manager → Type 0
IsConsistent m = (k : String) → Agree k (get k m.requests) (get k m.futures)

abbrev pub IsTracked : System → Type 0
IsTracked s = (k : String) → Track (get k s.manager.futures) (get k s.waits)

abbrev pub IsSound : System → Type 0
IsSound s = IsConsistent s.manager × IsTracked s

-- Two dictionaries change at the same key.
module _ {ℓ κ} {V : Type ℓ} {W : Type κ} (P : String → Option V → Option W → Type 0)
    (k : String) where
  pub change_at :
      (d d' : Dict V) (e e' : Dict W)
      → P k (get k d') (get k e')
      → ((j : String) → j ≢ k → get j d' ≡ get j d)
      → ((j : String) → j ≢ k → get j e' ≡ get j e)
      → ((j : String) → P j (get j d) (get j e))
      → (j : String) → P j (get j d') (get j e')
  change_at d d' e e' new left right old j = elim (Bool-cases (j == k)) [
    | inl h ↦ subst (λ i. P i (get i d') (get i e')) (sym ((eq_iff j k).0 h)) new
    | inr h ↦
        let ne : j ≢ k = λ p. absurd (cc (h, (eq_iff j k).1 p)) in
        rw (left j ne, right j ne) (old j)
  ]

-- A resolved future is left, an open one is resolved with its request, and there may be none.
abbrev pub Attempt : String → ApprovalDecision → Manager → Type 0
Attempt k d m =
    ((get k m.futures ≡ none) × (try_resolve k d m ≡ (false, m)))
    ⊎ (((e : ApprovalDecision) × (get k m.futures ≡ some (some e))
          × (try_resolve k d m ≡ (false, m)))
        ⊎ ((r : ApprovalRequest) × (get k m.futures ≡ some none)
            × (get k m.requests ≡ some r)
            × (r.id ≡ k)
            × (try_resolve k d m ≡ (true, resolved k d r m))))

Agree-open :
    (k : String) (o : Option ApprovalRequest)
    → Agree k o (some none)
    → (r : ApprovalRequest) × (o ≡ some r) × (r.id ≡ k) × (is_pending r.status ≡ true)
Agree-open k none a = absurd a
Agree-open k (some r) (i, p) = (r, refl, i, ap is_pending p)

Agree-resolved :
    (k : String) (d : ApprovalDecision) (m : Manager) (o : Option ApprovalRequest)
    (e : ApprovalDecision)
    → resolve_found o (some (some e)) k d m ≡ (false, m)
Agree-resolved k d m none e = refl
Agree-resolved k d m (some r) e = refl

Agree-absent :
    (k : String) (d : ApprovalDecision) (m : Manager) (o : Option ApprovalRequest)
    → resolve_found o none k d m ≡ (false, m)
Agree-absent k d m none = refl
Agree-absent k d m (some r) = refl

pub attempt : (k : String) (d : ApprovalDecision) (m : Manager) → IsConsistent m → Attempt k d m
unfolding try_resolve
attempt k d m c = elim (Option-cases (get k m.futures)) [
  | inl e ↦ inl (e, rw e (Agree-absent k d m (get k m.requests)))
  | inr (some e, g) ↦ inr (inl (e, g, rw g (Agree-resolved k d m (get k m.requests) e)))
  | inr (none, g) ↦
      let both : Agree k (get k m.requests) (get k m.futures) = c k in
      let (r, e, i, p) = Agree-open k (get k m.requests) (rw g at both) in
      inr (inr (r, g, e, i, rw (e, g, p) refl))
]

-- The result of a future after an attempt to resolve it.
abbrev pub first_result : ApprovalDecision → Future → ApprovalDecision
first_result d none = d
first_result d (some e) = e

module _ (k : String) (d : ApprovalDecision) (m : Manager) (c : IsConsistent m) where
  pub try_resolve-IsConsistent : IsConsistent (try_resolve k d m).1
  try_resolve-IsConsistent = elim (attempt k d m c) [
    | inl (e, t) ↦ rw t c
    | inr (inl (e, g, t)) ↦ rw t c
    | inr (inr (r, g, e, i, t)) ↦ rw t (
        change_at Agree k m.requests (resolved k d r m).requests m.futures
          (resolved k d r m).futures
          (rw
            (
              get-insert_self k (with_status d.status r) m.requests,
              get-insert_self k (some d) m.futures,
            )
            (i, refl))
          (λ j ne. get-insert_ne k j _ _ ne) (λ j ne. get-insert_ne k j _ _ ne) c)
  ]

  pub try_resolve_others :
      (j : String) → j ≢ k → get j (try_resolve k d m).1.futures ≡ get j m.futures
  try_resolve_others j ne = elim (attempt k d m c) [
    | inl (e, t) ↦ rw t refl
    | inr (inl (e, g, t)) ↦ rw t refl
    | inr (inr (r, g, e, i, t)) ↦ rw t (get-insert_ne k j _ _ ne)
  ]

  pub try_resolve_future :
      (f : Future)
      → get k m.futures ≡ some f
      → get k (try_resolve k d m).1.futures ≡ some (some (first_result d f))
  try_resolve_future f h = elim (attempt k d m c) [
    | inl (e, t) ↦ absurd (cc (e, h))
    | inr (inl (e, g, t)) ↦ rw (t, some-cancel (sym h ∙ g)) g
    | inr (inr (r, g, e, i, t)) ↦
        rw (t, some-cancel (sym h ∙ g)) (get-insert_self k (some d) m.futures)
  ]

pub cleanup-IsConsistent : (k : String) (m : Manager) → IsConsistent m → IsConsistent (cleanup k m)
unfolding cleanup
cleanup-IsConsistent k m c =
    change_at Agree k m.requests (remove k m.requests) m.futures (remove k m.futures)
      (rw (get-remove_self k m.requests, get-remove_self k m.futures) tt)
      (λ j ne. get-remove_ne k j _ ne) (λ j ne. get-remove_ne k j _ ne) c

pub cleanup_future : (k : String) (m : Manager) → get k (cleanup k m).futures ≡ none
unfolding cleanup
cleanup_future k m = get-remove_self k m.futures

pub cleanup_others :
    (k : String) (m : Manager) (j : String) → j ≢ k → get j (cleanup k m).futures ≡ get j m.futures
unfolding cleanup
cleanup_others k m j ne = get-remove_ne k j m.futures ne
