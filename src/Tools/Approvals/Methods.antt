-- ===== src/Tools/Approvals/Methods.antt =====
-- What the methods of backend/core/tools/security/approval.py do to requests, futures and tasks.
use chat_tree.Prelude.{
  ℕ, String, ◌≡◌, refl, sym, ap, ◌==◌, eq_iff, Bool, true, false, ◌&&◌, Option, none, some, List,
  [], ◌∷◌, is_some, inl, inr, Bool-cases, Option-cases, Result, ok, err, ok-injective, subst,
}
use chat_tree.Dict.{get, insert, has}
use chat_tree.Tools.Approvals.Types.{
  Verdict, ApprovalRequest, ApprovalDecision, ApprovalError, Future, Manager,
}
use chat_tree.Tools.Approvals.Manager.{
  with_expiry, begin_request, try_resolve, verdict_of, granted, settled, decided_by, decide,
  allow_in_session, cancellation, cancel_all,
}
use chat_tree.Tools.Approvals.Waits.{Wait}
use chat_tree.Tools.Approvals.Consistency.{
  Track, is_resolved, IsConsistent, attempt, first_result, try_resolve-IsConsistent,
  try_resolve_others, try_resolve_future,
}

pub Track-resolved :
    (d : ApprovalDecision) (f : Future) (w : Option Wait)
    → Track (some f) w
    → Track (some (some (first_result d f))) w
Track-resolved d f w (l, s, n) = (l, (λ h. refl), n)

module _ (k : String) (d : ApprovalDecision) (m : Manager) (c : IsConsistent m) where
  -- Resolving a request lets every task be.
  pub try_resolve-Track :
      (j : String) (w : Option Wait)
      → Track (get j m.futures) w
      → Track (get j (try_resolve k d m).1.futures) w
  try_resolve-Track j w t = elim (Bool-cases (j == k)) [
    | inr e ↦ rw (try_resolve_others k d m c j (λ p. absurd (cc (e, (eq_iff j k).1 p)))) t
    | inl e ↦
        let same : j ≡ k = (eq_iff j k).0 e in
        elim (attempt k d m c) [
          | inl (a, r) ↦ rw r t
          | inr (inl (e, g, r)) ↦ rw r t
          | inr (inr (r, g, a, i, q)) ↦
              let now : get j (try_resolve k d m).1.futures ≡ some (some d) =
                rw same (try_resolve_future k d m c none g) in
              let was : get j m.futures ≡ some none = rw same g in
              rw now (Track-resolved d none w (rw was at t))
        ]
  ]

  -- The future of a request that is there is resolved then.
  pub try_resolve-is_resolved :
      is_some (get k m.futures) ≡ true → is_resolved (get k (try_resolve k d m).1.futures) ≡ true
  try_resolve-is_resolved h = elim (Option-cases (get k m.futures)) [
    | inl e ↦ absurd (cc (rw e at h))
    | inr (f, e) ↦ rw (try_resolve_future k d m c f e) refl
  ]

pub cancel_all-keeps :
    (ks : List String) (m : Manager)
    → IsConsistent m
    → IsConsistent (cancel_all ks m)
      × ((j : String) (w : Option Wait)
          → Track (get j m.futures) w
          → Track (get j (cancel_all ks m).futures) w)
unfolding cancel_all
cancel_all-keeps [] m c = (c, λ j w t. t)
cancel_all-keeps (k ∷ ks) m c =
    let c' = try_resolve-IsConsistent k cancellation m c in
    let (d, keep) = cancel_all-keeps ks (try_resolve k cancellation m).1 c' in
    (d, λ j w t. keep j w (try_resolve-Track k cancellation m c j w t))

settled_ok :
    (k verdict scope : String) (r : ApprovalRequest) (d : ApprovalDecision) (t : Bool × Manager)
    {d' : ApprovalDecision} {m' : Manager}
    → settled k verdict scope r d t ≡ ok (d', m')
    → (d' ≡ d) × (t.0 ≡ true) × (m' ≡ granted verdict scope r t.1)
settled_ok k verdict scope r d (false, m) h = absurd (cc h)
settled_ok k verdict scope r d (true, m) h =
    let e = ok-injective h in (sym (ap (λ x. x.0) e), refl, sym (ap (λ x. x.1) e))

-- What a decision that is accepted does.
abbrev pub IsDecided : String → String → String → Manager → ApprovalDecision → Manager → Type 0
IsDecided k verdict scope m d m' =
    (r : ApprovalRequest) × (get k m.requests ≡ some r)
    × (verdict_of verdict ≡ ok d.status)
    × (d.scope ≡ some scope)
    × ((try_resolve k d m).0 ≡ true)
    × (m' ≡ granted verdict scope r (try_resolve k d m).1)

decided_by_ok :
    (k verdict scope : String) (r : ApprovalRequest) (v : Result ApprovalError Verdict)
    (m : Manager) {d : ApprovalDecision} {m' : Manager}
    → get k m.requests ≡ some r
    → verdict_of verdict ≡ v
    → decided_by k verdict scope r v m ≡ ok (d, m')
    → IsDecided k verdict scope m d m'
decided_by_ok k verdict scope r (err e) m g v h = absurd (cc h)
decided_by_ok k verdict scope r (ok v) m {d} {m'} g e h =
    let made : ApprovalDecision = record { status = v; scope = some scope } in
    let (same, accepted, left') = settled_ok k verdict scope r made (try_resolve k made m) h in
    subst (λ x. IsDecided k verdict scope m x m') (sym same) (r, g, e, refl, accepted, left')

pub decide_ok :
    (k verdict scope : String) (m : Manager) {d : ApprovalDecision} {m' : Manager}
    → decide k verdict scope m ≡ ok (d, m')
    → IsDecided k verdict scope m d m'
unfolding decide
decide_ok k verdict scope m h = elim (Option-cases (get k m.requests)) [
  | inl e ↦ absurd (cc (rw (e, decide) at h))
  | inr (r, e) ↦ decided_by_ok k verdict scope r (verdict_of verdict) m e refl (rw (e, decide) at h)
]

-- Grants are apart from requests and futures.
pub granted-keeps :
    (verdict scope : String) (r : ApprovalRequest) (m : Manager)
    → ((granted verdict scope r m).requests ≡ m.requests)
      × ((granted verdict scope r m).futures ≡ m.futures)
      × ((granted verdict scope r m).timeout_seconds ≡ m.timeout_seconds)
unfolding allow_in_session
granted-keeps verdict scope r m = elim (Bool-cases (verdict == "approve" && scope == "session")) [
  | inl e ↦ rw e (refl, refl, refl)
  | inr e ↦ rw e (refl, refl, refl)
]

pub begin_request_ok :
    (now : ℕ) (r : ApprovalRequest) (m : Manager) {m' : Manager}
    → begin_request now r m ≡ ok m'
    → (m'.requests ≡ insert r.id (with_expiry now m.timeout_seconds r) m.requests)
      × (m'.futures ≡ insert r.id none m.futures)
unfolding begin_request
begin_request_ok now r m h = elim (Bool-cases (has r.id m.requests)) [
  | inl e ↦ absurd (cc (rw e at h))
  | inr e ↦
      let q = ok-injective (rw e at h) in
      (sym (ap (λ (x : Manager). x.requests) q), sym (ap (λ (x : Manager). x.futures) q))
]
