-- ===== src/Tools/Approvals/Outcomes.antt =====
-- What a tool that waits for an approval of backend/core/tools/security/approval.py gets.
use chat_tree.Prelude.{
  ℕ, String, ◌≡◌, refl, sym, ap, ◌∙◌, ◌==◌, eq_iff, Bool, true, false, Option, none, some, is_some,
  ◌≢◌, ◌⊎◌, inl, inr, Bool-cases, some-cancel, ok, subst,
}
use chat_tree.Dict.{get, insert}
use chat_tree.Dict.Keys.{get-insert_self, get-insert_ne}
use chat_tree.Tools.Approvals.Types.{ApprovalRequest, ApprovalDecision, Future, Manager}
use chat_tree.Tools.Approvals.Manager.{
  try_resolve, decide, cancellation, requests_of_node, cancel_for_node, cleanup,
  cleanup_cancelled_before_start,
}
use chat_tree.Tools.Approvals.Waits.{
  Wait, created, waiting, cancelling, withdrawn, returned, stopped, failed, WaitEvent, completed,
  timed_out, interrupted, expiration, result_or_expired, wait_start, after_timeout,
  wait_for_decision, System, moved, was_stopped, called_back, is_ended, MayHappen, Step, begin,
  start, resume, withdraw, cancel, call_back, decision, cancel_node, Steps, here, next, new_system,
}
use chat_tree.Tools.Approvals.Consistency.{
  is_live, IsConsistent, IsSound, try_resolve_others, cleanup_others,
}
use chat_tree.Tools.Approvals.Methods.{decide_ok, granted-keeps, begin_request_ok}
use chat_tree.Tools.Approvals.Preservation.{future_gone, Step-IsSound, Steps-IsSound}
use chat_tree.Tools.Approvals.Cleanups.{
  try_resolve_keeps, refused, cancel_all_keeps, called_back_others, waiting_live,
}

-- The request has this decision for good.
abbrev pub IsSettled : ApprovalDecision → Option Future → Option Wait → Type 0
IsSettled d f w = (f ≡ some (some d)) ⊎ (w ≡ some (returned d)) ⊎ (w ≡ some stopped)

returned-injective : {d e : ApprovalDecision} → returned d ≡ returned e → d ≡ e
returned-injective h = cc

module _ (k : String) (d : ApprovalDecision) where
  abbrev SettledIn : System → Type 0
  SettledIn s = IsSettled d (get k s.manager.futures) (get k s.waits)

  still_waiting :
      {f : Option Future} {w : Wait}
      → is_live (some w) ≡ true
      → IsSettled d f (some w)
      → f ≡ some (some d)
  still_waiting l (inl h) = h
  still_waiting {w = w} l (inr (inl h)) = absurd (cc (ap is_live h, l))
  still_waiting {w = w} l (inr (inr h)) = absurd (cc (ap is_live h, l))

  moved_settled :
      (j : String) (w : Wait) (m : Manager) (s : System)
      → ((i : String) → i ≢ j → get i m.futures ≡ get i s.manager.futures)
      → (k ≡ j → IsSettled d (get k m.futures) (some w))
      → SettledIn s
      → SettledIn (moved j (w, m) s)
  moved_settled j w m s others here' h = elim (Bool-cases (k == j)) [
    | inl e ↦
        let same : k ≡ j = (eq_iff k j).0 e in
        let stored : get k (insert j w s.waits) ≡ some w = rw same (get-insert_self j w s.waits) in
        rw stored (here' same)
    | inr e ↦
        let ne : k ≢ j = λ p. absurd (cc (e, (eq_iff k j).1 p)) in
        rw (others k ne, get-insert_ne j k w s.waits ne) h
  ]

  module _ (s : System) (sound : IsSound s) (h : SettledIn s) where
    abbrev m : Manager
    m = s.manager

    abbrev c : IsConsistent m
    c = sound.0

    -- At a task that has not ended, the future has the decision.
    stored_at :
        (w : Wait)
        → get k s.waits ≡ some w
        → is_live (some w) ≡ true
        → get k m.futures ≡ some (some d)
    stored_at w e l = still_waiting l (rw e at h)

    stored_there :
        (j : String) (w : Wait)
        → get j s.waits ≡ some w
        → is_live (some w) ≡ true
        → k ≡ j
        → get j m.futures ≡ some (some d)
    stored_there j w e l same =
        let at_k : get k s.waits ≡ some w = rw same e in
        let there : get k m.futures ≡ some (some d) = stored_at w at_k l in rw same at there

    begin-settled :
        (now : ℕ) (r : ApprovalRequest) (m' : Manager)
        → get r.id s.waits ≡ none
        → get r.id m'.futures ≡ some none
        → ((j : String) → j ≢ r.id → get j m'.futures ≡ get j m.futures)
        → SettledIn (moved r.id (created, m') s)
    begin-settled now r m' absent opened others =
        moved_settled r.id created m' s others (λ same. absurd (unfresh same)) h
      where
        unfresh : k ≡ r.id → ⊥
        unfresh same =
            let gone : get k s.waits ≡ none = rw same absent in
            elim h [
              | inl e ↦
                  let live : is_live (get k s.waits) ≡ is_some (get k m.futures) = (sound.1 k).0 in
                  cc (rw (gone, e) at live)
              | inr (inl e) ↦ cc (gone, e)
              | inr (inr e) ↦ cc (gone, e)
            ]

    -- An attempt to resolve the request of a task that goes on.
    tried-settled :
        (j : String) (w v : Wait) (e : ApprovalDecision)
        → get j s.waits ≡ some w
        → is_live (some w) ≡ true
        → SettledIn (moved j (v, (try_resolve j e m).1) s)
    tried-settled j w v e there l =
        moved_settled j v (try_resolve j e m).1 s (try_resolve_others j e m c)
          (λ same. inl (try_resolve_keeps j e m k d c (stored_at w (rw same there) l))) h

    -- The task ends, and the request is cleaned up.
    ended-settled :
        (j : String) (w v : Wait) (e : ApprovalDecision)
        → (k ≡ j → IsSettled d none (some v))
        → SettledIn (moved j (v, cleanup j (try_resolve j e m).1) s)
    ended-settled j w v e this =
        moved_settled j v (cleanup j (try_resolve j e m).1) s
          (λ i ne. cleanup_others j (try_resolve j e m).1 i ne ∙ try_resolve_others j e m c i ne)
          (λ same. settled_after (this same)) h
      where
        settled_after : {f : Option Future} → IsSettled d none (some v) → IsSettled d f (some v)
        settled_after (inl q) = absurd (cc q)
        settled_after (inr q) = inr q

    timeout-settled :
        (j : String) (w : Wait) (r : Bool × Manager)
        → get j s.waits ≡ some w
        → is_live (some w) ≡ true
        → try_resolve j expiration m ≡ r
        → SettledIn (moved j (after_timeout j m r) s)
    timeout-settled j w (true, m') e l q =
        subst (λ x. SettledIn (moved j (returned expiration, cleanup j x) s)) (ap (λ x. x.1) q)
          (ended-settled j w (returned expiration) expiration
            (λ same. absurd (cc (q, refused j expiration m d c (stored_there j w e l same)))))
    timeout-settled j w (false, m') e l q =
        let result = returned (result_or_expired (get j m.futures)) in
        subst (λ x. SettledIn (moved j (result, cleanup j x) s)) (ap (λ x. x.1) q)
          (ended-settled j w result expiration (λ same.
            let there : get j m.futures ≡ some (some d) = stored_there j w e l same in
            inr (inl (rw there refl))))

    resume-settled :
        (j : String) (w : Wait) (event : WaitEvent)
        → get j s.waits ≡ some w
        → is_live (some w) ≡ true
        → MayHappen event j w s
        → SettledIn (moved j (wait_for_decision event j m) s)
    unfolding wait_for_decision
    resume-settled j w (completed e') e l may =
        moved_settled j (returned e') (cleanup j m) s (λ i ne. cleanup_others j m i ne)
          (λ same.
            let there : get j m.futures ≡ some (some d) = stored_there j w e l same in
            inr (inl (ap (λ x. some (returned x)) (some-cancel (some-cancel (sym may ∙ there))))))
          h
    resume-settled j w interrupted e l may =
        ended-settled j w stopped cancellation (λ same. inr (inr refl))
    resume-settled j w timed_out e l may = timeout-settled j w (try_resolve j expiration m) e l refl

    kept_at :
        (j : String) (w : Wait)
        → get j s.waits ≡ some w
        → is_live (some w) ≡ false
        → k ≡ j
        → {f : Option Future} → IsSettled d f (some w)
    kept_at j w e l same =
        let at_k : get k s.waits ≡ some w = rw same e in
        elim h [
          | inl g ↦ absurd (cc (future_gone s sound k w at_k l, g))
          | inr (inl q) ↦ inr (inl (sym at_k ∙ q))
          | inr (inr q) ↦ inr (inr (sym at_k ∙ q))
        ]

    -- A callback that finds a task that ended leaves what it has.
    call_back-settled :
        (j : String) (w : Wait)
        → get j s.waits ≡ some w
        → is_ended w ≡ true
        → SettledIn (moved j (called_back w, cleanup_cancelled_before_start j (was_stopped w) m) s)
    call_back-settled j created e l = absurd (cc l)
    call_back-settled j waiting e l = absurd (cc l)
    call_back-settled j cancelling e l = absurd (cc l)
    call_back-settled j withdrawn e l =
        moved_settled j stopped (cleanup_cancelled_before_start j true m) s
          (called_back_others j true m c) (λ same. inr (inr refl)) h
    call_back-settled j (returned v) e l =
        moved_settled j (returned v) (cleanup_cancelled_before_start j false m) s
          (called_back_others j false m c) (λ same. kept_at j (returned v) e refl same) h
    call_back-settled j stopped e l =
        moved_settled j stopped (cleanup_cancelled_before_start j true m) s
          (called_back_others j true m c) (λ same. inr (inr refl)) h
    call_back-settled j failed e l =
        moved_settled j failed (cleanup_cancelled_before_start j false m) s
          (called_back_others j false m c) (λ same. kept_at j failed e refl same) h

    decision-settled :
        (j verdict scope : String) (e : ApprovalDecision) (m' : Manager)
        → decide j verdict scope m ≡ ok (e, m')
        → SettledIn (record s { manager = m' })
    decision-settled j verdict scope e m' made =
        let (r, g, v, q, accepted, left') = decide_ok j verdict scope m made in
        let (rs, fs, ts) = granted-keeps verdict scope r (try_resolve j e m).1 in
        elim h [
          | inl there ↦ inl (rw (left', fs) (try_resolve_keeps j e m k d c there))
          | inr over ↦ inr over
        ]

    cancel_node-settled :
        (node_id : String) → SettledIn (record s { manager = cancel_for_node node_id m })
    unfolding cancel_for_node
    cancel_node-settled node_id = elim h [
      | inl there ↦ inl (cancel_all_keeps (requests_of_node node_id m.requests) m k d c there)
      | inr over ↦ inr over
    ]

  Step-settled : {s s' : System} → IsSound s → SettledIn s → Step s s' → SettledIn s'
  Step-settled {s} sound h (begin now r m' absent fresh made) =
      let (q, g) = begin_request_ok now r s.manager made in
      begin-settled s sound h now r m' absent (rw g (get-insert_self r.id none s.manager.futures))
        (λ j ne. rw g (get-insert_ne r.id j none s.manager.futures ne))
  Step-settled {s} sound h (start j e) =
      moved_settled j (wait_start j s.manager) s.manager s (λ i ne. refl)
        (λ same. inl (rw same (stored_there s sound h j created e refl same))) h
  Step-settled {s} sound h (resume j w event e l may) =
      resume-settled s sound h j w event e (waiting_live w l) may
  Step-settled {s} sound h (withdraw j e) =
      tried-settled s sound h j created withdrawn cancellation e refl
  Step-settled {s} sound h (cancel j w e l) =
      tried-settled s sound h j w cancelling cancellation e (waiting_live w l)
  Step-settled {s} sound h (call_back j w e l) = call_back-settled s sound h j w e l
  Step-settled {s} sound h (decision j verdict scope e m' made) =
      decision-settled s sound h j verdict scope e m' made
  Step-settled {s} sound h (cancel_node node_id) = cancel_node-settled s sound h node_id

  Steps-settled : {s s' : System} → IsSound s → SettledIn s → Steps s s' → SettledIn s' × IsSound s'
  Steps-settled sound h here = (h, sound)
  Steps-settled sound h (next steps step) =
      let (h', sound') = Steps-settled sound h steps in
      (Step-settled sound' h' step, Step-IsSound sound' step)

-- From no approvals, in whatever order things happen: once a future has a result, whatever is done
-- after that, a wait for this request that returns gives this result. Of the decision of a user, the
-- cancellation of a node or of the task, and the timeout, the first counts.
pub first_decision :
    (timeout_seconds : Option ℕ) (k : String) (d e : ApprovalDecision) {s s' : System}
    → Steps (new_system timeout_seconds) s
    → get k s.manager.futures ≡ some (some d)
    → Steps s s'
    → get k s'.waits ≡ some (returned e)
    → e ≡ d
first_decision timeout_seconds k d e {s' = s'} before there after result =
    let (h, sound) = Steps-settled k d (Steps-IsSound timeout_seconds before) (inl there) after in
    elim h [
      | inl g ↦ absurd (cc (future_gone s' sound k (returned e) result refl, g))
      | inr (inl g) ↦ returned-injective (some-cancel (sym result ∙ g))
      | inr (inr g) ↦ absurd (cc (some-cancel (sym result ∙ g)))
    ]
