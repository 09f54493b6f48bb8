-- ===== src/Tools/Approvals/Preservation.antt =====
-- Whatever the event loop, the users and the clock do with the approvals of
-- backend/core/tools/security/approval.py, requests, futures and tasks stay together.
use chat_tree.Prelude.{
  ℕ, String, ◌≡◌, refl, sym, ap, ◌∙◌, Bool, true, false, Option, none, some, is_some, ◌≢◌, inl, inr,
  Option-cases, ok, subst,
}
use chat_tree.Dict.{get, insert, get-empty}
use chat_tree.Dict.Keys.{get-insert_self, get-insert_ne}
use chat_tree.Tools.Approvals.Types.{pending, ApprovalRequest, ApprovalDecision, Future, Manager}
use chat_tree.Tools.Approvals.Manager.{
  new_manager, with_expiry, begin_request, try_resolve, decide, cancellation, requests_of_node,
  cancel_for_node, cleanup, cleanup_cancelled_before_start,
}
use chat_tree.Tools.Approvals.Waits.{
  Wait, created, waiting, cancelling, withdrawn, returned, stopped, failed, WaitEvent, completed,
  timed_out, interrupted, expiration, result_or_expired, wait_start, after_timeout,
  wait_for_decision, System, moved, cancel_task, was_stopped, called_back, is_ended, Step, begin,
  start, resume, withdraw, cancel, call_back, decision, cancel_node, Steps, here, next, new_system,
}
use chat_tree.Tools.Approvals.Consistency.{
  Agree, Track, is_live, is_withdrawn, is_failed, IsConsistent, IsTracked, IsSound, change_at,
  try_resolve-IsConsistent, try_resolve_others, try_resolve_future, cleanup-IsConsistent,
  cleanup_future, cleanup_others,
}
use chat_tree.Tools.Approvals.Methods.{
  try_resolve-Track, cancel_all-keeps, decide_ok, granted-keeps, begin_request_ok,
}
use chat_tree.Tools.Approvals.Cleanups.{
  request_there, request_gone, cleanup_withdrawn, cleanup_idle, waiting_live,
}

-- A change of one task and of the future of its request.
moved-IsSound :
    (k : String) (w : Wait) (m : Manager) (s : System)
    → IsSound s
    → IsConsistent m
    → ((j : String) → j ≢ k → get j m.futures ≡ get j s.manager.futures)
    → Track (get k m.futures) (some w)
    → IsSound (moved k (w, m) s)
moved-IsSound k w m s (c, t) c' others new = (
  c',
  change_at (λ j f v. Track f v) k s.manager.futures m.futures s.waits (insert k w s.waits)
      (rw (get-insert_self k w s.waits) new) others (λ j ne. get-insert_ne k j w s.waits ne) t,
)

module _ (s : System) (sound : IsSound s) where
  abbrev c : IsConsistent s.manager
  c = sound.0

  abbrev t : IsTracked s
  t = sound.1

  begin-IsSound :
      (now : ℕ) (r : ApprovalRequest) (m : Manager)
      → r.status ≡ pending
      → begin_request now r s.manager ≡ ok m
      → IsSound (moved r.id (created, m) s)
  begin-IsSound now r m fresh h =
      let (q, g) = begin_request_ok now r s.manager h in
      let r' = with_expiry now s.manager.timeout_seconds r in
      let there : get r.id m.requests ≡ some r' =
        rw q (get-insert_self r.id r' s.manager.requests) in
      let opened : get r.id m.futures ≡ some none =
        rw g (get-insert_self r.id none s.manager.futures) in
      let others : (j : String) → j ≢ r.id → get j m.futures ≡ get j s.manager.futures =
        λ j ne. rw g (get-insert_ne r.id j none s.manager.futures ne) in
      moved-IsSound r.id created m s sound
        (change_at Agree r.id s.manager.requests m.requests s.manager.futures m.futures
          (rw (there, opened) (refl, fresh))
          (λ j ne. rw q (get-insert_ne r.id j r' s.manager.requests ne)) others c)
        others (rw opened (refl, (λ e. absurd (cc e)), refl))

  Track-there :
      (k : String) (w : Wait) → get k s.waits ≡ some w → Track (get k s.manager.futures) (some w)
  Track-there k w e = let h : Track (get k s.manager.futures) (get k s.waits) = t k in rw e at h

  pub live_there :
      (k : String) (w : Wait)
      → get k s.waits ≡ some w
      → is_live (some w) ≡ true
      → (f : Future) × (get k s.manager.futures ≡ some f)
  live_there k w e l = elim (Option-cases (get k s.manager.futures)) [
    | inl g ↦ absurd (cc (ap is_some g, (Track-there k w e).0, l))
    | inr found ↦ found
  ]

  pub future_gone :
      (k : String) (w : Wait)
      → get k s.waits ≡ some w
      → is_live (some w) ≡ false
      → get k s.manager.futures ≡ none
  future_gone k w e l = elim (Option-cases (get k s.manager.futures)) [
    | inl g ↦ g
    | inr (f, g) ↦ absurd (cc (ap is_some g, (Track-there k w e).0, l))
  ]

  start-IsSound :
      (k : String)
      → get k s.waits ≡ some created
      → IsSound (moved k (wait_start k s.manager, s.manager) s)
  unfolding wait_start
  start-IsSound k e =
      let (f, g) = live_there k created e refl in
      moved-IsSound k (wait_start k s.manager) s.manager s sound c (λ j ne. refl)
        (rw g (refl, (λ x. absurd (cc x)), refl))

  -- The task is done and the request is gone.
  ended-IsSound :
      (k : String) (w : Wait)
      → is_live (some w) ≡ false
      → is_failed (some w) ≡ false
      → is_withdrawn (some w) ≡ false
      → (m : Manager) → IsConsistent m
      → ((j : String) → j ≢ k → get j m.futures ≡ get j s.manager.futures)
      → IsSound (moved k (w, cleanup k m) s)
  ended-IsSound k w l f v m c' others =
      moved-IsSound k w (cleanup k m) s sound (cleanup-IsConsistent k m c')
        (λ j ne. cleanup_others k m j ne ∙ others j ne)
        (rw (cleanup_future k m) (l, (λ x. absurd (cc (v, x))), f))

  tried-IsSound :
      (k : String) (d : ApprovalDecision) (w : Wait)
      → is_live (some w) ≡ false
      → is_failed (some w) ≡ false
      → is_withdrawn (some w) ≡ false
      → IsSound (moved k (w, cleanup k (try_resolve k d s.manager).1) s)
  tried-IsSound k d w l f v =
      ended-IsSound k w l f v (try_resolve k d s.manager).1
        (try_resolve-IsConsistent k d s.manager c) (try_resolve_others k d s.manager c)

  timeout-IsSound :
      (k : String) (r : Bool × Manager)
      → try_resolve k expiration s.manager ≡ r
      → IsSound (moved k (after_timeout k s.manager r) s)
  timeout-IsSound k (true, m) e =
      subst (λ x. IsSound (moved k (returned expiration, cleanup k x) s)) (ap (λ x. x.1) e)
        (tried-IsSound k expiration (returned expiration) refl refl refl)
  timeout-IsSound k (false, m) e =
      let result = returned (result_or_expired (get k s.manager.futures)) in
      subst (λ x. IsSound (moved k (result, cleanup k x) s)) (ap (λ x. x.1) e)
        (tried-IsSound k expiration result refl refl refl)

  resume-IsSound :
      (k : String) (event : WaitEvent) → IsSound (moved k (wait_for_decision event k s.manager) s)
  unfolding wait_for_decision
  resume-IsSound k (completed d) =
      ended-IsSound k (returned d) refl refl refl s.manager c (λ j ne. refl)
  resume-IsSound k interrupted = tried-IsSound k cancellation stopped refl refl refl
  resume-IsSound k timed_out = timeout-IsSound k (try_resolve k expiration s.manager) refl

  cancel-IsSound :
      (k : String) (w v : Wait)
      → get k s.waits ≡ some w
      → is_live (some w) ≡ true
      → is_live (some v) ≡ true
      → is_failed (some v) ≡ false
      → IsSound (cancel_task k v s)
  cancel-IsSound k w v e l l' n =
      let (f, g) = live_there k w e l in
      moved-IsSound k v (try_resolve k cancellation s.manager).1 s sound
        (try_resolve-IsConsistent k cancellation s.manager c)
        (try_resolve_others k cancellation s.manager c)
        (rw (try_resolve_future k cancellation s.manager c f g) (l', (λ x. refl), n))

  decision-IsSound :
      (k verdict scope : String) (d : ApprovalDecision) (m : Manager)
      → decide k verdict scope s.manager ≡ ok (d, m)
      → IsSound (record s { manager = m })
  decision-IsSound k verdict scope d m h =
      let (r, g, v, e, accepted, left') = decide_ok k verdict scope s.manager h in
      let m' = (try_resolve k d s.manager).1 in
      let (q, f, z) = granted-keeps verdict scope r m' in
      let c' = try_resolve-IsConsistent k d s.manager c in
      (
        (λ j. rw (left', q, f) (c' j)),
        (λ j. rw (left', f) (try_resolve-Track k d s.manager c j (get j s.waits) (t j))),
      )

  cancel_node-IsSound :
      (node_id : String) → IsSound (record s { manager = cancel_for_node node_id s.manager })
  unfolding cancel_for_node
  cancel_node-IsSound node_id =
      let ks = requests_of_node node_id s.manager.requests in
      let (c', keep) = cancel_all-keeps ks s.manager c in (c', λ j. keep j (get j s.waits) (t j))

  -- A task that ended has no request, and its callback does nothing.
  idle-IsSound :
      (k : String) (w : Wait)
      → get k s.waits ≡ some w
      → is_live (some w) ≡ false
      → is_failed (some w) ≡ false
      → is_withdrawn (some w) ≡ false
      → IsSound (moved k (w, cleanup_cancelled_before_start k (was_stopped w) s.manager) s)
  idle-IsSound k w e l f v =
      let gone : get k s.manager.futures ≡ none = future_gone k w e l in
      subst (λ m. IsSound (moved k (w, m) s))
        (sym (cleanup_idle k (was_stopped w) s.manager (request_gone k s.manager c gone)))
        (moved-IsSound k w s.manager s sound c (λ j ne. refl) (Track-there k w e))

  call_back-IsSound :
      (k : String) (w : Wait)
      → get k s.waits ≡ some w
      → is_ended w ≡ true
      → IsSound
          (moved k (called_back w, cleanup_cancelled_before_start k (was_stopped w) s.manager) s)
  call_back-IsSound k withdrawn e d =
      let (f, g) = live_there k withdrawn e refl in
      subst (λ m. IsSound (moved k (stopped, m) s))
        (sym (cleanup_withdrawn k s.manager (request_there k s.manager c f g)))
        (tried-IsSound k cancellation stopped refl refl refl)
  call_back-IsSound k created e d = absurd (cc d)
  call_back-IsSound k waiting e d = absurd (cc d)
  call_back-IsSound k cancelling e d = absurd (cc d)
  call_back-IsSound k (returned v) e d = idle-IsSound k (returned v) e refl refl refl
  call_back-IsSound k stopped e d = idle-IsSound k stopped e refl refl refl
  call_back-IsSound k failed e d = absurd (cc ((Track-there k failed e).2))

pub Step-IsSound : {s s' : System} → IsSound s → Step s s' → IsSound s'
Step-IsSound {s} h (begin now r m absent fresh made) = begin-IsSound s h now r m fresh made
Step-IsSound {s} h (start k e) = start-IsSound s h k e
Step-IsSound {s} h (resume k w event e l may) = resume-IsSound s h k event
Step-IsSound {s} h (withdraw k e) = cancel-IsSound s h k created withdrawn e refl refl refl
Step-IsSound {s} h (cancel k w e l) =
    cancel-IsSound s h k w cancelling e (waiting_live w l) refl refl
Step-IsSound {s} h (call_back k w e d) = call_back-IsSound s h k w e d
Step-IsSound {s} h (decision k verdict scope d m made) =
    decision-IsSound s h k verdict scope d m made
Step-IsSound {s} h (cancel_node node_id) = cancel_node-IsSound s h node_id

new_system-IsSound : (timeout_seconds : Option ℕ) → IsSound (new_system timeout_seconds)
unfolding new_manager
new_system-IsSound timeout_seconds = (
  (λ k. rw (get-empty {V = ApprovalRequest} k, get-empty {V = Future} k) tt),
  (λ k. rw (get-empty {V = Wait} k, get-empty {V = Future} k) (refl, (λ e. absurd (cc e)), refl)),
)

-- In whatever order requests begin, their tasks run, wait, time out, are cancelled and called back,
-- users decide and nodes are cancelled, from no approvals and with an identifier of its own for
-- every request: a request is there exactly while its future is, under its own identifier and with
-- the status that the future gives; and it is there exactly until its task has ended, or has been
-- called back where it was cancelled before it ran. A task that is cancelled and has not ended yet
-- has a request that is resolved, and no task ends by the `KeyError` of a future that is missing.
pub Steps-IsSound :
    (timeout_seconds : Option ℕ) {s : System} → Steps (new_system timeout_seconds) s → IsSound s
Steps-IsSound timeout_seconds here = new_system-IsSound timeout_seconds
Steps-IsSound timeout_seconds (next steps step) =
    Step-IsSound (Steps-IsSound timeout_seconds steps) step
