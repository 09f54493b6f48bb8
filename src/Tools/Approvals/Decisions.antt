-- ===== src/Tools/Approvals/Decisions.antt =====
-- That a decision reaches the tool that waits for it, in backend/core/tools/security/approval.py.
use chat_tree.Prelude.{
  ℕ, String, ◌≡◌, refl, sym, ◌∙◌, true, false, ◌⊎◌, Option, none, some, inl, inr, Bool-cases,
  some-cancel, ok,
}
use chat_tree.Dict.{get}
use chat_tree.Dict.Keys.{get-insert_self, get-remove_self}
use chat_tree.Tools.Approvals.Types.{
  pending, Verdict, approved, denied, ApprovalRequest, ApprovalDecision, Future, Manager,
}
use chat_tree.Tools.Approvals.Manager.{granted, resolved, verdict_of, decide, cleanup}
use chat_tree.Tools.Approvals.Waits.{
  Wait, created, waiting, cancelling, withdrawn, returned, stopped, failed, completed, wait_start,
  WaitEvent, is_waiting, MayHappen, wait_for_decision, System, moved, start, resume, Steps, here,
  next, new_system,
}
use chat_tree.Tools.Approvals.Consistency.{
  Agree, Track, is_live, is_withdrawn, IsConsistent, attempt,
}
use chat_tree.Tools.Approvals.Methods.{granted-keeps}
use chat_tree.Tools.Approvals.Preservation.{Steps-IsSound}

open_future :
    (k : String) (r : ApprovalRequest) (f : Option Future)
    → Agree k (some r) f
    → r.status ≡ pending
    → f ≡ some none
open_future k r none a p = absurd a
open_future k r (some none) a p = refl
open_future k r (some (some d)) (i, q) p = absurd (cc (sym p ∙ q))

-- A decision on a request that is pending.
decide_accepts :
    (k verdict scope : String) (v : Verdict) (r : ApprovalRequest) (m : Manager)
    → IsConsistent m
    → get k m.requests ≡ some r
    → r.status ≡ pending
    → verdict_of verdict ≡ ok v
    → let d : ApprovalDecision = record { status = v; scope = some scope } in
      decide k verdict scope m ≡ ok (d, granted verdict scope r (resolved k d r m))
unfolding decide
decide_accepts k verdict scope v r m c there p e =
    let d : ApprovalDecision = record { status = v; scope = some scope } in
    let both : Agree k (get k m.requests) (get k m.futures) = c k in
    let g = open_future k r (get k m.futures) (rw there at both) p in
    elim (attempt k d m c) [
      | inl (absent, t) ↦ absurd (cc (absent, g))
      | inr (inl (d', already, t)) ↦ absurd (cc (sym already ∙ g))
      | inr (inr (r', g', there', i, t)) ↦
          rw (there, decide, e, t, some-cancel (sym there' ∙ there)) refl
    ]

-- The steps of the task of one request, run by the event loop: that it starts, and that it goes on
-- from its `await`. Nothing else happens between them.
pub data TaskSteps (k : String) (s : System) : System → Type 0 where
  done : TaskSteps k s s
  starts :
      {t : System}
      → TaskSteps k s t
      → get k t.waits ≡ some created
      → TaskSteps k s (moved k (wait_start k t.manager, t.manager) t)
  resumes :
      {t : System} (w : Wait) (event : WaitEvent)
      → TaskSteps k s t
      → get k t.waits ≡ some w
      → is_waiting w ≡ true
      → MayHappen event k w t
      → TaskSteps k s (moved k (wait_for_decision event k t.manager) t)

pub TaskSteps-Steps : {k : String} {s t : System} → TaskSteps k s t → Steps s t
TaskSteps-Steps done = here
TaskSteps-Steps {k} (starts before e) = next (TaskSteps-Steps before) (start k e)
TaskSteps-Steps {k} (resumes w event before e l may) =
    next (TaskSteps-Steps before) (resume k w event e l may)

-- The task of the request returns its decision, and the request is gone.
abbrev pub HasEnded : String → ApprovalDecision → System → Type 0
HasEnded k d s = (get k s.waits ≡ some (returned d)) × (get k s.manager.requests ≡ none)

module _ (k : String) (d : ApprovalDecision) where
  resumed :
      {s : System} (t : System)
      → TaskSteps k s t
      → get k t.manager.futures ≡ some (some d)
      → get k t.waits ≡ some waiting
      → (s' : System) × TaskSteps k s s' × HasEnded k d s'
  unfolding wait_for_decision cleanup
  resumed t before there e = (
    moved k (wait_for_decision (completed d) k t.manager) t,
    resumes waiting (completed d) before e refl there,
    (get-insert_self k (returned d) t.waits, get-remove_self k t.manager.requests),
  )

  started :
      (s : System)
      → get k s.manager.futures ≡ some (some d)
      → get k s.waits ≡ some created
      → (s' : System) × TaskSteps k s s' × HasEnded k d s'
  unfolding wait_start
  started s there e =
      resumed (moved k (wait_start k s.manager, s.manager) s) (starts done e) there
        (get-insert_self k (wait_start k s.manager) s.waits ∙ rw there refl)

  -- A task whose request has a result that is not its cancellation.
  ended_from :
      (s : System) (w : Wait)
      → get k s.manager.futures ≡ some (some d)
      → get k s.waits ≡ some w
      → is_live (some w) ≡ true
      → is_withdrawn (some w) ≡ false
      → (s' : System) × TaskSteps k s s' × HasEnded k d s'
  ended_from s created there e l v = started s there e
  ended_from s waiting there e l v = resumed s done there e
  ended_from s cancelling there e l v = absurd (cc v)
  ended_from s withdrawn there e l v = absurd (cc v)
  ended_from s (returned d') there e l v = absurd (cc l)
  ended_from s stopped there e l v = absurd (cc l)
  ended_from s failed there e l v = absurd (cc l)

live_task :
    (w : Option Wait)
    → Track (some none) w
    → (v : Wait) × (w ≡ some v) × (is_live (some v) ≡ true) × (is_withdrawn (some v) ≡ false)
live_task none (l, s, n) = absurd (cc l)
live_task (some v) (l, s, n) = (v, refl, l, calm)
  where
    calm : is_withdrawn (some v) ≡ false
    calm = elim (Bool-cases (is_withdrawn (some v))) [ inl e ↦ absurd (cc (s e)) | inr e ↦ e ]

-- The two words that a user may decide by, and the status that each stands for.
abbrev pub IsVerdict : String → Verdict → Type 0
IsVerdict verdict v = ((verdict ≡ "approve") × (v ≡ approved)) ⊎ ((verdict ≡ "deny") × (v ≡ denied))

verdict_known : (verdict : String) (v : Verdict) → IsVerdict verdict v → verdict_of verdict ≡ ok v
unfolding verdict_of
verdict_known verdict v (inl (e, q)) = rw (e, q) refl
verdict_known verdict v (inr (e, q)) = rw (e, q) refl

-- From no approvals, in whatever order things happened before: a decision, "approve" or "deny", on
-- a request that is pending is accepted, and there are steps of the task of this request alone,
-- taken one after the other from the state that the decision left, after which the task has
-- returned the status approved or denied, as decided, with the scope of the decision, and the request is no longer there.
pub decide-Steps :
    (timeout_seconds : Option ℕ) (k verdict scope : String) (v : Verdict) (r : ApprovalRequest)
    {s : System}
    → Steps (new_system timeout_seconds) s
    → get k s.manager.requests ≡ some r
    → r.status ≡ pending
    → IsVerdict verdict v
    → let d : ApprovalDecision = record { status = v; scope = some scope } in
      (m : Manager) × (decide k verdict scope s.manager ≡ ok (d, m))
      × (s' : System) × TaskSteps k (record s { manager = m }) s'
      × HasEnded k d s'
decide-Steps timeout_seconds k verdict scope v r {s} before there p known =
    let sound = Steps-IsSound timeout_seconds before in
    let d : ApprovalDecision = record { status = v; scope = some scope } in
    let both : Agree k (get k s.manager.requests) (get k s.manager.futures) = sound.0 k in
    let opened = open_future k r (get k s.manager.futures) (rw there at both) p in
    let tracked : Track (get k s.manager.futures) (get k s.waits) = sound.1 k in
    let (w, found, live, calm) = live_task (get k s.waits) (rw opened at tracked) in
    let m = granted verdict scope r (resolved k d r s.manager) in
    let keeps = granted-keeps verdict scope r (resolved k d r s.manager) in
    let stored : get k m.futures ≡ some (some d) =
      rw keeps.1 (get-insert_self k (some d) s.manager.futures) in
    let (s', steps, ended) = ended_from k d (record s { manager = m }) w stored found live calm in
    let e = verdict_known verdict v known in
    (m, decide_accepts k verdict scope v r s.manager sound.0 there p e, s', steps, ended)
