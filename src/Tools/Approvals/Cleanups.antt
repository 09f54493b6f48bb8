-- ===== src/Tools/Approvals/Cleanups.antt =====
-- What stays when requests of backend/core/tools/security/approval.py are resolved and cleaned up.
use chat_tree.Prelude.{
  String, ◌≡◌, refl, sym, ap, ◌∙◌, ◌==◌, eq_iff, Bool, true, false, none, some, List, [], ◌∷◌,
  is_some, ◌≢◌, inl, inr, Bool-cases, some-cancel, arith, Option-cases,
}
use chat_tree.Dict.{get, has}
use chat_tree.Tools.Approvals.Consistency.{
  is_live, IsConsistent, attempt, try_resolve-IsConsistent, try_resolve_others, try_resolve_future,
  cleanup_others, Agree,
}
use chat_tree.Tools.Approvals.Manager.{
  try_resolve, cancellation, cancel_all, cleanup, cleanup_cancelled_before_start,
}
use chat_tree.Tools.Approvals.Types.{ApprovalDecision, Future, Manager}
use chat_tree.Tools.Approvals.Waits.{Wait, is_waiting}

pub request_there :
    (k : String) (m : Manager)
    → IsConsistent m
    → (f : Future) → get k m.futures ≡ some f
    → has k m.requests ≡ true
request_there k m c f g = elim (Option-cases (get k m.requests)) [
  | inl e ↦
      let both : Agree k (get k m.requests) (get k m.futures) = c k in absurd (rw (e, g) at both)
  | inr (r, e) ↦ ap is_some e
]

pub request_gone :
    (k : String) (m : Manager) → IsConsistent m → get k m.futures ≡ none → has k m.requests ≡ false
request_gone k m c g = elim (Option-cases (get k m.requests)) [
  | inl e ↦ ap is_some e
  | inr (r, e) ↦
      let both : Agree k (get k m.requests) (get k m.futures) = c k in absurd (rw (e, g) at both)
]

pub cleanup_withdrawn :
    (k : String) (m : Manager)
    → has k m.requests ≡ true
    → cleanup_cancelled_before_start k true m ≡ cleanup k (try_resolve k cancellation m).1
unfolding cleanup_cancelled_before_start
cleanup_withdrawn k m h = rw h refl

pub cleanup_idle :
    (k : String) (b : Bool) (m : Manager)
    → has k m.requests ≡ false
    → cleanup_cancelled_before_start k b m ≡ m
unfolding cleanup_cancelled_before_start
cleanup_idle k true m h = rw h refl
cleanup_idle k false m h = refl

pub waiting_live : (w : Wait) → is_waiting w ≡ true → is_live (some w) ≡ true
waiting_live w l = ground arith

-- Resolving never replaces a result.
pub try_resolve_keeps :
    (j : String) (e : ApprovalDecision) (m : Manager) (k : String) (d : ApprovalDecision)
    → IsConsistent m
    → get k m.futures ≡ some (some d)
    → get k (try_resolve j e m).1.futures ≡ some (some d)
try_resolve_keeps j e m k d c h = elim (Bool-cases (k == j)) [
  | inl q ↦
      let same : k ≡ j = (eq_iff k j).0 q in
      let there : get j m.futures ≡ some (some d) = rw same at h in
      rw same (try_resolve_future j e m c (some d) there)
  | inr q ↦ try_resolve_others j e m c k (λ p. absurd (cc (q, (eq_iff k j).1 p))) ∙ h
]

-- What is resolved is not resolved again.
pub refused :
    (j : String) (e : ApprovalDecision) (m : Manager) (d : ApprovalDecision)
    → IsConsistent m
    → get j m.futures ≡ some (some d)
    → try_resolve j e m ≡ (false, m)
refused j e m d c h = elim (attempt j e m c) [
  | inl (g, t) ↦ t
  | inr (inl (e', g, t)) ↦ t
  | inr (inr (r, g, q, i, t)) ↦ absurd (cc (some-cancel (sym g ∙ h)))
]

pub cancel_all_keeps :
    (ks : List String) (m : Manager) (k : String) (d : ApprovalDecision)
    → IsConsistent m
    → get k m.futures ≡ some (some d)
    → get k (cancel_all ks m).futures ≡ some (some d)
unfolding cancel_all
cancel_all_keeps [] m k d c h = h
cancel_all_keeps (j ∷ ks) m k d c h =
    cancel_all_keeps ks (try_resolve j cancellation m).1 k d
      (try_resolve-IsConsistent j cancellation m c) (try_resolve_keeps j cancellation m k d c h)

pub called_back_others :
    (j : String) (b : Bool) (m : Manager)
    → IsConsistent m
    → (i : String) → i ≢ j
    → get i (cleanup_cancelled_before_start j b m).futures ≡ get i m.futures
unfolding cleanup_cancelled_before_start
called_back_others j false m c i ne = refl
called_back_others j true m c i ne = elim (Bool-cases (has j m.requests)) [
  | inl e ↦ rw e (
      cleanup_others j (try_resolve j cancellation m).1 i ne
      ∙ try_resolve_others j cancellation m c i ne)
  | inr e ↦ rw e refl
]
