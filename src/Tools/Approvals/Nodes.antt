-- ===== src/Tools/Approvals/Nodes.antt =====
-- The cancellation of the requests of a node, in backend/core/tools/security/approval.py.
use chat_tree.Prelude.{
  ℕ, String, ◌≡◌, refl, sym, ap, ◌∙◌, ◌==◌, eq_iff, true, Option, some, List, [], ◌∷◌, inl, inr,
  Bool-cases, some-cancel, subst,
}
use chat_tree.Dict.{Dict, get}
use chat_tree.Chat.Conversation.{contains}
use chat_tree.Tools.Approvals.Types.{ApprovalRequest, Future, Manager}
use chat_tree.Tools.Approvals.Manager.{
  try_resolve, cancellation, cancel_all, requests_of_node, cancel_for_node,
}
use chat_tree.Tools.Approvals.Waits.{System, Steps, new_system}
use chat_tree.Tools.Approvals.Consistency.{
  IsConsistent, first_result, try_resolve-IsConsistent, try_resolve_others, try_resolve_future,
}
use chat_tree.Tools.Approvals.Preservation.{Steps-IsSound}
use chat_tree.Tools.Approvals.Cleanups.{cancel_all_keeps}

cancel_all_future :
    (k : String) (ks : List String) (m : Manager) (f : Future)
    → IsConsistent m
    → contains k ks ≡ true
    → get k m.futures ≡ some f
    → get k (cancel_all ks m).futures ≡ some (some (first_result cancellation f))
unfolding cancel_all
cancel_all_future k [] m f c h there = absurd (cc h)
cancel_all_future k (j ∷ ks) m f c h there = elim (Bool-cases (j == k)) [
  | inl e ↦
      let same : j ≡ k = (eq_iff j k).0 e in
      let at_j : get j m.futures ≡ some f = rw same there in
      let tried = (try_resolve j cancellation m).1.futures in
      let now =
        subst (λ i. get i tried ≡ some (some (first_result cancellation f))) same
          (try_resolve_future j cancellation m c f at_j) in
      cancel_all_keeps ks (try_resolve j cancellation m).1 k (first_result cancellation f)
        (try_resolve-IsConsistent j cancellation m c) now
  | inr e ↦
      cancel_all_future k ks (try_resolve j cancellation m).1 f
        (try_resolve-IsConsistent j cancellation m c) (rw e at h)
        (try_resolve_others j cancellation m c k (λ p. absurd (cc (e, (eq_iff j k).1 (sym p))))
          ∙ there)
]

node_listed :
    (node_id k : String) (d : Dict ApprovalRequest) {r : ApprovalRequest}
    → get k d ≡ some r
    → r.node_id ≡ node_id
    → contains k (requests_of_node node_id d) ≡ true
unfolding get requests_of_node
node_listed node_id k [] h n = absurd (cc h)
node_listed node_id k ((j, r') ∷ d) h n = elim (Bool-cases (j == k)) [
  | inl e ↦
      let same = some-cancel (rw e at h) in
      let named : (r'.node_id == node_id) ≡ true =
        (eq_iff r'.node_id node_id).1 (ap (λ (x : ApprovalRequest). x.node_id) same ∙ n) in
      rw named (rw e refl)
  | inr e ↦
      let later = node_listed node_id k d (rw e at h) n in
      elim (Bool-cases (r'.node_id == node_id)) [ inl m ↦ rw (m, e) later | inr m ↦ rw m later ]
]

-- From no approvals, in whatever order things happened before: when a node is cancelled, every
-- request of this node that is there has a result, which is what it had, or the cancellation.
pub cancel_for_node_lem :
    (timeout_seconds : Option ℕ) (node_id k : String) (r : ApprovalRequest) (f : Future)
    {s : System}
    → Steps (new_system timeout_seconds) s
    → get k s.manager.requests ≡ some r
    → r.node_id ≡ node_id
    → get k s.manager.futures ≡ some f
    → get k (cancel_for_node node_id s.manager).futures ≡ some (some (first_result cancellation f))
unfolding cancel_for_node
cancel_for_node_lem timeout_seconds node_id k r f {s} before there n g =
    cancel_all_future k (requests_of_node node_id s.manager.requests) s.manager f
      (Steps-IsSound timeout_seconds before).0 (node_listed node_id k s.manager.requests there n) g
