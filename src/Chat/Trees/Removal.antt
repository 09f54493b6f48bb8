-- ===== src/Chat/Trees/Removal.antt =====
-- The recursive deletion of backend/core/chat/conversation.py takes out exactly the nodes of a tree.
use chat_tree.Prelude.{
  ℕ, zero, suc, ◌≤◌, String, ◌≡◌, refl, ap, ◌∙◌, ◌==◌, eq_iff, true, false, ◌||◌, List, [], ◌∷◌,
  ◌++◌, none, some, ◌⊎◌, arith, ok, if◌then◌else◌, Bool-cases, inl, inr,
}
use chat_tree.Dict.{Dict, get, remove, get-remove}
use chat_tree.Chat.Conversation.{Node, contains}
use chat_tree.Chat.Deletion.{then_delete, Deletion, delete_all, delete_key, delete_recursive}
use chat_tree.Chat.Trees.{Forest, nil, tree, roots, ids, height, Represents, IsDistinct}

pub contains-append :
    (k : String) (xs ys : List String) → contains k (xs ++ ys) ≡ (contains k xs || contains k ys)
contains-append k [] ys = refl
contains-append k (x ∷ xs) ys = ground (arith, contains-append k xs ys)

-- The nodes of the trees are gone, and the others are as they were.
abbrev pub Removed : Forest → Dict Node → Dict Node → Type 0
Removed F nodes nodes' =
    (k : String) → get k nodes' ≡ (if contains k (ids F) then none else get k nodes)

Represents-agree :
    (F : Forest) (nodes nodes' : Dict Node)
    → ((k : String) → contains k (ids F) ≡ true → get k nodes' ≡ get k nodes)
    → Represents nodes F
    → Represents nodes' F
Represents-agree nil nodes nodes' agree r = tt
Represents-agree (tree n below rest) nodes nodes' agree r = (
  (agree n.id (ground (arith, eq_iff n.id n.id)) ∙ r.0.0, r.0.1, r.0.2),
  Represents-agree below nodes nodes'
      (λ k h. agree k (ground (arith, contains-append k (ids below) (ids rest)))) r.1,
  Represents-agree rest nodes nodes'
      (λ k h. agree k (ground (arith, contains-append k (ids below) (ids rest)))) r.2,
)

-- After the nodes below `n` and `n` itself are taken out, the trees that follow stand as before.
rest_agrees :
    (n : Node) (below rest : Forest) (nodes nodes₁ : Dict Node)
    → IsDistinct (tree n below rest)
    → Removed below nodes nodes₁
    → (k : String) → contains k (ids rest) ≡ true
    → get k (remove n.id nodes₁) ≡ get k nodes
rest_agrees n below rest nodes nodes₁ d rem k h =
    get-remove n.id k nodes₁ ∙ other (Bool-cases (n.id == k)) (Bool-cases (contains k (ids below)))
  where
    other :
        ((n.id == k) ≡ true) ⊎ ((n.id == k) ≡ false)
        → (contains k (ids below) ≡ true) ⊎ (contains k (ids below) ≡ false)
        → (if n.id == k then none else get k nodes₁) ≡ get k nodes
    other (inl e) b = absurd (cc (h, d.1, ap (λ x. contains x (ids rest)) ((eq_iff n.id k).0 e)))
    other (inr e) (inl b) = absurd (cc (h, d.2 k b))
    other (inr e) (inr b) = rw e (rem k ∙ rw b refl)

delete_key_there :
    (k : String) (nodes : Dict Node) {n : Node}
    → get k nodes ≡ some n
    → delete_key k (ok tt, nodes) ≡ (ok tt, remove k nodes)
unfolding delete_key
delete_key_there k nodes h = rw h refl

delete_all_cons :
    (delete : String → Dict Node → Deletion) (k : String) (ks : List String)
    (nodes nodes' : Dict Node)
    → delete k nodes ≡ (ok tt, nodes')
    → delete_all delete (k ∷ ks) nodes ≡ delete_all delete ks nodes'
unfolding delete_all
delete_all_cons delete k ks nodes nodes' h =
    ap (λ x. then_delete x (λ ns. delete_all delete ks ns)) h

delete_tree :
    (n : Node) (below : Forest) (depth : ℕ) (nodes nodes₁ : Dict Node)
    → get n.id nodes ≡ some n
    → n.children_ids ≡ roots below
    → delete_all (λ child nodes'. delete_recursive depth child nodes') (roots below) nodes
      ≡ (ok tt, nodes₁)
    → get n.id nodes₁ ≡ some n
    → delete_recursive (suc depth) n.id nodes ≡ (ok tt, remove n.id nodes₁)
unfolding delete_recursive
delete_tree n below depth nodes nodes₁ there kids done left =
    rw (there, delete_recursive)
      (ap (delete_key n.id) (
          ap (λ l. delete_all (λ child nodes'. delete_recursive depth child nodes') l nodes) kids
          ∙ done)
        ∙ delete_key_there n.id nodes₁ left)

pub delete_forest :
    (F : Forest) (depth : ℕ) (nodes : Dict Node)
    → Represents nodes F
    → IsDistinct F
    → height F ≤ depth
    → (nodes' : Dict Node) × (delete_all
          (λ child nodes''. delete_recursive depth child nodes'')
          (roots F)
          nodes
        ≡ (ok tt, nodes'))
      × Removed F nodes nodes'
delete_forest nil depth nodes r d h = (nodes, unfold delete_all in refl, λ k. refl)
delete_forest (tree n below rest) zero nodes r d h = absurd (omega arith)
delete_forest (tree n below rest) (suc depth) nodes r d h =
    let (nodes₁, e₁, rem₁) = delete_forest below depth nodes r.1 d.3 (omega arith) in
    let nodes₂ = remove n.id nodes₁ in
    let first : delete_recursive (suc depth) n.id nodes ≡ (ok tt, nodes₂) =
      delete_tree n below depth nodes nodes₁ r.0.0 r.0.1 e₁ (rem₁ n.id ∙ rw d.0 r.0.0) in
    let (nodes₃, e₃, rem₃) =
      delete_forest rest (suc depth) nodes₂
        (Represents-agree rest nodes nodes₂ (rest_agrees n below rest nodes nodes₁ d rem₁) r.2) d.4
        (omega arith) in
    (
      nodes₃,
      delete_all_cons _ n.id (roots rest) nodes nodes₂ first ∙ e₃,
      λ k. ground (
        arith,
        rem₃ k,
        get-remove n.id k nodes₁,
        rem₁ k,
        contains-append k (ids below) (ids rest),
      ),
    )
