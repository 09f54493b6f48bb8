-- ===== src/Chat/Trees/Traversal.antt =====
-- The two stack loops of backend/core/chat/conversation.py visit each node of a tree once.
use chat_tree.Prelude.{
  ℕ, zero, suc, ◌+◌, String, ◌≡◌, refl, sym, ap, ◌∙◌, ◌==◌, Bool, true, false, not, ◌||◌, List, [],
  ◌∷◌, ◌++◌, append-nil, append_assoc, reverse, some, if◌then◌else◌, arith, Bool-cases, inl, inr,
}
use chat_tree.Dict.{Dict}
use chat_tree.Chat.Conversation.{Node, Conversation}
use mathlib.Core.List.{reverse-cons}
use native.Mathlib.Nat.{add-zero}
use chat_tree.Chat.Walks.{
  children_of, descendants_loop, get_descendant_node_ids, count_loop, count_nodes_in_branch,
}
use chat_tree.Chat.Trees.{Forest, nil, tree, roots, ids, size, Represents}

-- The identifiers that the loop keeps.
abbrev pub selected : Bool → String → List String → List String
selected include_self node_id [] = []
selected include_self node_id (k ∷ ks) =
    let rest = selected include_self node_id ks in
    if include_self || not (k == node_id) then k ∷ rest else rest

selected-append :
    (b : Bool) (k : String) (xs ys : List String)
    → selected b k (xs ++ ys) ≡ selected b k xs ++ selected b k ys
selected-append b k [] ys = refl
selected-append b k (x ∷ xs) ys = elim (Bool-cases (b || not (x == k))) [
  | inl e ↦ rw e (ap (λ l. x ∷ l) (selected-append b k xs ys))
  | inr e ↦ rw e (selected-append b k xs ys)
]

selected_all : (k : String) (xs : List String) → selected true k xs ≡ xs
selected_all k [] = refl
selected_all k (x ∷ xs) = ap (λ l. x ∷ l) (selected_all k xs)

selected_step :
    (t : Bool) (k : String) (result xs ys zs : List String)
    → zs ≡ xs ++ ys
    → ((if t then result ++ k ∷ [] else result) ++ xs) ++ ys ≡ result ++ (if t then k ∷ zs else zs)
selected_step true k result xs ys zs e =
    append_assoc (result ++ k ∷ []) xs ys
    ∙ append_assoc result (k ∷ []) (xs ++ ys)
    ∙ ap (λ l. result ++ k ∷ l) (sym e)
selected_step false k result xs ys zs e = append_assoc result xs ys ∙ ap (λ l. result ++ l) (sym e)

reverse_cons :
    (k : String) (xs stack : List String) → reverse (k ∷ xs) ++ stack ≡ reverse xs ++ k ∷ stack
reverse_cons k xs stack =
    ap (λ l. l ++ stack) (reverse-cons k xs) ∙ append_assoc (reverse xs) (k ∷ []) stack

descendants_forest :
    (nodes : Dict Node) (F : Forest) (fuel m : ℕ) (stack result : List String) (k : String)
    (b : Bool)
    → Represents nodes F
    → fuel ≡ size F + m
    → descendants_loop fuel (roots F ++ stack) result k b nodes
      ≡ descendants_loop m stack (result ++ selected b k (ids F)) k b nodes
unfolding descendants_loop
descendants_forest nodes nil fuel m stack result k b r e =
    let same : fuel ≡ m = omega arith in rw (same, append-nil) refl
descendants_forest nodes (tree n below rest) zero m stack result k b r e = absurd (omega arith)
descendants_forest nodes (tree n below rest) (suc fuel) m stack result k b r e =
    ap (λ l. descendants_loop fuel (l ++ (roots rest ++ stack)) result' k b nodes)
      (ap children_of r.0.0 ∙ r.0.1)
    ∙ descendants_forest nodes below fuel (size rest + m) (roots rest ++ stack) result' k b r.1
        (omega arith)
    ∙ descendants_forest nodes rest (size rest + m) m stack (result' ++ selected b k (ids below)) k
        b r.2 refl
    ∙ ap (λ l. descendants_loop m stack l k b nodes)
        (selected_step (b || not (n.id == k)) n.id result (selected b k (ids below))
          (selected b k (ids rest)) (selected b k (ids below ++ ids rest))
          (selected-append b k (ids below) (ids rest)))
  where
    result' : List String
    result' = if b || not (n.id == k) then result ++ n.id ∷ [] else result

-- On a conversation that holds the tree of a node, with fuel for each node and one round more or
-- any above, the loop of `get_descendant_node_ids` ends; its result is the identifiers of the
-- tree, each node before those below it, and without `include_self` those that are not the node's
-- own.
pub get_descendant_node_ids_lem :
    (c : Conversation) (n : Node) (below : Forest) (b : Bool) (m : ℕ)
    → Represents c.nodes (tree n below nil)
    → get_descendant_node_ids (size (tree n below nil) + suc m) n.id b c
      ≡ some (selected b n.id (ids (tree n below nil)))
unfolding get_descendant_node_ids
get_descendant_node_ids_lem c n below b m r =
    rw (r.0.0) (descendants_forest c.nodes (tree n below nil) _ (suc m) [] [] n.id b r refl)

count_forest :
    (nodes : Dict Node) (F : Forest) (fuel m : ℕ) (stack : List String) (count : ℕ)
    → Represents nodes F
    → fuel ≡ size F + m
    → count_loop fuel (reverse (roots F) ++ stack) count nodes
      ≡ count_loop m stack (count + size F) nodes
unfolding count_loop
count_forest nodes nil fuel m stack count r e =
    let same : fuel ≡ m = omega arith in rw (same, add-zero) refl
count_forest nodes (tree n below rest) fuel m stack count r e =
    ap (λ l. count_loop fuel l count nodes) (reverse_cons n.id (roots rest) stack)
    ∙ count_forest nodes rest fuel (suc (size below + m)) (n.id ∷ stack) count r.2 (omega arith)
    ∙ visit
    ∙ count_forest nodes below (size below + m) m stack (count + size rest + 1) r.1 refl
    ∙ ap (λ k. count_loop m stack k nodes) (omega arith)
  where
    visit :
        count_loop (suc (size below + m)) (n.id ∷ stack) (count + size rest) nodes
        ≡ count_loop (size below + m) (reverse (roots below) ++ stack) (count + size rest + 1) nodes
    visit = rw (r.0.0, count_loop) (rw (r.0.1) refl)

-- On a conversation that holds the tree of a node, with fuel for each node and one round more or
-- any above, the loop of `_count_nodes_in_branch` ends, and counts the nodes of the tree.
pub count_nodes_in_branch_lem :
    (c : Conversation) (n : Node) (below : Forest) (m : ℕ)
    → Represents c.nodes (tree n below nil)
    → count_nodes_in_branch (size (tree n below nil) + suc m) n.id c
      ≡ some (size (tree n below nil))
unfolding count_nodes_in_branch
count_nodes_in_branch_lem c n below m r =
    count_forest c.nodes (tree n below nil) _ (suc m) [] 0 r refl ∙ ap (λ k. some k) (omega arith)
