-- ===== src/Chat/Trees/Display.antt =====
-- The tree that backend/core/chat/conversation.py shows.
use chat_tree.Prelude.{
  ℕ, zero, suc, ◌+◌, ◌≤◌, String, ◌≡◌, refl, ◌∙◌, ◌==◌, false, List, [], ◌∷◌, ◌++◌, append-nil,
  none, some, Option, arith, ok, ◌>>=◌, true, Bool, not, length, ltb, ap,
}
use chat_tree.Dict.{get}
use chat_tree.Chat.Conversation.{Node, Conversation}
use chat_tree.Chat.Walks.{DisplayInfo, display_info, is_id, extend_all, get_node_tree}
use chat_tree.Chat.Trees.{Forest, nil, tree, roots, height, Represents}

abbrev is_nil : Forest → Bool
is_nil nil = true
is_nil (tree n below rest) = false

-- How many trees there are.
abbrev trees : Forest → ℕ
trees nil = 0
trees (tree n below rest) = suc (trees rest)

-- Whether the node is the current one.
abbrev is_shown : String → Option String → Bool
is_shown k current = elim current [ none ↦ false | some j ↦ k == j ]

-- What is shown of a node with the trees below it.
abbrev shown : Node → Forest → ℕ → Option String → DisplayInfo
shown n below level current = record {
  id = n.id;
  level = level;
  is_current = is_shown n.id current;
  has_children = not (is_nil below);
  children_count = trees below;
  timestamp = n.timestamp;
  model_id = n.model_id;
}

-- What is shown of the nodes of the trees, each before those below it and one level above them.
pub displayed : Option String → ℕ → Forest → List DisplayInfo
displayed current level nil = []
displayed current level (tree n below rest) =
    shown n below level current
    ∷ (displayed current (level + 1) below ++ displayed current level rest)

length-roots : (F : Forest) → length (roots F) ≡ trees F
length-roots nil = refl
length-roots (tree n below rest) = ap suc (length-roots rest)

has_roots : (F : Forest) → ltb 0 (trees F) ≡ not (is_nil F)
has_roots nil = refl
has_roots (tree n below rest) = ground arith

shown_current : (k : String) (current : Option String) → is_id k current ≡ is_shown k current
shown_current k none = refl
shown_current k (some j) = refl

-- The information on a node over its trees.
display_info-roots :
    (n : Node) (below : Forest) (level : ℕ) (current : Option String)
    → n.children_ids ≡ roots below
    → display_info n level current ≡ shown n below level current
unfolding display_info
display_info-roots n below level current h =
    rw (h, length-roots below, has_roots below, shown_current n.id current) refl

shown_node :
    (c : Conversation) (n : Node) (depth level : ℕ)
    → get n.id c.nodes ≡ some n
    → (n.id == "") ≡ false
    → get_node_tree (suc depth) c (some n.id) level ≡ (
        extend_all (λ child. get_node_tree depth c (some child) (level + 1)) n.children_ids
        >>= λ rest. ok (display_info n level c.current_node_id ∷ rest))
unfolding get_node_tree
shown_node c n depth level there ne =
    rw (ne, get_node_tree) (rw (ne, get_node_tree) (rw there refl))

extend_all_forest :
    (c : Conversation) (F : Forest) (depth level : ℕ)
    → Represents c.nodes F
    → height F ≤ depth
    → extend_all (λ child. get_node_tree depth c (some child) level) (roots F)
      ≡ ok (displayed c.current_node_id level F)
unfolding extend_all displayed
extend_all_forest c nil depth level r h = refl
extend_all_forest c (tree n below rest) zero level r h = absurd (omega arith)
extend_all_forest c (tree n below rest) (suc depth) level r h =
    let first : get_node_tree (suc depth) c (some n.id) level
        ≡ ok (
            shown n below level c.current_node_id ∷ displayed c.current_node_id (level + 1) below) =
      shown_node c n depth level r.0.0 r.0.2
      ∙ rw (display_info-roots n below level c.current_node_id r.0.1)
          (rw (r.0.1) (rw (extend_all_forest c below depth (level + 1) r.1 (omega arith)) refl)) in
    rw first (rw (extend_all_forest c rest (suc depth) level r.2 (omega arith)) refl)

-- On a conversation that holds the tree of a node, where the calls may nest as deep as the tree
-- is high, `get_node_tree` of the node shows each node once, before those below it: its identifier,
-- its depth as its level, whether it is the current node, whether and how many trees are below it,
-- and its time and model.
pub get_node_tree_lem :
    (c : Conversation) (n : Node) (below : Forest) (depth : ℕ)
    → Represents c.nodes (tree n below nil)
    → height (tree n below nil) ≤ depth
    → get_node_tree depth c (some n.id) 0 ≡ ok (displayed c.current_node_id 0 (tree n below nil))
unfolding displayed
get_node_tree_lem c n below zero r h = absurd (omega arith)
get_node_tree_lem c n below (suc depth) r h =
    shown_node c n depth 0 r.0.0 r.0.2
    ∙ rw (display_info-roots n below 0 c.current_node_id r.0.1)
        (rw (r.0.1) (rw (extend_all_forest c below depth 1 r.1 (omega arith)) (rw append-nil refl)))
