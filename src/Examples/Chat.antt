-- ===== src/Examples/Chat.antt =====
-- Examples for the trees of conversations.
use chat_tree.Prelude.{
  String, ◌≡◌, refl, ◌+◌, true, false, none, some, List, [], ◌∷◌, ok, arith, ◌==◌, if◌then◌else◌,
  ne→eq_false, ap, ◌||◌,
}
use chat_tree.Dict.{get}
use chat_tree.Chat.Usage.{estimated_usage, usage_total, add_usage, usage_total-add_usage}
use chat_tree.Chat.Conversation.{Node, Conversation, create_node, new_conversation, contains}
use chat_tree.Chat.Walks.{get_node_tree, get_descendant_node_ids, count_nodes_in_branch}
use chat_tree.Chat.Deletion.{del_node, is_current}
use chat_tree.Chat.Trees.{Forest, nil, tree, ids, size, Represents, IsDistinct}
use chat_tree.Chat.Trees.Traversal.{
  selected, get_descendant_node_ids_lem, count_nodes_in_branch_lem,
}
use chat_tree.Chat.Trees.Display.{displayed, get_node_tree_lem}
use chat_tree.Chat.Trees.Removal.{Removed}
use chat_tree.Chat.Trees.NodeDeletion.{
  unlinked, del_node_lem, del_node_current_below, del_node_root,
}

abbrev node : String → String → List String → Node
node id parent kids = record (create_node id 1 (some parent) none none "attached") {
  children_ids = kids;
}

-- r over a and b, and c below a; the current node is c.
abbrev r : Node
r = node "r" "None" ("a" ∷ "b" ∷ [])

abbrev a : Node
a = node "a" "r" ("c" ∷ [])

abbrev b : Node
b = node "b" "r" []

abbrev c : Node
c = node "c" "a" []

abbrev below_a : Forest
below_a = tree c nil nil

abbrev below_r : Forest
below_r = tree a below_a (tree b nil nil)

abbrev conversation : String → Conversation
conversation current = record (new_conversation "x" 1 "c1" "title" none none none) {
  nodes = ("r", r) ∷ ("a", a) ∷ ("b", b) ∷ ("c", c) ∷ [];
  root_node_id = some "r";
  current_node_id = some current;
}

below_a-Represents : (k : String) → Represents (conversation k).nodes (tree a below_a nil)
unfolding get create_node
below_a-Represents k = ((refl, refl, refl), ((refl, refl, refl), tt, tt), tt)

all-Represents : (k : String) → Represents (conversation k).nodes (tree r below_r nil)
unfolding get create_node
all-Represents k = (
  (refl, refl, refl),
  ((refl, refl, refl), ((refl, refl, refl), tt, tt), ((refl, refl, refl), tt, tt)),
  tt,
)

below_a-IsDistinct : IsDistinct (tree a below_a nil)
unfolding create_node
below_a-IsDistinct = (refl, refl, (λ k h. refl), (refl, refl, (λ k h. refl), tt, tt), tt)

c_not_b : (k : String) → contains k ("c" ∷ []) ≡ true → contains k ("b" ∷ []) ≡ false
c_not_b k h =
    ap (λ t. t || false)
      (ne→eq_false "b" k (λ e. absurd (cc (ap (λ x. contains x ("c" ∷ [])) e, h))))

all-IsDistinct : IsDistinct (tree r below_r nil)
unfolding create_node
all-IsDistinct = (
  refl,
  refl,
  (λ k h. refl),
  (refl, refl, c_not_b, (refl, refl, (λ k h. refl), tt, tt), (refl, refl, (λ k h. refl), tt, tt)),
  tt,
)

get_descendant_node_ids_example :
    get_descendant_node_ids (size (tree r below_r nil) + 1) r.id false (conversation "c")
    ≡ some (selected false r.id (ids (tree r below_r nil)))
get_descendant_node_ids_example =
    get_descendant_node_ids_lem (conversation "c") r below_r false 0 (all-Represents "c")

count_nodes_in_branch_example :
    count_nodes_in_branch (size (tree r below_r nil) + 1) r.id (conversation "c")
    ≡ some (size (tree r below_r nil))
count_nodes_in_branch_example =
    count_nodes_in_branch_lem (conversation "c") r below_r 0 (all-Represents "c")

get_node_tree_example :
    get_node_tree 9 (conversation "c") (some r.id) 0
    ≡ ok (displayed (some "c") 0 (tree r below_r nil))
get_node_tree_example =
    get_node_tree_lem (conversation "c") r below_r 9 (all-Represents "c") (omega arith)

del_node_example :
    ((del_node 9 5 a.id (conversation "a")).0 ≡ ok tt)
    × ((k : String)
        → get k (del_node 9 5 a.id (conversation "a")).1.nodes ≡ (
            if contains k (ids (tree a below_a nil))
            then none
            else if "r" == k
            then some (unlinked a.id r)
            else get k (conversation "a").nodes))
    × ((del_node 9 5 a.id (conversation "a")).1.current_node_id
        ≡ (if is_current a.id (some "a") then some "r" else some "a"))
    × ((del_node 9 5 a.id (conversation "a")).1.root_node_id ≡ some "r")
unfolding get create_node
del_node_example =
    del_node_lem (conversation "a") a below_a 9 5 (below_a-Represents "a") below_a-IsDistinct
      (omega arith) "r" r refl refl refl refl refl

del_node_current_below_example :
    ((del_node 9 5 a.id (conversation "c")).1.current_node_id ≡ some "c")
    × (get "c" (del_node 9 5 a.id (conversation "c")).1.nodes ≡ none)
unfolding get create_node
del_node_current_below_example =
    del_node_current_below (conversation "c") a below_a 9 5 (below_a-Represents "c")
      below_a-IsDistinct (omega arith) "r" r "c" refl refl refl refl refl refl refl

del_node_root_example :
    ((del_node 9 5 r.id (conversation "r")).0 ≡ ok tt)
    × ((del_node 9 5 r.id (conversation "r")).1.current_node_id ≡ some "None")
    × ((del_node 9 5 r.id (conversation "r")).1.root_node_id ≡ some r.id)
    × Removed
        (tree r below_r nil)
        (conversation "r").nodes
        (del_node 9 5 r.id (conversation "r")).1.nodes
unfolding get create_node
del_node_root_example =
    del_node_root (conversation "r") r below_r 9 5 (all-Represents "r") all-IsDistinct (omega arith)
      refl refl refl refl

usage_total-add_usage_example :
    usage_total (some (add_usage (some (estimated_usage 5 none)) none)) 0
    ≡ usage_total (some (estimated_usage 5 none)) 0 + usage_total none 0
usage_total-add_usage_example = usage_total-add_usage (some (estimated_usage 5 none)) none
