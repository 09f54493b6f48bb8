-- ===== src/Chat/Deletion.antt =====
-- `del_node` of backend/core/chat/conversation.py. What was deleted before a raise stays deleted, so
-- the dictionary comes back beside the error too.
use chat_tree.Prelude.{
  ℕ, zero, suc, String, ◌==◌, Bool, false, Option, none, some, List, [], ◌∷◌, Result, ok, err,
  if◌then◌else◌,
}
use chat_tree.Dict.{Dict, get, insert, remove, has}
use chat_tree.Chat.Conversation.{
  Node, Conversation, ConversationError, key_error, value_error, recursion_error, touch, contains,
}

abbrev pub Deletion : Type 0
Deletion = Result ConversationError (Unit {0}) × Dict Node

-- What follows a deletion that raised nothing.
abbrev pub then_delete : Deletion → (Dict Node → Deletion) → Deletion
then_delete (err e, nodes) next = (err e, nodes)
then_delete (ok u, nodes) next = next nodes

-- The loop over the children: a raise ends it.
unfoldable pub delete_all : (String → Dict Node → Deletion) → List String → Dict Node → Deletion
delete_all delete [] nodes = (ok tt, nodes)
delete_all delete (k ∷ ks) nodes =
    then_delete (delete k nodes) (λ nodes'. delete_all delete ks nodes')

-- del self.nodes[n_id]
unfoldable pub delete_key : String → Deletion → Deletion
delete_key k (err e, nodes) = (err e, nodes)
delete_key k (ok u, nodes) =
    if has k nodes then (ok tt, remove k nodes) else (err (key_error k), nodes)

-- `_delete_recursive`; `depth` is Python's bound on nested calls.
unfoldable pub delete_recursive : ℕ → String → Dict Node → Deletion
unfolding delete_all delete_key
delete_recursive zero k nodes = (err recursion_error, nodes)
delete_recursive (suc depth) k nodes = elim (get k nodes) [
  | none ↦ (err (key_error k), nodes)
  | some node ↦
      delete_key k
        (delete_all (λ child nodes'. delete_recursive depth child nodes') node.children_ids nodes)
]

-- list.remove: the first occurrence, if there is one
unfoldable pub remove_first : String → List String → List String
remove_first x [] = []
remove_first x (y ∷ ys) = if y == x then ys else y ∷ remove_first x ys

-- The update of the list of children of the parent, where `none` is a parent that is no key.
unfoldable pub unlink_child : String → String → Option Node → Dict Node → Deletion
unfolding remove_first
unlink_child parent k none nodes = (ok tt, nodes)
unlink_child parent k (some node) nodes =
    if contains k node.children_ids
    then (
      ok tt,
      insert parent (record node { children_ids = remove_first k node.children_ids }) nodes,
    )
    else (err value_error, nodes)

-- `if parent_id and parent_id in self.nodes: ...`
abbrev pub unlink : Option String → String → Deletion → Deletion
unlink parent k (err e, nodes) = (err e, nodes)
unlink none k (ok u, nodes) = (ok tt, nodes)
unlink (some parent) k (ok u, nodes) =
    if parent == "" then (ok tt, nodes) else unlink_child parent k (get parent nodes) nodes

abbrev pub is_current : String → Option String → Bool
is_current k none = false
is_current k (some j) = j == k

-- The end of `del_node`, which no raise reaches.
abbrev pub finish_deletion :
    ℕ
    → String
    → Option String
    → Conversation
    → Deletion
    → Result ConversationError (Unit {0}) × Conversation
finish_deletion now k parent c (err e, nodes) = (err e, record c { nodes = nodes })
finish_deletion now k parent c (ok u, nodes) = (
  ok tt,
  touch now (record c {
    nodes = nodes;
    current_node_id = if is_current k c.current_node_id then parent else c.current_node_id;
  }),
)

unfoldable pub del_node :
    ℕ → ℕ → String → Conversation → Result ConversationError (Unit {0}) × Conversation
unfolding delete_recursive unlink_child
del_node depth now node_id c = elim (get node_id c.nodes) [
  | none ↦ (ok tt, c)
  | some node ↦
      finish_deletion now node_id node.parent_id c
        (unlink node.parent_id node_id (delete_recursive depth node_id c.nodes))
]
