-- ===== src/Chat/Walks.antt =====
-- The walks over the tree of backend/core/chat/conversation.py. A `while` loop takes fuel, and `none`
-- means that it ran out; for recursion the fuel is Python's bound on nested calls.
use chat_tree.Prelude.{
  ℕ, zero, suc, ◌+◌, String, ◌==◌, Bool, false, not, ◌||◌, Option, none, some, List, [], ◌∷◌, ◌++◌,
  reverse, Result, ok, err, ◌>>=◌, if◌then◌else◌, length, ltb,
}
use chat_tree.Dict.{Dict, get, has}
use chat_tree.Chat.Conversation.{Node, Conversation, ConversationError, key_error, recursion_error}

-- `node_id or other`: the empty text and `None` give way to the other.
abbrev pub or_other : Option String → Option String → Option String
or_other none other = other
or_other (some k) other = if k == "" then other else some k

-- The test of `while current_id != 'None' and current_id`, and the identifier to go on with.
unfoldable pub goes_on : Option String → Option String
goes_on none = none
goes_on (some k) = if k == "None" || k == "" then none else some k

-- The `while` loop of `get_node_chain`; `chain` is what was inserted so far.
unfoldable pub chain_loop :
    ℕ → Option String → List Node → Dict Node → Option (Result ConversationError (List Node))
chain_loop zero current chain nodes = none
chain_loop (suc fuel) current chain nodes = elim (goes_on current) [
  | none ↦ some (ok chain)
  | some k ↦ elim (get k nodes) [
    | none ↦ some (err (key_error k))
    | some node ↦ chain_loop fuel node.parent_id (node ∷ chain) nodes
  ]
]

abbrev chain_from : ℕ → Option String → Dict Node → Option (Result ConversationError (List Node))
chain_from fuel none nodes = some (ok [])
chain_from fuel (some target) nodes =
    if target == "" || not (has target nodes)
    then some (ok [])
    else chain_loop fuel (some target) [] nodes

unfoldable pub get_node_chain :
    ℕ → Option String → Conversation → Option (Result ConversationError (List Node))
unfolding chain_loop
get_node_chain fuel node_id c = chain_from fuel (or_other node_id c.current_node_id) c.nodes

-- What `get_node_tree` shows of a node.
pub record DisplayInfo : Type 0 where
  pub id : String
  pub level : ℕ
  pub is_current : Bool
  pub has_children : Bool
  pub children_count : ℕ
  pub timestamp : ℕ
  pub model_id : Option String

abbrev pub is_id : String → Option String → Bool
is_id k none = false
is_id k (some j) = k == j

unfoldable pub display_info : Node → ℕ → Option String → DisplayInfo
display_info node level current = record {
  id = node.id;
  level = level;
  is_current = is_id node.id current;
  has_children = ltb 0 (length node.children_ids);
  children_count = length node.children_ids;
  timestamp = node.timestamp;
  model_id = node.model_id;
}

-- result.extend(...) for each child, in order
unfoldable pub extend_all :
    (String → Result ConversationError (List DisplayInfo))
    → List String
    → Result ConversationError (List DisplayInfo)
extend_all walk [] = ok []
extend_all walk (k ∷ ks) = do first ← walk k; rest ← extend_all walk ks; ok (first ++ rest)

-- A nested call on `child_id or self.root_node_id`; the outer call is the same.
unfoldable pub get_node_tree :
    ℕ → Conversation → Option String → ℕ → Result ConversationError (List DisplayInfo)
unfolding extend_all display_info
get_node_tree zero c node_id level = err recursion_error
get_node_tree (suc depth) c node_id level = elim (or_other node_id c.root_node_id) [
  | none ↦ ok []
  | some k ↦ if k == "" then ok [] else elim (get k c.nodes) [
    | none ↦ ok []
    | some node ↦
        extend_all (λ child. get_node_tree depth c (some child) (level + 1)) node.children_ids
        >>= λ rest. ok (display_info node level c.current_node_id ∷ rest)
  ]
]

-- The `while` loop of `_count_nodes_in_branch`. The top of the stack, Python's last element, stands
-- first.
unfoldable pub count_loop : ℕ → List String → ℕ → Dict Node → Option ℕ
count_loop zero stack count nodes = none
count_loop (suc fuel) [] count nodes = some count
count_loop (suc fuel) (k ∷ stack) count nodes = elim (get k nodes) [
  | none ↦ count_loop fuel stack count nodes
  | some node ↦ count_loop fuel (reverse node.children_ids ++ stack) (count + 1) nodes
]

unfoldable pub count_nodes_in_branch : ℕ → String → Conversation → Option ℕ
unfolding count_loop
count_nodes_in_branch fuel start_node_id c = count_loop fuel (start_node_id ∷ []) 0 c.nodes

abbrev pub children_of : Option Node → List String
children_of none = []
children_of (some node) = node.children_ids

-- The `while` loop of `get_descendant_node_ids`, with its stack as above.
unfoldable pub descendants_loop :
    ℕ → List String → List String → String → Bool → Dict Node → Option (List String)
descendants_loop zero stack result node_id include_self nodes = none
descendants_loop (suc fuel) [] result node_id include_self nodes = some result
descendants_loop (suc fuel) (current ∷ stack) result node_id include_self nodes =
    descendants_loop fuel (children_of (get current nodes) ++ stack)
      (if include_self || not (current == node_id) then result ++ current ∷ [] else result) node_id
      include_self nodes

unfoldable pub get_descendant_node_ids : ℕ → String → Bool → Conversation → Option (List String)
unfolding descendants_loop
get_descendant_node_ids fuel node_id include_self c =
    if has node_id c.nodes
    then descendants_loop fuel (node_id ∷ []) [] node_id include_self c.nodes
    else some []
