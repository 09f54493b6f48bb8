-- ===== src/Chat/Conversation.antt =====
-- `Conversation` of backend/core/chat/conversation.py with the nodes of backend/core/chat/node.py: a
-- tree of nodes in a dictionary, each with the identifiers of its parent and its children. Clock
-- readings and the fresh identifiers of `uuid4` are arguments.
use chat_tree.Prelude.{
  ℕ, String, ◌==◌, Bool, true, false, not, ◌&&◌, ◌||◌, Option, none, some, List, [], ◌∷◌, ◌++◌,
  if◌then◌else◌, length, ltb,
}
use chat_tree.Dict.{Dict, get, insert, has}
use chat_tree.Json.{Value}
use chat_tree.Chat.Usage.{UsageInfo, estimated_usage}

pub record NodeUsage : Type 0 where
  pub turn_usage : UsageInfo
  pub branch_usage : UsageInfo
  pub active_context_usage : UsageInfo

pub record Node : Type 0 where
  pub id : String
  pub parent_id : Option String
  pub children_ids : List String
  pub timestamp : ℕ
  pub model_id : Option String
  pub tool_permission_mode : Option String
  pub task_context_mode : String
  pub total_tokens : ℕ
  pub branch_usage_info : UsageInfo
  pub usage : NodeUsage

pub record Metadata : Type 0 where
  pub id : String
  pub title : String
  pub created_at : ℕ
  pub updated_at : ℕ
  pub total_tokens : Dict ℕ
  pub schema_version : ℕ
  pub provider_id : Option String
  pub model_id : Option String
  pub workspace : Option (Dict Value)

pub record Conversation : Type 0 where
  pub metadata : Metadata
  pub nodes : Dict Node
  pub root_node_id : Option String
  pub current_node_id : Option String
  pub current_provider : Option String
  pub current_model : Option String

-- What a method raises. `recursion_error` is Python's bound on nested calls.
pub data ConversationError : Type 0 where
  key_error : String → ConversationError
  value_error : ConversationError
  recursion_error : ConversationError

abbrev pub schema_version : ℕ
schema_version = 1

empty_node_usage : NodeUsage
unfolding estimated_usage
empty_node_usage = record {
  turn_usage = estimated_usage 0 none;
  branch_usage = estimated_usage 0 none;
  active_context_usage = estimated_usage 0 none;
}

unfoldable pub create_node :
    String → ℕ → Option String → Option String → Option String → String → Node
unfolding empty_node_usage
create_node node_id now parent_id model_id tool_permission_mode task_context_mode = record {
  id = node_id;
  parent_id = parent_id;
  children_ids = [];
  timestamp = now;
  model_id = model_id;
  tool_permission_mode = tool_permission_mode;
  task_context_mode = task_context_mode;
  total_tokens = 0;
  branch_usage_info = estimated_usage 0 none;
  usage = empty_node_usage;
}

-- The parent of a root node is the text 'None'.
unfoldable pub create_root_node : String → ℕ → Node
unfolding create_node
create_root_node node_id now = create_node node_id now (some "None") none none "attached"

unfoldable pub create_compact_node : String → ℕ → Option String → Option String → String → Node
unfolding create_node
create_compact_node node_id now parent_id model_id task_context_mode =
    create_node node_id now parent_id model_id none task_context_mode

abbrev pub contains : String → List String → Bool
contains x [] = false
contains x (y ∷ ys) = y == x || contains x ys

-- A node is marked in place.
unfoldable pub mark_as_branch_point : Node → String → Node
mark_as_branch_point node child_id =
    if contains child_id node.children_ids
    then node
    else record node { children_ids = node.children_ids ++ child_id ∷ [] }

abbrev pub touch : ℕ → Conversation → Conversation
touch now c = record c { metadata = record (c.metadata) { updated_at = now } }

unfoldable pub new_conversation :
    String
    → ℕ
    → String
    → String
    → Option String
    → Option String
    → Option (Dict Value)
    → Conversation
new_conversation fresh_id now conversation_id title provider model workspace = record {
  metadata = record {
    id = if conversation_id == "" then fresh_id else conversation_id;
    title = title;
    created_at = now;
    updated_at = now;
    total_tokens = [];
    schema_version = schema_version;
    provider_id = none;
    model_id = none;
    workspace = workspace;
  };
  nodes = [];
  root_node_id = none;
  current_node_id = none;
  current_provider = provider;
  current_model = model;
}

unfoldable pub set_current_model : String → String → Conversation → Conversation
set_current_model provider model c = record c {
  current_provider = some provider;
  current_model = some model;
  metadata = record (c.metadata) { provider_id = some provider; model_id = some model };
}

unfoldable pub clear : ℕ → Conversation → Conversation
clear now c = touch now (record c { nodes = []; root_node_id = none; current_node_id = none })

-- nodes[k]["children_ids"].append(child), on a node that is there
unfoldable pub append_child : String → String → Dict Node → Dict Node
append_child k child nodes = elim (get k nodes) [
  | none ↦ nodes
  | some node ↦ insert k (record node { children_ids = node.children_ids ++ child ∷ [] }) nodes
]

-- The branch of `add_node` that links the node to a parent that is there.
unfoldable pub link_node : Node → String → Bool → Conversation → Conversation
unfolding append_child
link_node node parent focus c = record c {
  nodes =
      append_child parent node.id
        (insert node.id (record node { parent_id = some parent }) c.nodes);
  current_node_id = if focus then some node.id else c.current_node_id;
}

abbrev parent_there : Option String → Dict Node → Bool
parent_there none nodes = false
parent_there (some parent) nodes = not (parent == "") && has parent nodes

abbrev link_parent : Node → Option String → Bool → Conversation → Conversation
link_parent node none focus c = c
link_parent node (some parent) focus c = link_node node parent focus c

unfoldable pub add_node : ℕ → Node → Option String → Bool → Bool → Conversation → Conversation
unfolding link_node
add_node now node parent_id is_root focus c =
    let added = record c { nodes = insert node.id node c.nodes } in
    touch now (
      if is_root
      then record added { root_node_id = some node.id; current_node_id = some node.id }
      else if parent_there parent_id added.nodes
      then link_parent node parent_id focus added
      else added)

unfoldable pub initialize_with_system_message :
    String → ℕ → ℕ → ℕ → Bool → Conversation → Conversation
unfolding add_node create_root_node clear
initialize_with_system_message node_id at_clear at_node at_add force c =
    if ltb 0 (length c.nodes) && not force
    then c
    else add_node at_add (create_root_node node_id at_node) none true true (clear at_clear c)

unfoldable pub switch_to_node : String → Conversation → Bool × Conversation
switch_to_node node_id c =
    if has node_id c.nodes then (true, record c { current_node_id = some node_id }) else (false, c)
