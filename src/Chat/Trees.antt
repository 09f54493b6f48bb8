-- ===== src/Chat/Trees.antt =====
-- Trees as the specification of the dictionary of nodes of backend/core/chat/conversation.py.
pub mod Traversal
pub mod Display
pub mod Removal
pub mod NodeDeletion
use chat_tree.Prelude.{
  ℕ, zero, suc, ◌+◌, String, ◌≡◌, ◌==◌, Bool, true, false, List, [], ◌∷◌, ◌++◌, max, some, Option,
  ◌≢◌,
}
use chat_tree.Dict.{Dict, get}
use chat_tree.Chat.Conversation.{Node, contains}

-- A list of trees: the first tree is a node over the trees of its children, and the rest follow.
pub data Forest : Type 0 where
  nil : Forest
  tree : Node → Forest → Forest → Forest

abbrev pub roots : Forest → List String
roots nil = []
roots (tree n below rest) = n.id ∷ roots rest

-- The identifiers, each node before those below it.
abbrev pub ids : Forest → List String
ids nil = []
ids (tree n below rest) = n.id ∷ (ids below ++ ids rest)

abbrev pub size : Forest → ℕ
size nil = 0
size (tree n below rest) = suc (size below + size rest)

abbrev pub height : Forest → ℕ
height nil = 0
height (tree n below rest) = max (suc (height below)) (height rest)

-- The dictionary holds the nodes under their identifiers, which are no empty texts, and the children
-- of a node are the trees below it.
abbrev pub Represents : Dict Node → Forest → Type 0
Represents nodes nil = Unit
Represents nodes (tree n below rest) =
    ((get n.id nodes ≡ some n) × (n.children_ids ≡ roots below) × ((n.id == "") ≡ false))
    × Represents nodes below
    × Represents nodes rest

-- No identifier stands twice.
abbrev pub IsDistinct : Forest → Type 0
IsDistinct nil = Unit
IsDistinct (tree n below rest) =
    (contains n.id (ids below) ≡ false)
    × (contains n.id (ids rest) ≡ false)
    × ((k : String) → contains k (ids below) ≡ true → contains k (ids rest) ≡ false)
    × IsDistinct below
    × IsDistinct rest
