-- ===== src/Chat/Trees/NodeDeletion.antt =====
-- `del_node` of backend/core/chat/conversation.py on the root of a tree.
use chat_tree.Prelude.{
  ℕ, ◌≤◌, String, ◌≡◌, refl, sym, ap, ◌∙◌, ◌==◌, eq_iff, eq_refl, Bool, true, false, [], none, some,
  Option, arith, ok, err, if◌then◌else◌, Bool-cases, ne→eq_false, inl, inr,
}
use chat_tree.Dict.{Dict, get, insert, get-insert}
use chat_tree.Chat.Conversation.{Node, Conversation, contains}
use chat_tree.Chat.Deletion.{
  Deletion, then_delete, delete_all, delete_recursive, remove_first, unlink_child, unlink,
  finish_deletion, is_current, del_node,
}
use chat_tree.Chat.Trees.{Forest, nil, tree, ids, height, Represents, IsDistinct}
use chat_tree.Chat.Trees.Removal.{Removed, delete_forest, contains-append}

then_nothing :
    (x : Deletion) {nodes : Dict Node}
    → then_delete x (λ ns. (ok tt, ns)) ≡ (ok tt, nodes)
    → x ≡ (ok tt, nodes)
then_nothing (err e, ns) h = absurd (cc (ap (λ (y : Deletion). y.0) h))
then_nothing (ok u, ns) h = h

-- The recursion on the node itself.
delete_recursive_lem :
    (n : Node) (below : Forest) (depth : ℕ) (nodes : Dict Node)
    → Represents nodes (tree n below nil)
    → IsDistinct (tree n below nil)
    → height (tree n below nil) ≤ depth
    → (nodes' : Dict Node) × (delete_recursive depth n.id nodes ≡ (ok tt, nodes'))
      × Removed (tree n below nil) nodes nodes'
unfolding delete_all
delete_recursive_lem n below depth nodes r d h =
    let (nodes', e, rem) = delete_forest (tree n below nil) depth nodes r d h in
    (nodes', then_nothing (delete_recursive depth n.id nodes) e, rem)

-- The children of the parent, without the deleted node.
abbrev pub unlinked : String → Node → Node
unlinked k parent = record parent { children_ids = remove_first k parent.children_ids }

unlink_there :
    (p k : String) (parent : Node) (nodes : Dict Node)
    → (p == "") ≡ false
    → get p nodes ≡ some parent
    → contains k parent.children_ids ≡ true
    → unlink (some p) k (ok tt, nodes) ≡ (ok tt, insert p (unlinked k parent) nodes)
unfolding unlink_child
unlink_there p k parent nodes ne there listed = rw ne (rw (there, unlink_child) (rw listed refl))

-- The whole call, once the node and all below it are out.
del_node_eq :
    (c : Conversation) (n : Node) (depth now : ℕ) (p : String) (nodes' : Dict Node) (parent : Node)
    → get n.id c.nodes ≡ some n
    → delete_recursive depth n.id c.nodes ≡ (ok tt, nodes')
    → n.parent_id ≡ some p
    → (p == "") ≡ false
    → get p nodes' ≡ some parent
    → contains n.id parent.children_ids ≡ true
    → del_node depth now n.id c
      ≡ finish_deletion now n.id (some p) c (ok tt, insert p (unlinked n.id parent) nodes')
unfolding del_node
del_node_eq c n depth now p nodes' parent here e up ne there listed =
    rw (here, del_node)
      (ap (λ x. finish_deletion now n.id n.parent_id c (unlink n.parent_id n.id x)) e
        ∙ ap (λ u. finish_deletion now n.id u c (unlink u n.id (ok tt, nodes'))) up
        ∙ ap (finish_deletion now n.id (some p) c)
            (unlink_there p n.id parent nodes' ne there listed))

none_either : (b : Bool) → ◌≡◌ {A = Option Node} (if b then none else none) none
none_either true = refl
none_either false = refl

del_node_root_eq :
    (c : Conversation) (n : Node) (depth now : ℕ) (nodes' : Dict Node)
    → get n.id c.nodes ≡ some n
    → delete_recursive depth n.id c.nodes ≡ (ok tt, nodes')
    → n.parent_id ≡ some "None"
    → get "None" nodes' ≡ none
    → del_node depth now n.id c ≡ finish_deletion now n.id (some "None") c (ok tt, nodes')
unfolding del_node unlink_child
del_node_root_eq c n depth now nodes' here e up nowhere =
    rw (here, del_node)
      (ap (λ x. finish_deletion now n.id n.parent_id c (unlink n.parent_id n.id x)) e
        ∙ ap (λ u. finish_deletion now n.id u c (unlink u n.id (ok tt, nodes'))) up
        ∙ ap (λ x. finish_deletion now n.id (some "None") c (unlink_child "None" n.id x nodes'))
            nowhere)

-- The nodes after the parent was updated.
nodes_after :
    (p : String) (parent : Node) (F : Forest) (nodes nodes' : Dict Node)
    → Removed F nodes nodes'
    → contains p (ids F) ≡ false
    → (k : String)
    → get k (insert p parent nodes')
      ≡ (if contains k (ids F) then none else if p == k then some parent else get k nodes)
nodes_after p parent F nodes nodes' rem outside k =
    get-insert p k parent nodes' ∙ elim (Bool-cases (p == k)) [
      | inl e ↦ rw (ap (λ x. contains x (ids F)) (sym ((eq_iff p k).0 e)) ∙ outside) (rw e refl)
      | inr e ↦ rw e (rem k)
    ]

module _ (c : Conversation) (n : Node) (below : Forest) (depth now : ℕ)
    (r : Represents c.nodes (tree n below nil)) (d : IsDistinct (tree n below nil))
    (h : height (tree n below nil) ≤ depth) where
  abbrev after : Conversation
  after = (del_node depth now n.id c).1

  -- Deleting a node with a parent that lists it and is outside its tree, from a conversation that
  -- holds the tree below the node with no identifier twice, where calls may nest as deep as the
  -- tree is high, raises nothing; the nodes of the tree are gone, the parent lists the node once
  -- less, every other node is as it was, the current node, if it was the deleted one, is the
  -- parent, and the root stays.
  pub del_node_lem :
      (p : String) (parent : Node)
      → n.parent_id ≡ some p
      → (p == "") ≡ false
      → get p c.nodes ≡ some parent
      → contains p (ids (tree n below nil)) ≡ false
      → contains n.id parent.children_ids ≡ true
      → ((del_node depth now n.id c).0 ≡ ok tt)
        × ((k : String)
            → get k after.nodes ≡ (
                if contains k (ids (tree n below nil))
                then none
                else if p == k
                then some (unlinked n.id parent)
                else get k c.nodes))
        × (after.current_node_id
            ≡ (if is_current n.id c.current_node_id then some p else c.current_node_id))
        × (after.root_node_id ≡ c.root_node_id)
  del_node_lem p parent up ne there outside listed =
      let (nodes', e, rem) = delete_recursive_lem n below depth c.nodes r d h in
      let left : get p nodes' ≡ some parent = rem p ∙ rw outside there in
      let eq = del_node_eq c n depth now p nodes' parent r.0.0 e up ne left listed in
      (
        ap (λ x. x.0) eq,
        (λ k.
            ap (λ x. get k x.1.nodes) eq
            ∙ nodes_after p (unlinked n.id parent) (tree n below nil) c.nodes nodes' rem outside k),
        ap (λ x. x.1.current_node_id) eq,
        ap (λ x. x.1.root_node_id) eq,
      )

  -- Under the conditions of `del_node_lem`: if the current node is below the deleted one, it stays the
  -- current node of the conversation, which holds it no longer.
  pub del_node_current_below :
      (p : String) (parent : Node) (k : String)
      → n.parent_id ≡ some p
      → (p == "") ≡ false
      → get p c.nodes ≡ some parent
      → contains p (ids (tree n below nil)) ≡ false
      → contains n.id parent.children_ids ≡ true
      → contains k (ids below) ≡ true
      → c.current_node_id ≡ some k
      → (after.current_node_id ≡ some k) × (get k after.nodes ≡ none)
  del_node_current_below p parent k up ne there outside listed under current =
      let (done, nodes, at, root) = del_node_lem p parent up ne there outside listed in
      let other : (k == n.id) ≡ false =
        ne→eq_false k n.id (λ e. cc (under, d.0, ap (λ x. contains x (ids below)) e)) in
      let within : contains k (ids (tree n below nil)) ≡ true =
        ground (arith, under, contains-append k (ids below) []) in
      (
        at ∙ ap (λ x. if is_current n.id x then some p else x) current ∙ rw other refl,
        nodes k ∙ rw within refl,
      )

  -- Deleting the root, with the parent 'None', which is no key, from a conversation that holds
  -- its tree with no identifier twice, where calls may nest as deep as the tree is high: if it
  -- was the current node too, the call raises nothing, the current node is then the text 'None',
  -- the root is still the deleted node, and of the tree no node is left.
  pub del_node_root :
      n.parent_id ≡ some "None"
      → get "None" c.nodes ≡ none
      → c.root_node_id ≡ some n.id
      → c.current_node_id ≡ some n.id
      → ((del_node depth now n.id c).0 ≡ ok tt)
        × (after.current_node_id ≡ some "None")
        × (after.root_node_id ≡ some n.id)
        × Removed (tree n below nil) c.nodes after.nodes
  del_node_root up nowhere root current =
      let (nodes', e, rem) = delete_recursive_lem n below depth c.nodes r d h in
      let left : get "None" nodes' ≡ none =
        rem "None" ∙ rw nowhere (none_either (contains "None" (ids (tree n below nil)))) in
      let eq = del_node_root_eq c n depth now nodes' r.0.0 e up left in
      (
        ap (λ x. x.0) eq,
        ap (λ x. x.1.current_node_id) eq
            ∙ ap (λ x. if is_current n.id x then some "None" else x) current
            ∙ rw (eq_refl n.id) refl,
        ap (λ x. x.1.root_node_id) eq ∙ root,
        λ k. ap (λ x. get k x.1.nodes) eq ∙ rem k,
      )
