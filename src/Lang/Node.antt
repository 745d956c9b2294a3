-- ===== src/Lang/Node.antt =====
-- The nodes of lang/astnode.c, as trees. A Dict of a node is a list of pairs, the newest first, of
-- which the Dict's queries see the first with a key; that a Dict aborts when a key is set again and
-- again is left out. A name that is NULL is `none`.
mod Tests
use ripe.Prelude.{
  ℕ, zero, suc, ◌+◌, Bool, true, false, ◌&&◌, ◌==◌, if◌then◌else◌, Option, none, some, List, [],
  ◌∷◌, ◌++◌,
}
use ripe.Prelude.Int.{ℤ, pos, negsuc}
use ripe.Prelude.Outcome.{Outcome, ok, stop, assertion, thrown, null_pointer, ◌>>=◌}
use ripe.Prelude.Text.{same_text, codes}
use ripe.Lang.NodeType.{NodeType, id, int, expr_index, expr_list, expr_field, expr_call}

abbrev pub Name : Type 0
Name = List ℕ

mutual
  pub data Node : Type 0 where
    node :
        NodeType → Option Name → Option Name → ℤ → Nodes → List (Name × Option Name) → Props → Node

  -- the children of a node
  pub data Nodes : Type 0 where
    nil : Nodes
    cons : Node → Nodes → Nodes

  -- `props_nodes`
  pub data Props : Type 0 where
    no_props : Props
    prop : Name → Node → Props → Props

unfoldable pub node_type : Node → NodeType
node_type (node t text filename line children strings nodes) = t

unfoldable pub node_text : Node → Option Name
node_text (node t text filename line children strings nodes) = text

-- the text of a node, as an argument of a function that reads it
unfoldable pub text_of : Node → Outcome Name
text_of n = elim (node_text n) [ none ↦ stop null_pointer | some s ↦ ok s ]

unfoldable pub node_children : Node → Nodes
node_children (node t text filename line children strings nodes) = children

unfoldable pub props_nodes : Node → Props
props_nodes (node t text filename line children strings nodes) = nodes

unfoldable pub props_strings : Node → List (Name × Option Name)
props_strings (node t text filename line children strings nodes) = strings

unfoldable pub append_node : Nodes → Node → Nodes
append_node nil n = cons n nil
append_node (cons m ns) n = cons m (append_node ns n)

pub append_nodes : Nodes → Nodes → Nodes
append_nodes ns nil = ns
append_nodes ns (cons m ms) = append_nodes (append_node ns m) ms

unfoldable pub num_nodes : Nodes → ℕ
num_nodes nil = 0
num_nodes (cons n ns) = suc (num_nodes ns)

unfoldable pub nth_node : Nodes → ℕ → Option Node
nth_node nil i = none
nth_node (cons n ns) zero = some n
nth_node (cons n ns) (suc i) = nth_node ns i

unfoldable pub node_new : NodeType → Node
node_new t = node t none none (negsuc 0) nil [] no_props

pub node_new_token : NodeType → Name → Name → ℤ → Node
node_new_token t text filename line = node t (some text) (some filename) line nil [] no_props

pub node_new_inherit : NodeType → Node → Node
node_new_inherit t (node u text filename line children strings nodes) =
    node t none filename line nil [] no_props

unfoldable pub node_add_child : Node → Node → Node
node_add_child (node t text filename line children strings nodes) child =
    node t text filename line (append_node children child) strings nodes

pub node_extend_children : Node → Node → Node
node_extend_children (node t text filename line children strings nodes) old =
    node t text filename line (append_nodes children (node_children old)) strings nodes

pub node_prepend_child : Node → Node → Node
node_prepend_child (node t text filename line children strings nodes) child =
    node t text filename line (cons child children) strings nodes

unfoldable pub node_num_children : Node → ℕ
node_num_children n = num_nodes (node_children n)

unfoldable pub node_get_child : Node → ℕ → Outcome Node
node_get_child n i = elim (nth_node (node_children n) i) [ none ↦ stop assertion | some m ↦ ok m ]

unfoldable pub lookup_string : List (Name × Option Name) → Name → Option (Option Name)
lookup_string [] k = none
lookup_string ((j, v) ∷ d) k = if same_text k j then some v else lookup_string d k

unfoldable pub lookup_node : Props → Name → Option Node
lookup_node no_props k = none
lookup_node (prop j v d) k = if same_text k j then some v else lookup_node d k

unfoldable pub node_set_string : Node → Name → Option Name → Node
node_set_string (node t text filename line children strings nodes) key value =
    node t text filename line children ((key, value) ∷ strings) nodes

unfoldable pub node_get_string : Node → Name → Outcome (Option Name)
node_get_string n key = elim (lookup_string (props_strings n) key) [
  | none ↦ stop assertion
  | some v ↦ ok v
]

unfoldable pub node_has_string : Node → Name → Bool
node_has_string n key = elim (lookup_string (props_strings n) key) [ none ↦ false | some v ↦ true ]

unfoldable pub node_set_node : Node → Name → Node → Node
node_set_node (node t text filename line children strings nodes) key value =
    node t text filename line children strings (prop key value nodes)

unfoldable pub node_get_node : Node → Name → Outcome Node
node_get_node n key = elim (lookup_node (props_nodes n) key) [ none ↦ stop thrown | some m ↦ ok m ]

unfoldable pub node_has_node : Node → Name → Bool
node_has_node n key = elim (lookup_node (props_nodes n) key) [ none ↦ false | some m ↦ true ]

unfoldable pub set_text : Node → Name → Node
set_text (node t text filename line children strings nodes) s =
    node t (some s) filename line children strings nodes

unfoldable pub node_new_id : Name → Node
node_new_id s = set_text (node_new id) s

pub node_new_expr_index1 : Node → Node → Node
node_new_expr_index1 left index =
    node_add_child (node_add_child (node_new expr_index) left)
      (node_add_child (node_new expr_list) index)

-- the loop over the arguments
unfoldable pub add_children : Node → List Node → Node
add_children n [] = n
add_children n (m ∷ ms) = add_children (node_add_child n m) ms

abbrev pub key_name : Name
key_name = codes "name"

abbrev pub key_callee : Name
key_callee = codes "callee"

abbrev pub key_args : Name
key_args = codes "args"

unfoldable pub node_new_field_call : Node → Name → List Node → Node
node_new_field_call callee field_name args =
    let field =
      node_set_string (node_add_child (node_new expr_field) callee) key_name (some field_name) in
    node_set_node (node_set_node (node_new expr_call) key_callee field) key_args
      (add_children (node_new expr_list) args)

pub node_new_type : Option Name → Node
node_new_type t = node_set_string (node_new NodeType.type) key_name t
