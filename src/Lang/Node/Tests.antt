-- ===== src/Lang/Node/Tests.antt =====
-- Runs of the operations on nodes.
use ripe.Prelude.{ℕ, ◌≡◌, refl, true, Option, none, some, List, [], ◌∷◌}
use ripe.Prelude.Outcome.{Outcome, ok, stop, assertion, thrown, ◌>>=◌}
use ripe.Prelude.Text.{codes, same_text}
use ripe.Lang.NodeType.{expr_list, stmt_list}
use ripe.Lang.Node.{
  Node, node_new, node_new_id, set_text, node_new_token, node_new_inherit, node_add_child,
  append_node, append_nodes, node_extend_children, node_prepend_child, node_children, num_nodes,
  nth_node, node_num_children, node_get_child, node_text, node_set_string, node_get_string,
  node_has_string, node_set_node, node_get_node, node_has_node, lookup_string, lookup_node,
  props_strings, props_nodes, node_new_field_call, node_new_type, add_children, key_args,
  key_callee,
}

program : Unit {0}
unfolding same_text node_new node_new_id set_text node_new_token node_new_inherit node_add_child
    append_node append_nodes node_extend_children node_prepend_child node_children num_nodes
    nth_node node_num_children node_get_child node_text node_set_string node_get_string
    node_has_string node_set_node node_get_node node_has_node lookup_string lookup_node
    props_strings props_nodes node_new_field_call node_new_type add_children
program = tt

abbrev pair : Node
pair =
    node_add_child (node_add_child (node_new expr_list) (node_new_id (codes "x")))
      (node_new_id (codes "y"))

abbrev texts : Node → Outcome (List (Option (List ℕ)))
texts n = do
  first ← node_get_child n 0
  last ← node_get_child n 2
  ok (node_text first ∷ node_text last ∷ [])

extended :
    texts (
      node_prepend_child (node_extend_children (node_new stmt_list) pair) (node_new_id (codes "w")))
    ≡ ok (some (codes "w") ∷ some (codes "y") ∷ [])
unfolding program
extended = refl

no_third : node_get_child pair 2 ≡ stop assertion
unfolding program
no_third = refl

set_again :
    node_get_string
      (node_set_string (node_set_string pair (codes "a") (some (codes "1"))) (codes "a") none)
      (codes "a")
    ≡ ok none
unfolding program
set_again = refl

abbrev call : Node
call = node_new_field_call (node_new_id (codes "s")) (codes "f") (pair ∷ [])

call_args :
    (node_get_node call key_args ≡ ok (node_add_child (node_new expr_list) pair))
    × (node_has_node call key_callee ≡ true)
    × (node_get_node call (codes "name") ≡ stop thrown)
unfolding program
call_args = (refl, refl, refl)
