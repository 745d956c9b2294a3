-- ===== src/Lang/Operators/Tests.antt =====
-- Runs of the tables.
use ripe.Prelude.{◌≡◌, refl, true, false}
use ripe.Prelude.Outcome.{ok}
use ripe.Prelude.Text.{codes}
use ripe.Lang.NodeType.{char, id, k_in, code, same_type}
use ripe.Lang.Node.{
  Node, node_new, node_add_child, append_node, num_nodes, node_children, node_type,
  node_num_children,
}
use ripe.Lang.Operators.{
  binary_ot, unary_ot, has_type, func_of, is_binary_op, binary_op_map, is_unary_op, unary_op_map,
}

program : Unit {0}
unfolding code same_type binary_ot unary_ot has_type func_of is_binary_op binary_op_map is_unary_op
    unary_op_map node_new node_add_child append_node num_nodes node_children node_type
    node_num_children
program = tt

abbrev difference : Node
difference = node_add_child (node_add_child (node_new (char b'-')) (node_new id)) (node_new id)

difference_lem : is_binary_op difference ≡ true
unfolding program
difference_lem = refl

not_unary : is_unary_op difference ≡ false
unfolding program
not_unary = refl

in_lem : binary_op_map k_in ≡ ok (codes "op_in")
unfolding program
in_lem = refl
