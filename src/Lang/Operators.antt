-- ===== src/Lang/Operators.antt =====
-- The tables of operators of lang/operator.c.
pub mod Mapping
mod Tests
use ripe.Prelude.{ℕ, Bool, true, false, not, ◌==◌, if◌then◌else◌, List, [], ◌∷◌}
use ripe.Prelude.Outcome.{Outcome, ok, stop, assertion}
use ripe.Prelude.Text.{codes}
use ripe.Lang.NodeType.{
  NodeType, char, k_and, k_or, k_in, k_bit_and, k_bit_or, k_bit_xor, k_modulo, k_not, k_bit_not,
  op_equal, op_not_equal, op_lte, op_gte, same_type,
}
use ripe.Lang.Node.{Name, Node, node_type, node_num_children}

-- a table without its last entry, whose type is 0
abbrev pub OperatorTable : Type 0
OperatorTable = List (NodeType × Name)

pub binary_ot : OperatorTable
binary_ot =
    (char b'+', codes "op_plus")
    ∷ (char b'-', codes "op_minus")
    ∷ (char b'*', codes "op_star")
    ∷ (char b'/', codes "op_slash")
    ∷ (char b'^', codes "op_exp")
    ∷ (k_and, codes "op_and")
    ∷ (k_or, codes "op_or")
    ∷ (k_in, codes "op_in")
    ∷ (k_bit_and, codes "op_bit_and")
    ∷ (k_bit_or, codes "op_bit_or")
    ∷ (k_bit_xor, codes "op_bit_xor")
    ∷ (k_modulo, codes "op_modulo")
    ∷ (op_equal, codes "op_equal")
    ∷ (op_not_equal, codes "op_not_equal")
    ∷ (char b'<', codes "op_lt")
    ∷ (char b'>', codes "op_gt")
    ∷ (op_lte, codes "op_lte")
    ∷ (op_gte, codes "op_gte")
    ∷ []

pub unary_ot : OperatorTable
unary_ot =
    (char b'-', codes "op_unary_minus")
    ∷ (k_not, codes "op_unary_not")
    ∷ (k_bit_not, codes "op_unary_bit_not")
    ∷ []

-- the loop of `is_binary_op` and `is_unary_op`
pub has_type : OperatorTable → NodeType → Bool
has_type [] t = false
has_type ((u, func) ∷ ot) t = let rest = has_type ot t in if same_type t u then true else rest

-- the loop of `binary_op_map` and `unary_op_map`
pub func_of : OperatorTable → NodeType → Outcome Name
func_of [] t = stop assertion
func_of ((u, func) ∷ ot) t = let rest = func_of ot t in if same_type t u then ok func else rest

pub is_binary_op : Node → Bool
is_binary_op n = if not (node_num_children n == 2) then false else has_type binary_ot (node_type n)

pub binary_op_map : NodeType → Outcome Name
binary_op_map t = func_of binary_ot t

pub is_unary_op : Node → Bool
is_unary_op n = if not (node_num_children n == 1) then false else has_type unary_ot (node_type n)

pub unary_op_map : NodeType → Outcome Name
unary_op_map t = func_of unary_ot t
