-- ===== src/Lang/Morph.antt =====
-- The interpolation of strings, `morph` of lang/tree-morph.c. `parse_expr` is what `build_tree`
-- makes of the text of an expression; the texts of messages are left out.
mod Buffer
pub mod Interpolation
mod Tests
use ripe.Prelude.{
  ℕ, zero, suc, ◌+◌, Bool, true, false, if◌then◌else◌, Option, none, some, List, [], ◌∷◌, length,
}
use ripe.Prelude.Outcome.{Outcome, ok, stop, thrown, out_of_fuel, ◌>>=◌}
use ripe.Prelude.Text.{codes, split_at}
use ripe.Clib.StringBuf.{StringBuf, mem_strdup, sbuf_init, sbuf_printf}
use ripe.Lang.NodeType.{string, expr_list, expr_field, expr_call, same_type}
use ripe.Lang.Node.{
  Name, Node, node_new, node_type, text_of, set_text, node_add_child, node_set_string,
  node_set_node, key_name, key_callee, key_args,
}

-- the node for the call, with the text of the format and the node for its arguments
pub interpolated : Name → Node → Node
interpolated format exprs =
    let new_string = set_text (node_new string) format in
    let field =
      node_set_string (node_add_child (node_new expr_field) new_string) key_name
        (some (codes "f")) in
    node_set_node (node_set_node (node_new expr_call) key_callee field) key_args exprs

-- `if (s1 > s) sbuf_printf(…)`
pub append_before : ℕ → StringBuf → Name → Outcome StringBuf
append_before junk sb [] = ok sb
append_before junk sb (c ∷ s) = sbuf_printf junk sb (c ∷ s)

module _ (junk : ℕ) (parse_expr : Name → Outcome Node) where
  -- the loop over the expressions between two `, and the text after it
  pub morph_from : ℕ → Name → StringBuf → Node → Outcome (StringBuf × Node)
  morph_from zero s sb exprs = stop out_of_fuel
  morph_from (suc fuel) s sb exprs = elim (split_at b'`' s) [
    | none ↦ do sb' ← sbuf_printf junk sb s; ok (sb', exprs)
    | some (before, s1) ↦ elim (split_at b'`' s1) [
      | none ↦ stop thrown
      | some (e, s2) ↦ do
        sb' ← append_before junk sb before
        sb'' ← sbuf_printf junk sb' (codes "{}")
        expr ← parse_expr e
        morph_from fuel s2 sb'' (node_add_child exprs expr)
    ]
  ]

  -- the part for a string with a `
  pub morph_string : Name → Outcome Node
  morph_string text = do
    sb ← sbuf_init junk []
    (sb', exprs) ← morph_from (length text + 1) text sb (node_new expr_list)
    format ← mem_strdup sb'.str
    ok (interpolated format exprs)

  pub morph : Node → Outcome Node
  morph n = elim (same_type (node_type n) string) [
    | false ↦ ok n
    | true ↦ do
      text ← text_of n
      elim (split_at b'`' text) [ none ↦ ok n | some parts ↦ morph_string text ]
  ]
