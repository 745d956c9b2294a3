-- ===== src/Lang/Annotations/Tests.antt =====
-- Runs on a list of annotations, and the theorems at it.
use ripe.Prelude.{ℕ, ◌≡◌, refl, true, false, none, some, List, [], ◌∷◌}
use ripe.Prelude.Outcome.{ok}
use ripe.Prelude.Text.{codes, same_text}
use ripe.Clib.StringBuf.{mem_strdup}
use ripe.Lang.NodeType.{code, same_type}
use ripe.Lang.Node.{
  node_new, node_new_id, set_text, node_add_child, append_node, node_type, node_text, node_children,
  node_num_children, num_nodes, node_get_child, nth_node, text_of,
}
use ripe.Lang.Names.{util_dot_id}
use ripe.Lang.Annotations.{
  is_allowed, check_from, annot_check_simple, has_from, annot_has, get_from, annot_get_full,
  annot_get,
}
use ripe.Lang.Annotations.Keys.{
  Annotation, list_of, nth_name, values, has_plain, allowed, annot_get_full-values,
  annot_check_simple_lem,
}

program : Unit {0}
unfolding same_text code same_type node_new node_new_id set_text node_add_child append_node
    node_type node_text node_children node_num_children num_nodes node_get_child nth_node mem_strdup
    util_dot_id text_of is_allowed check_from annot_check_simple has_from annot_has get_from
    annot_get_full annot_get
program = tt

-- [virtual_get, super = Base, super = Other]
abbrev annotated : List Annotation
annotated =
    (codes "virtual_get", none)
    ∷ (codes "super", some (node_new_id (codes "Base")))
    ∷ (codes "super", some (node_new_id (codes "Other")))
    ∷ []

abbrev allowed_names : List (List ℕ)
allowed_names = codes "virtual_get" ∷ codes "=super" ∷ []

get_run : annot_get (list_of annotated) (codes "super") ≡ ok (some (codes "Base"))
unfolding program
get_run = refl

check_run : annot_check_simple (list_of annotated) allowed_names ≡ ok true
unfolding program
check_run = refl

refused_run : annot_check_simple (list_of annotated) (codes "virtual_get" ∷ []) ≡ ok false
unfolding program
refused_run = refl

annot_get_full-values_example :
    (annot_get_full (list_of annotated) (codes "super") 1
      ≡ nth_name (values (codes "super") annotated) 1)
    × (annot_has (list_of annotated) (codes "super") ≡ ok (has_plain (codes "super") annotated))
annot_get_full-values_example = annot_get_full-values annotated (codes "super") 1

annot_check_simple_lem_example :
    (allowed false (codes "c_name") allowed_names ≡ false
      → annot_get_full (list_of annotated) (codes "c_name") 0 ≡ ok none)
    × (allowed true (codes "c_name") allowed_names ≡ false
        → annot_has (list_of annotated) (codes "c_name") ≡ ok false)
annot_check_simple_lem_example =
    annot_check_simple_lem annotated allowed_names (codes "c_name") 0 check_run
