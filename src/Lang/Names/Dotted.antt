-- ===== src/Lang/Names/Dotted.antt =====
-- The dotted name of a field of a field.
use ripe.Prelude.{◌≡◌, refl, Option, none, some, List, [], ◌∷◌, ◌++◌}
use ripe.Prelude.Outcome.{ok}
use ripe.Prelude.Text.{same_text}
use ripe.Lang.NodeType.{expr_field, same_type, code}
use ripe.Lang.Node.{
  Name, Node, node_new, node_new_id, set_text, node_add_child, append_node, node_set_string,
  node_get_string, lookup_string, props_strings, key_name,
}
use ripe.Lang.Names.{dotted, util_dot_id}

-- the node for `n.f`, as the parser makes it
abbrev pub field_of : Node → Name → Node
field_of n f = node_set_string (node_add_child (node_new expr_field) n) key_name (some f)

-- the node for `n.f.g…`
abbrev pub fields_of : Node → List Name → Node
fields_of n [] = n
fields_of n (f ∷ fs) = fields_of (field_of n f) fs

abbrev pub join : Name → List Name → Name
join s [] = s
join s (f ∷ fs) = join (s ++ b'.' ∷ f) fs

dot_id-field :
    (n : Node) (f : Name) {r : Option Name}
    → util_dot_id n ≡ ok r
    → util_dot_id (field_of n f) ≡ dotted r (some f)
unfolding util_dot_id node_set_string node_add_child node_new append_node node_get_string
    props_strings lookup_string same_type code same_text
dot_id-field n f e = rw e refl

dot_id-fields :
    (fs : List Name) (n : Node) (s : Name)
    → util_dot_id n ≡ ok (some s)
    → util_dot_id (fields_of n fs) ≡ ok (some (join s fs))
unfolding dotted
dot_id-fields [] n s e = e
dot_id-fields (f ∷ fs) n s e = dot_id-fields fs (field_of n f) (s ++ b'.' ∷ f) (dot_id-field n f e)

null-fields :
    (fs : List Name) (n : Node) → util_dot_id n ≡ ok none → util_dot_id (fields_of n fs) ≡ ok none
unfolding dotted
null-fields [] n e = e
null-fields (f ∷ fs) n e = null-fields fs (field_of n f) (dot_id-field n f e)

dot_id-id : (s : Name) → util_dot_id (node_new_id s) ≡ ok (some s)
unfolding util_dot_id node_new_id node_new set_text same_type code
dot_id-id s = refl

-- Of the fields of an identifier, util_dot_id returns the names with dots between them; of the fields
-- of a node of which it returns NULL, it returns NULL.
pub util_dot_id_lem :
    (s : Name) (n : Node) (fs : List Name)
    → (util_dot_id (fields_of (node_new_id s) fs) ≡ ok (some (join s fs)))
      × (util_dot_id n ≡ ok none → util_dot_id (fields_of n fs) ≡ ok none)
util_dot_id_lem s n fs = (dot_id-fields fs (node_new_id s) s (dot_id-id s), null-fields fs n)
