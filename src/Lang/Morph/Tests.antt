-- ===== src/Lang/Morph/Tests.antt =====
-- Runs of `morph`, with a parser that takes every expression for an identifier, and the theorem at a
-- concrete string.
use ripe.Prelude.{◌≡◌, refl, arith, true, if◌then◌else◌, List, [], ◌∷◌}
use ripe.Prelude.Outcome.{Outcome, ok, stop, thrown, put}
use ripe.Prelude.Text.{codes, lacks, same_text, split_at}
use ripe.Clib.StringBuf.{write_at, strlen, strcat, mem_strdup, sbuf_init, sbuf_printf}
use ripe.Lang.NodeType.{string, code, same_type}
use ripe.Lang.Node.{
  Name, Node, node_new, node_new_id, node_type, node_text, text_of, set_text, node_add_child,
  append_node, node_set_string, node_set_node, add_children, node_new_field_call,
}
use ripe.Lang.Morph.{interpolated, append_before, morph_from, morph_string, morph}
use ripe.Lang.Morph.Interpolation.{Part, AllParsed, AllQuotable, morph_lem}

program : Unit {0}
unfolding put lacks split_at write_at strlen strcat mem_strdup sbuf_init sbuf_printf code same_type
    node_new node_new_id node_type node_text text_of set_text node_add_child append_node
    node_set_string node_set_node add_children node_new_field_call interpolated append_before
    morph_from morph_string morph
program = tt

abbrev text_node : Name → Node
text_node s = set_text (node_new string) s

morph_run :
    morph 9 (λ e. ok (node_new_id e)) (text_node (codes "a`b`c`d`"))
    ≡ ok (
        node_new_field_call
          (text_node (codes "a{}c{}"))
          (codes "f")
          (node_new_id (codes "b") ∷ node_new_id (codes "d") ∷ []))
unfolding program
morph_run = refl

morph_other :
    morph 9 (λ e. stop thrown) (node_new_id (codes "a`b`")) ≡ ok (node_new_id (codes "a`b`"))
unfolding program
morph_other = refl

text_kind : node_type (node_new string) ≡ string
unfolding program
text_kind = refl

abbrev parts : List Part
parts = (codes "a", codes "b") ∷ ([], codes "d") ∷ []

parts-AllQuotable : AllQuotable parts
unfolding program
parts-AllQuotable = (refl, refl, refl, (refl, refl, refl, tt))

lacks_marks :
    (lacks b'`' (codes "c") ≡ true) × (lacks 0 (codes "c") ≡ true) × (lacks b'`' (codes "!") ≡ true)
unfolding program
lacks_marks = (refl, refl, refl)

-- a parser that throws on !
abbrev identifier : Name → Outcome Node
identifier e = if same_text e (codes "!") then stop thrown else ok (node_new_id e)

parts-AllParsed : AllParsed identifier node_new_id parts
unfolding same_text
parts-AllParsed = (refl, (refl, tt))

identifier_bad : identifier (codes "!") ≡ stop thrown
unfolding same_text
identifier_bad = refl

morph_lem_example :
    (morph 9 identifier (text_node (codes "a`b``d`c"))
      ≡ ok (
          node_new_field_call
            (text_node (codes "a{}{}c"))
            (codes "f")
            (node_new_id (codes "b") ∷ node_new_id (codes "d") ∷ [])))
    × (morph 9 identifier (text_node (codes "a`b``d`c`c")) ≡ stop thrown)
    × (morph 9 identifier (text_node (codes "a`b``d`c`!`c")) ≡ stop thrown)
    × (morph 9 identifier (text_node (codes "c")) ≡ ok (text_node (codes "c")))
morph_lem_example =
    morph_lem 9 identifier node_new_id (node_new string) (codes "a") (codes "b")
      (([], codes "d") ∷ []) (codes "c") (codes "!") (codes "c") thrown parts-AllParsed
      identifier_bad text_kind parts-AllQuotable (lacks_marks.0) (lacks_marks.1) (lacks_marks.2)
      (lacks_marks.0) (omega arith)
