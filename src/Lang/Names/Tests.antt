-- ===== src/Lang/Names/Tests.antt =====
-- Runs on names, and the theorem at concrete ones.
use ripe.Prelude.{◌≡◌, refl, true, []}
use ripe.Prelude.Outcome.{ok, stop, out_of_bounds, put, Returns}
use ripe.Prelude.Text.{codes, lacks}
use ripe.Clib.StringBuf.{write_at, strlen, strcat, mem_strdup, sbuf_init, sbuf_printf}
use ripe.Lang.NodeType.{k_in, op_not_equal, code, same_type}
use ripe.Lang.Names.{
  without_last, util_trim_ends, replace_from, util_replace, escaped, escape_from, util_escape,
  util_c_name, dotted, util_dot_id, node_map, type_name, util_node_type,
}
use ripe.Lang.Names.Escaping.{Escapes, util_escape_lem}

program : Unit {0}
unfolding put write_at strlen strcat mem_strdup sbuf_init sbuf_printf without_last util_trim_ends
    replace_from util_replace escaped escape_from util_escape util_c_name dotted util_dot_id
    node_map type_name util_node_type code same_type lacks
program = tt

trim_run : util_trim_ends (codes "'abc'") ≡ ok (codes "abc")
unfolding program
trim_run = refl

trim_empty : util_trim_ends [] ≡ stop out_of_bounds
unfolding program
trim_empty = refl

replace_run : util_replace 9 (codes "a'b'") b'\'' (codes "\\'") ≡ ok (codes "a\\'b\\'")
unfolding program
replace_run = refl

c_name_run : util_c_name 9 (codes "Str.is_empty?") ≡ ok (codes "__Str_is_empty_Q")
unfolding program
c_name_run = refl

node_type_run : util_node_type (λ n. []) k_in ≡ codes "in"
unfolding program
node_type_run = refl

node_type_bracket : util_node_type (λ n. []) op_not_equal ≡ codes "!]"
unfolding program
node_type_bracket = refl

lacks_name : lacks 0 (codes "a.b!") ≡ true
unfolding program
lacks_name = refl

lacks_ab : lacks 0 (codes "ab") ≡ true
unfolding program
lacks_ab = refl

util_escape_lem_example :
    Returns (util_escape 9 (codes "a.b!")) (Escapes (codes "a.b!"))
    × (util_c_name 9 (codes "a.b") ≡ util_c_name 9 (codes "a_b"))
util_escape_lem_example =
    util_escape_lem 9 (codes "a.b!") (codes "a") (codes "b") lacks_name lacks_ab
