-- ===== src/Lang/Names.antt =====
-- The names of lang/util.c: trimming, replacing, the names in C, dotted names, and the names of node
-- types.
pub mod Escaping
pub mod Dotted
mod Tests
use ripe.Prelude.{
  ℕ, zero, suc, ◌+◌, ◌*◌, Bool, true, false, ◌==◌, ltb, if◌then◌else◌, Option, none, some, List, [],
  ◌∷◌, ◌++◌, length, replicate,
}
use ripe.Prelude.Outcome.{Outcome, ok, stop, assertion, null_pointer, out_of_bounds, ◌>>=◌}
use ripe.Prelude.Text.{codes}
use ripe.Clib.StringBuf.{StringBuf, write_at, strcat, mem_strdup, sbuf_init, sbuf_printf}
use ripe.Lang.NodeType.{
  NodeType, char, id, int, double, string, character, symbol, sep, start, end, c_code, k_namespace,
  k_return, k_true, k_false, k_nil, k_eof, k_and, k_or, k_not, k_bit_and, k_bit_or, k_bit_xor,
  k_bit_not, k_modulo, k_if, k_else, k_elif, k_while, k_break, k_continue, k_loop, k_switch, k_case,
  k_is, k_try, k_catch, k_finally, k_raise, k_for, k_in, k_pass, k_class, k_var, k_arrow, op_equal,
  op_not_equal, op_lte, op_gte, expr_field, same_type, code,
}
use ripe.Lang.Node.{Name, Node, Nodes, node, nil, cons, node_get_string, key_name}

-- the text without its last character
pub without_last : Name → Name
without_last [] = []
without_last (c ∷ []) = []
without_last (c ∷ d ∷ s) = c ∷ without_last (d ∷ s)

-- Of one character, the NUL goes before the text that is returned.
pub util_trim_ends : Name → Outcome Name
util_trim_ends [] = stop out_of_bounds
util_trim_ends (c ∷ s) = ok (without_last s)

module _ (junk : ℕ) where
  -- the loop of `util_replace`
  pub replace_from : Name → ℕ → Name → StringBuf → Outcome StringBuf
  replace_from [] c by sb = ok sb
  replace_from (x ∷ str) c by sb =
      sbuf_printf junk sb (if x == c then by else x ∷ []) >>= replace_from str c by

  pub util_replace : Name → ℕ → Name → Outcome Name
  util_replace str c by = do
    sb ← sbuf_init junk []
    sb' ← replace_from str c by sb
    mem_strdup sb'.str

-- what `util_escape` appends for a character
pub escaped : ℕ → Name
escaped c =
    if c == b'.'
    then b'_' ∷ []
    else if c == b'?'
    then b'_' ∷ b'Q' ∷ []
    else if c == b'!'
    then b'_' ∷ b'E' ∷ []
    else c ∷ []

pub escape_from : Name → Name → Outcome Name
escape_from [] tmp = ok tmp
escape_from (c ∷ s) tmp = strcat tmp (escaped c) >>= escape_from s

-- `junk` is what a fresh byte of `tmp` holds
pub util_escape : ℕ → Name → Outcome Name
util_escape junk ripe_name = do
  tmp ← write_at (replicate (length ripe_name * 2 + 4) junk) 0 (0 ∷ [])
  tmp' ← escape_from ripe_name tmp
  mem_strdup tmp'

pub util_c_name : ℕ → Name → Outcome Name
util_c_name junk ripe_name = do s ← util_escape junk ripe_name; ok (b'_' ∷ b'_' ∷ s)

-- `mem_asprintf("%s.%s", s, field)` where `s` is not NULL
pub dotted : Option Name → Option Name → Outcome (Option Name)
dotted none field = ok none
dotted (some s) none = stop null_pointer
dotted (some s) (some field) = ok (some (s ++ b'.' ∷ field))

-- `none` is NULL: a node that is not an identifier or a field of one
unfoldable pub util_dot_id : Node → Outcome (Option Name)
util_dot_id (node t text filename line nil strings nodes) =
    if same_type t id then ok text else if same_type t expr_field then stop assertion else ok none
util_dot_id (node t text filename line (cons parent ns) strings nodes) =
    let field = (do
      name ← node_get_string (node t text filename line (cons parent ns) strings nodes) key_name
      s ← util_dot_id parent
      dotted s name) in
    if same_type t id then ok text else if same_type t expr_field then field else ok none

pub node_map : List (NodeType × Name)
node_map =
    (id, codes "ID")
    ∷ (int, codes "INT")
    ∷ (double, codes "DOUBLE")
    ∷ (string, codes "STRING")
    ∷ (character, codes "CHARACTER")
    ∷ (symbol, codes "SYMBOL")
    ∷ (sep, codes "SEP")
    ∷ (start, codes "START")
    ∷ (end, codes "END")
    ∷ (c_code, codes "C_CODE")
    ∷ (k_namespace, codes "namespace")
    ∷ (k_return, codes "return")
    ∷ (k_true, codes "true")
    ∷ (k_false, codes "false")
    ∷ (k_nil, codes "nil")
    ∷ (k_eof, codes "eof")
    ∷ (k_and, codes "and")
    ∷ (k_or, codes "or")
    ∷ (k_not, codes "not")
    ∷ (k_bit_and, codes "bit_and")
    ∷ (k_bit_or, codes "bit_or")
    ∷ (k_bit_xor, codes "bit_xor")
    ∷ (k_bit_not, codes "bit_not")
    ∷ (k_modulo, codes "modulo")
    ∷ (k_if, codes "if")
    ∷ (k_else, codes "else")
    ∷ (k_elif, codes "elif")
    ∷ (k_while, codes "while")
    ∷ (k_break, codes "break")
    ∷ (k_continue, codes "continue")
    ∷ (k_loop, codes "loop")
    ∷ (k_switch, codes "switch")
    ∷ (k_case, codes "case")
    ∷ (k_is, codes "is")
    ∷ (k_try, codes "try")
    ∷ (k_catch, codes "catch")
    ∷ (k_finally, codes "finally")
    ∷ (k_raise, codes "raise")
    ∷ (k_for, codes "for")
    ∷ (k_in, codes "in")
    ∷ (k_pass, codes "pass")
    ∷ (k_class, codes "class")
    ∷ (k_var, codes "var")
    ∷ (k_arrow, codes "=>")
    ∷ (op_equal, codes "==")
    ∷ (op_not_equal, codes "!]")
    ∷ (op_lte, codes "<=")
    ∷ (op_gte, codes ">=")
    ∷ []

-- `decimal` is what "%d" prints
pub type_name : (ℕ → Name) → List (NodeType × Name) → NodeType → Name
type_name decimal [] t = if ltb (code t) 128 then code t ∷ [] else decimal (code t)
type_name decimal ((u, text) ∷ entries) t =
    let rest = type_name decimal entries t in if same_type u t then text else rest

pub util_node_type : (ℕ → Name) → NodeType → Name
util_node_type decimal t = type_name decimal node_map t
