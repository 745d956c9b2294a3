-- ===== src/Lang/NodeType.antt =====
-- The types of nodes: the characters and tokens of lang/parser.y, and the nonterminals of
-- lang/lang.h.
use ripe.Prelude.{ℕ, Bool, true, ◌≡◌, ◌==◌, ==_self}

pub data NodeType : Type 0 where
  char : ℕ → NodeType
  id int double string character symbol : NodeType
  comment whitespace unknown etc : NodeType
  sep start end c_code choice_program choice_expr : NodeType
  k_namespace k_return k_true k_false k_nil k_eof k_and k_or k_not : NodeType
  k_bit_and k_bit_or k_bit_xor k_bit_not k_modulo : NodeType
  k_if k_else k_elif k_while k_break k_continue k_loop k_switch k_case k_is : NodeType
  k_try k_catch k_finally k_raise k_for k_in k_pass k_class k_destroy k_var k_block k_arrow :
      NodeType
  op_equal op_not_equal op_lte op_gte : NodeType
  toplevel_list namespace function stmt_list class param tl_var : NodeType
  global_var const_var top_var : NodeType
  stmt_expr stmt_return stmt_if stmt_elif stmt_else stmt_pass stmt_assign stmt_destroy : NodeType
  stmt_break stmt_continue stmt_for stmt_loop stmt_switch : NodeType
  stmt_try stmt_catch stmt_finally stmt_raise : NodeType
  expr_index expr_array expr_map expr_field expr_at_var : NodeType
  expr_range_bounded expr_range_bounded_left expr_range_bounded_right : NodeType
  expr_range_unbounded expr_is_type expr_typed_id expr_block expr_call : NodeType
  id_list expr_list param_list optassign_list optassign type case_list case : NodeType
  mapping_list mapping annot_list annot : NodeType

-- the number of a type; bison numbers its tokens from 258 on
unfoldable pub code : NodeType → ℕ
code (char c) = c
code id = 258
code int = 259
code double = 260
code string = 261
code character = 262
code symbol = 263
code comment = 264
code whitespace = 265
code unknown = 266
code etc = 267
code sep = 268
code start = 269
code end = 270
code c_code = 271
code choice_program = 272
code choice_expr = 273
code k_namespace = 274
code k_return = 275
code k_true = 276
code k_false = 277
code k_nil = 278
code k_eof = 279
code k_and = 280
code k_or = 281
code k_not = 282
code k_bit_and = 283
code k_bit_or = 284
code k_bit_xor = 285
code k_bit_not = 286
code k_modulo = 287
code k_if = 288
code k_else = 289
code k_elif = 290
code k_while = 291
code k_break = 292
code k_continue = 293
code k_loop = 294
code k_switch = 295
code k_case = 296
code k_is = 297
code k_try = 298
code k_catch = 299
code k_finally = 300
code k_raise = 301
code k_for = 302
code k_in = 303
code k_pass = 304
code k_class = 305
code k_destroy = 306
code k_var = 307
code k_block = 308
code k_arrow = 309
code op_equal = 310
code op_not_equal = 311
code op_lte = 312
code op_gte = 313
code toplevel_list = 1000
code namespace = 1001
code function = 1002
code stmt_list = 1003
code class = 1004
code param = 1006
code tl_var = 1008
code global_var = 1007
code const_var = 1009
code top_var = 1010
code stmt_expr = 1100
code stmt_return = 1101
code stmt_if = 1102
code stmt_elif = 1103
code stmt_else = 1104
code stmt_pass = 1105
code stmt_assign = 1106
code stmt_destroy = 1107
code stmt_break = 1111
code stmt_continue = 1112
code stmt_for = 1113
code stmt_loop = 1114
code stmt_switch = 1115
code stmt_try = 1120
code stmt_catch = 1121
code stmt_finally = 1122
code stmt_raise = 1123
code expr_index = 1232
code expr_array = 1233
code expr_map = 1234
code expr_field = 1235
code expr_at_var = 1236
code expr_range_bounded = 1240
code expr_range_bounded_left = 1241
code expr_range_bounded_right = 1242
code expr_range_unbounded = 1243
code expr_is_type = 1244
code expr_typed_id = 1245
code expr_block = 1246
code expr_call = 1247
code id_list = 1350
code expr_list = 1351
code param_list = 1352
code optassign_list = 1353
code optassign = 1354
code type = 1355
code case_list = 1356
code case = 1357
code mapping_list = 1358
code mapping = 1359
code annot_list = 1360
code annot = 1361

-- `type == other`
unfoldable pub same_type : NodeType → NodeType → Bool
same_type t u = code t == code u

pub same_type_self : (t : NodeType) → same_type t t ≡ true
unfolding same_type
same_type_self t = ==_self (code t)
