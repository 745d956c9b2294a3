-- ===== src/Lang/Layout.antt =====
-- The lexer between flex and bison of lang/build-tree.c: it joins lines, and turns the indentation
-- of lines into the tokens START, SEP and END. What yylex will return is a list of tokens, in which
-- 0 and the end of the list stand for the end of the input. The numbers of lines are left out.
mod Lines
mod Depth
mod Content
mod Next
pub mod Balance
pub mod Indentation
mod Tests
use ripe.Prelude.{
  ℕ, zero, suc, ◌+◌, Bool, true, false, ◌==◌, ◌||◌, ◌&&◌, ltb, if◌then◌else◌, List, [], ◌∷◌, ◌++◌,
  length,
}
use ripe.Prelude.Int.{ℤ, pos, negsuc, ◌+ℤ◌, ltb_ℤ, eqb_ℤ}
use ripe.Prelude.Outcome.{Outcome, ok, stop, thrown, out_of_bounds, out_of_fuel, at, ◌>>=◌}
use ripe.Lang.NodeType.{
  NodeType, char, whitespace, unknown, etc, sep, start, end, choice_program, choice_expr,
}

-- a token node; one without text has the empty one
pub record Token : Type 0 where
  pub type : NodeType
  pub text : List ℕ

abbrev pub node_new : NodeType → Token
node_new t = record { type = t; text = [] }

-- what `lex_read_line` and `lex_read` ask of a token's type
pub data TokenClass : Type 0 where
  invalid end_of_input newline ellipsis blank other : TokenClass

pub classify : NodeType → TokenClass
classify (char c) = if c == 0 then end_of_input else if c == b'\n' then newline else other
classify unknown = invalid
classify etc = ellipsis
classify whitespace = blank
classify _ = other

-- `counter_p`, `counter_s` and `counter_b`
pub record Counters : Type 0 where
  pub counter_p : ℤ
  pub counter_s : ℤ
  pub counter_b : ℤ

abbrev pub no_brackets : Counters
no_brackets = record { counter_p = pos 0; counter_s = pos 0; counter_b = pos 0 }

pub count_bracket : NodeType → Counters → Counters
count_bracket (char c) cs =
    if c == b'('
    then record cs { counter_p = cs.counter_p +ℤ pos 1 }
    else if c == b')'
    then record cs { counter_p = cs.counter_p +ℤ negsuc 0 }
    else if c == b'['
    then record cs { counter_s = cs.counter_s +ℤ pos 1 }
    else if c == b']'
    then record cs { counter_s = cs.counter_s +ℤ negsuc 0 }
    else if c == b'{'
    then record cs { counter_b = cs.counter_b +ℤ pos 1 }
    else if c == b'}'
    then record cs { counter_b = cs.counter_b +ℤ negsuc 0 }
    else cs
count_bracket _ cs = cs

pub is_open : Counters → Bool
is_open cs = ltb_ℤ (pos 0) cs.counter_p || ltb_ℤ (pos 0) cs.counter_s || ltb_ℤ (pos 0) cs.counter_b

pub is_nil {ℓ} : {A : Type ℓ} → List A → Bool
is_nil [] = true
is_nil (x ∷ xs) = false

-- `lex_read_line`: whether the end was reached, `raw_line`, and the tokens that are left. The flag
-- says that the loop behind an ellipsis is running.
pub read_line : List Token → Bool → Counters → List Token → Outcome (Bool × List Token × List Token)
read_line [] true cs raw = stop thrown
read_line [] false cs raw = ok (is_nil raw, raw, [])
read_line (n ∷ tokens) true cs raw = elim (classify n.type) [
  | newline ↦ read_line tokens false cs raw
  | blank ↦ read_line tokens true cs raw
  | _ ↦ stop thrown
]
read_line (n ∷ tokens) false cs raw = elim (classify n.type) [
  | invalid ↦ stop thrown
  | end_of_input ↦ ok (is_nil raw, raw, tokens)
  | newline ↦ elim (is_open cs) [
    | true ↦ read_line tokens false cs raw
    | false ↦ ok (false, raw, tokens)
  ]
  | ellipsis ↦ read_line tokens true cs raw
  | _ ↦ read_line tokens false (count_bracket n.type cs) (raw ++ n ∷ [])
]

-- a line without tokens, or with whitespace only
pub is_blank : List Token → Bool
is_blank [] = true
is_blank (n ∷ []) = elim (classify n.type) [ blank ↦ true | _ ↦ false ]
is_blank (n ∷ m ∷ raw) = false

pub indentation : List Token → ℕ
indentation [] = 0
indentation (n ∷ raw) = elim (classify n.type) [ blank ↦ length n.text | _ ↦ 0 ]

-- the loop for a smaller indentation: the indentations left, and the tokens it appends
pub dedent : List ℕ → ℕ → Outcome (List ℕ × List Token)
dedent [] ind = stop out_of_bounds
dedent (p ∷ indents) ind =
    let rest = dedent indents ind in
    if ltb ind p
    then (do (indents', line) ← rest; ok (indents', node_new end ∷ line))
    else if p == ind
    then ok (p ∷ indents, node_new sep ∷ [])
    else stop thrown

-- the comparison with the previous indentation
pub indent : List ℕ → ℤ → ℕ → Outcome (List ℕ × List Token)
indent indents prev ind =
    if eqb_ℤ (pos ind) prev
    then ok (indents, node_new sep ∷ [])
    else if ltb_ℤ prev (pos ind)
    then ok (ind ∷ indents, node_new start ∷ [])
    else dedent indents ind

-- the type of a token in `line`: `;` becomes SEP
pub line_type : NodeType → NodeType
line_type (char c) = if c == b';' then sep else char c
line_type t = t

-- what goes from `raw_line` into `line`
pub content : List Token → List Token
content [] = []
content (n ∷ raw) = elim (classify n.type) [
  | blank ↦ content raw
  | _ ↦ record n { type = line_type n.type } ∷ content raw
]

pub is_sep : NodeType → Bool
is_sep sep = true
is_sep _ = false

-- the loop from the end of the line that takes off each SEP
pub strip_seps : List Token → List Token
strip_seps [] = []
strip_seps (n ∷ line) =
    let rest = strip_seps line in if is_sep n.type && is_nil rest then [] else n ∷ rest

pub data ParsingMode : Type 0 where
  parse_program parse_expr parse_processing : ParsingMode

pub record Lexer : Type 0 where
  pub parsing_mode : ParsingMode
  pub tokens : List Token
  pub line : List Token
  pub next_token : ℕ
  pub indents : List ℕ
  pub prev_indentation : ℤ

-- `build_tree` with `lex_init`
pub lex_init : ParsingMode → List Token → Lexer
lex_init mode tokens = record {
  parsing_mode = mode;
  tokens = tokens;
  line = [];
  next_token = 0;
  indents = [];
  prev_indentation = negsuc 0;
}

-- a line that is not blank
pub add_line : Lexer → List Token → Outcome Lexer
add_line lexer raw = do
  let ind : ℕ = indentation raw
  (indents, first) ← indent lexer.indents lexer.prev_indentation ind
  ok (record lexer {
    line = strip_seps (first ++ content raw);
    indents = indents;
    prev_indentation = pos ind;
  })

-- the loop of `rc_lex` over the lines: whether the end was reached
pub next_line : ℕ → Lexer → Outcome (Bool × Lexer)
next_line zero lexer = stop out_of_fuel
next_line (suc fuel) lexer = do
  (eof, raw, rest) ← read_line lexer.tokens false no_brackets []
  let lexer' : Lexer = record lexer { tokens = rest }
  elim eof [
    | true ↦ ok (true, lexer')
    | false ↦ elim (is_blank raw) [
      | true ↦ next_line fuel lexer'
      | false ↦ do lexer'' ← add_line lexer' raw; ok (false, lexer'')
    ]
  ]

-- the end of the input, with `indents`: END for each indentation that is left, then 0
pub close : List ℕ → Lexer → Outcome (Token × Lexer)
close [] lexer = ok (node_new (char 0), lexer)
close (p ∷ indents) lexer = ok (node_new end, record lexer { indents = indents })

pub take_token : Lexer → Outcome (Token × Lexer)
take_token lexer = do
  n ← at lexer.line lexer.next_token
  ok (n, record lexer { next_token = lexer.next_token + 1 })

-- `rc_lex` in a parsing mode
pub lex_mode : ParsingMode → Lexer → Outcome (Token × Lexer)
lex_mode parse_program lexer =
    ok (node_new choice_program, record lexer { parsing_mode = parse_processing })
lex_mode parse_expr lexer =
    ok (node_new choice_expr, record lexer { parsing_mode = parse_processing })
lex_mode parse_processing lexer = elim (lexer.next_token == length lexer.line) [
  | false ↦ take_token lexer
  | true ↦ do
    (eof, lexer') ← next_line (length lexer.tokens + 1) (record lexer { line = []; next_token = 0 })
    elim eof [ true ↦ close lexer'.indents lexer' | false ↦ take_token lexer' ]
]

-- A token whose type is 0 is the end.
pub rc_lex : Lexer → Outcome (Token × Lexer)
rc_lex lexer = lex_mode lexer.parsing_mode lexer

pub is_end : NodeType → Bool
is_end t = elim (classify t) [ end_of_input ↦ true | _ ↦ false ]

-- the tokens that the parser reads, up to the end
pub lex_all : ℕ → Lexer → Outcome (List Token)
lex_all zero lexer = stop out_of_fuel
lex_all (suc fuel) lexer = do
  (n, lexer') ← rc_lex lexer
  elim (is_end n.type) [ true ↦ ok [] | false ↦ do rest ← lex_all fuel lexer'; ok (n ∷ rest) ]
