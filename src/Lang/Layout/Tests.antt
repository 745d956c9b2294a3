-- ===== src/Lang/Layout/Tests.antt =====
-- Runs of the lexer, and the theorems at concrete inputs.
use ripe.Prelude.{ℕ, ◌≡◌, refl, arith, List, [], ◌∷◌, ◌++◌, false, map, some, ◌<◌}
use ripe.Prelude.Outcome.{Outcome, ok, stop, thrown, Ends, out_of_bounds, at, ◌>>=◌}
use ripe.Lang.Layout.Depth.{depth, AllOf, is_flat}
use ripe.Lang.Layout.Balance.{lex_all-balanced}
use ripe.Lang.Layout.Indentation.{ended, semicolon, gap, dedent_lem, rc_lex-semicolon}
use ripe.Prelude.Int.{pos}
use ripe.Lang.NodeType.{NodeType, char, id, whitespace, etc, sep, start, end, choice_program}
use ripe.Lang.Layout.{
  Token, Lexer, node_new, classify, count_bracket, is_open, is_nil, read_line, is_blank,
  indentation, dedent, indent, line_type, content, is_sep, strip_seps, parse_program,
  parse_processing, lex_init, add_line, next_line, close, take_token, lex_mode, rc_lex, is_end,
  lex_all,
}

program : Unit {0}
unfolding at classify count_bracket is_open is_nil read_line is_blank indentation dedent indent
    line_type content is_sep strip_seps lex_init add_line next_line close take_token lex_mode rc_lex
    is_end lex_all
program = tt

abbrev word : Token
word = node_new id

abbrev newline : Token
newline = node_new (char b'\n')

abbrev spaces : List ℕ → Token
spaces text = record { type = whitespace; text = text }

abbrev types : Outcome (List Token) → Outcome (List NodeType)
types r = do ts ← r; ok (map (λ (n : Token). n.type) ts)

-- a line with a block of two lines, and a last line
abbrev source : List Token
source =
    word
    ∷ newline
    ∷ spaces (32 ∷ 32 ∷ [])
    ∷ word
    ∷ newline
    ∷ newline
    ∷ spaces (32 ∷ 32 ∷ [])
    ∷ word
    ∷ node_new etc
    ∷ newline
    ∷ word
    ∷ newline
    ∷ word
    ∷ newline
    ∷ []

source_lem :
    types (lex_all 30 (lex_init parse_program source))
    ≡ ok (choice_program ∷ start ∷ id ∷ start ∷ id ∷ sep ∷ id ∷ id ∷ end ∷ sep ∷ id ∷ end ∷ [])
unfolding program
source_lem = refl

-- a first line with more indentation than the second
lex_shallow :
    lex_all 30 (lex_init parse_program (spaces (32 ∷ []) ∷ word ∷ newline ∷ word ∷ []))
    ≡ stop out_of_bounds
unfolding program
lex_shallow = refl

source-flat : AllOf is_flat source
unfolding is_flat
source-flat = (
  refl,
  (
    refl,
    (
      refl,
      (refl, (refl, (refl, (refl, (refl, (refl, (refl, (refl, (refl, (refl, (refl, tt))))))))))),
    ),
  ),
)

lex_all-balanced_example :
    Ends (lex_all 44 (lex_init parse_program source)) (λ ts. depth 0 ts ≡ some 0)
lex_all-balanced_example = lex_all-balanced parse_program source source-flat

dedent_lem_example :
    (dedent (4 ∷ 2 ∷ []) 2 ≡ ok (2 ∷ [], node_new end ∷ node_new sep ∷ []))
    × (1 < 2 → dedent (4 ∷ 1 ∷ []) 2 ≡ stop thrown)
    × (dedent (4 ∷ []) 2 ≡ stop out_of_bounds)
dedent_lem_example = dedent_lem (4 ∷ []) 2 1 [] (omega arith)

-- a line of two semicolons that is indented by two, and what follows it
abbrev semicolons : List Token
semicolons =
    record { type = whitespace; text = 32 ∷ 32 ∷ [] }
    ∷ node_new (char b';')
    ∷ node_new (char b';')
    ∷ []

abbrev behind_word : Lexer
behind_word = record {
  parsing_mode = parse_processing;
  tokens = semicolons ++ newline ∷ word ∷ [];
  line = word ∷ [];
  next_token = 1;
  indents = 2 ∷ 0 ∷ [];
  prev_indentation = pos 2;
}

indented_line : (indentation semicolons ≡ 2) × (is_blank semicolons ≡ false)
unfolding program
indented_line = (refl, refl)

rc_lex-semicolon_example :
    rc_lex (record behind_word { prev_indentation = pos (indentation semicolons) })
    ≡ stop out_of_bounds
rc_lex-semicolon_example =
    rc_lex-semicolon behind_word semicolons (word ∷ [])
      (gap (32 ∷ 32 ∷ []) _ (semicolon [] _ (semicolon [] _ ended))) (indented_line.1)
