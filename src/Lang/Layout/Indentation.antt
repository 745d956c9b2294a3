-- ===== src/Lang/Layout/Indentation.antt =====
-- What a change of indentation does, and lines that the lexer does not survive.
use mathlib.Core.List.{append_assoc, append-nil}
use ripe.Prelude.{
  ℕ, suc, ◌+◌, ◌<◌, ◌≡◌, refl, sym, ap, ◌∙◌, arith, Bool, true, false, ◌==◌, ==_self, lt→ltb,
  le→ltb, List, [], ◌∷◌, ◌++◌, length, replicate,
}
use ripe.Prelude.Int.{pos, eqb_ℤ}
use ripe.Prelude.Outcome.{Outcome, ok, stop, thrown, out_of_bounds, at, ◌>>=◌}
use ripe.Lang.NodeType.{char, whitespace, sep, end}
use ripe.Lang.Layout.{
  Token, node_new, dedent, Lexer, parse_processing, rc_lex, lex_mode, next_line, read_line,
  add_line, indent, indentation, content, line_type, classify, no_brackets, count_bracket, is_open,
  is_nil, is_blank, is_sep, strip_seps, take_token,
}

-- all numbers are above `ind`
abbrev pub AllAbove : ℕ → List ℕ → Type 0
AllAbove ind [] = Unit {0}
AllAbove ind (p ∷ ps) = (ind < p) × AllAbove ind ps

-- With larger indentations on top of the stack: if the line's own comes next, each of those gives an
-- END, a SEP follows and the others stay; if a smaller one comes next, the lexer throws; if there is
-- no other, it pops from the empty stack.
pub dedent_lem :
    (larger : List ℕ) (ind p : ℕ) (rest : List ℕ)
    → AllAbove ind larger
    → (dedent (larger ++ ind ∷ rest) ind
        ≡ ok (ind ∷ rest, replicate (length larger) (node_new end) ++ node_new sep ∷ []))
      × (p < ind → dedent (larger ++ p ∷ rest) ind ≡ stop thrown)
      × (dedent larger ind ≡ stop out_of_bounds)
unfolding dedent
dedent_lem [] ind p rest h = (
  rw (le→ltb ind ind (omega arith), ==_self ind) refl,
  λ less.
      let differs : (p == ind) ≡ false = ground arith in
      rw (le→ltb ind p (omega arith), differs) refl,
  refl,
)
dedent_lem (q ∷ larger) ind p rest h =
    let (found, lost, empty) = dedent_lem larger ind p rest h.1 in
    let deeper = lt→ltb ind q h.0 in
    (rw (deeper, found) refl, λ less. rw (deeper, lost less) refl, rw (deeper, empty) refl)

-- a line of semicolons, with whitespace between them or none
pub data AllSemicolons : List Token → Type 0 where
  ended : AllSemicolons []
  semicolon :
      (text : List ℕ) (raw : List Token)
      → AllSemicolons raw
      → AllSemicolons (record { type = char b';'; text = text } ∷ raw)
  gap :
      (text : List ℕ) (raw : List Token)
      → AllSemicolons raw
      → AllSemicolons (record { type = whitespace; text = text } ∷ raw)

read_line-semicolons :
    (raw rest acc : List Token)
    → AllSemicolons raw
    → read_line (raw ++ node_new (char b'\n') ∷ rest) false no_brackets acc
      ≡ ok (false, acc ++ raw, rest)
unfolding read_line classify count_bracket is_open
read_line-semicolons _ rest acc ended = ap (λ t. ok (false, t, rest)) (sym (append-nil acc))
read_line-semicolons _ rest acc (semicolon text raw all) =
    let n : Token = record { type = char b';'; text = text } in
    read_line-semicolons raw rest (acc ++ n ∷ []) all
    ∙ ap (λ t. ok (false, t, rest)) (append_assoc acc (n ∷ []) raw)
read_line-semicolons _ rest acc (gap text raw all) =
    let n : Token = record { type = whitespace; text = text } in
    read_line-semicolons raw rest (acc ++ n ∷ []) all
    ∙ ap (λ t. ok (false, t, rest)) (append_assoc acc (n ∷ []) raw)

-- All of the line is taken off from its end.
strip_seps-content : (raw : List Token) → AllSemicolons raw → strip_seps (content raw) ≡ []
unfolding strip_seps content classify line_type is_sep is_nil
strip_seps-content _ ended = refl
strip_seps-content _ (semicolon text raw all) = rw (strip_seps-content raw all) refl
strip_seps-content _ (gap text raw all) = strip_seps-content raw all

-- with the SEP that the same indentation puts first
add_line-semicolons :
    (lexer : Lexer) (raw : List Token)
    → AllSemicolons raw
    → lexer.prev_indentation ≡ pos (indentation raw)
    → add_line lexer raw ≡ ok (record lexer { line = []; prev_indentation = pos (indentation raw) })
unfolding add_line indent strip_seps is_sep is_nil
add_line-semicolons lexer raw all e =
    let same : eqb_ℤ (pos (indentation raw)) lexer.prev_indentation ≡ true =
      rw e (==_self (indentation raw + 0)) in
    rw (same, strip_seps-content raw all) refl

-- a line that is not blank is the next one
line_chosen :
    (fuel : ℕ) (lexer lexer' : Lexer) (raw : List Token)
    → is_blank raw ≡ false
    → add_line lexer raw ≡ ok lexer'
    → ◌≡◌ {A = Outcome (Bool × Lexer)}
        (elim (is_blank raw) [
          | true ↦ next_line fuel lexer
          | false ↦ do lexer'' ← add_line lexer raw; ok (false, lexer'')
        ])
        (ok (false, lexer'))
line_chosen fuel lexer lexer' raw held added = rw (held, added) refl

next_line-semicolons :
    (fuel : ℕ) (lexer : Lexer) (raw rest : List Token)
    → AllSemicolons raw
    → is_blank raw ≡ false
    → lexer.prev_indentation ≡ pos (indentation raw)
    → next_line (suc fuel) (record lexer { tokens = raw ++ node_new (char b'\n') ∷ rest })
      ≡ ok (
        false,
        record lexer { tokens = rest; line = []; prev_indentation = pos (indentation raw) },
      )
unfolding next_line
next_line-semicolons fuel lexer raw rest all held same =
    let read : read_line (raw ++ node_new (char b'\n') ∷ rest) false no_brackets []
        ≡ ok (false, raw, rest) =
      read_line-semicolons raw rest [] all in
    let lexer' : Lexer = record lexer { tokens = rest } in
    rw (read, next_line)
      (line_chosen fuel lexer' _ raw held (add_line-semicolons lexer' raw all same))

-- A lexer that has taken all tokens of a line, before a line that has only semicolons and whitespace
-- (and something else than no token or one of whitespace) and the indentation of the line before:
-- rc_lex makes an empty line of it and then reads behind that.
pub rc_lex-semicolon :
    (lexer : Lexer) (raw rest : List Token)
    → AllSemicolons raw
    → is_blank raw ≡ false
    → rc_lex (record lexer {
      parsing_mode = parse_processing;
      tokens = raw ++ node_new (char b'\n') ∷ rest;
      next_token = length lexer.line;
      prev_indentation = pos (indentation raw);
    })
      ≡ stop out_of_bounds
unfolding rc_lex lex_mode take_token at
rc_lex-semicolon lexer raw rest all held =
    let tokens : List Token = raw ++ node_new (char b'\n') ∷ rest in
    let fuel : length tokens + 1 ≡ suc (length tokens) = omega arith in
    let next =
      next_line-semicolons (length tokens)
        (record lexer {
          parsing_mode = parse_processing;
          line = [];
          next_token = 0;
          prev_indentation = pos (indentation raw);
        })
        raw rest all held refl in
    rw (==_self (length lexer.line), fuel, next, rc_lex, lex_mode) refl
