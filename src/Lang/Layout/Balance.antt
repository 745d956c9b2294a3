-- ===== src/Lang/Layout/Balance.antt =====
-- The tokens that the parser reads are balanced, and their end is reached.
use ripe.Prelude.{
  ℕ, zero, suc, ◌+◌, ◌*◌, ◌≤◌, ◌<◌, ◌≡◌, refl, ap, arith, Bool, true, false, Bool-cases, inl, inr,
  some, List, [], ◌∷◌, length, drop, tests, ◌==◌,
}
use ripe.Prelude.Outcome.{ok, Ends, Ends_bind, Ends_weaken, ◌>>=◌}
use ripe.Prelude.Prefixes.{drop_end}
use ripe.Lang.NodeType.{choice_program, choice_expr}
use ripe.Lang.Layout.{
  Token, classify, is_end, Lexer, ParsingMode, parse_program, parse_expr, parse_processing,
  lex_init, next_line, close, take_token, lex_mode, rc_lex, lex_all,
}
use ripe.Lang.Layout.Depth.{enter, enter-is_flat, depth, AllOf, is_flat}
use ripe.Lang.Layout.Next.{
  mode_weight, left, IsLexer, Lexed, finished, read, later, some-injective, take_token-Lexed, fresh,
  Lined, next_line-Lined,
}

close-Lexed :
    (d : ℕ) (lexer : Lexer) (indents : List ℕ)
    → lexer.indents ≡ indents
    → IsLexer d lexer
    → d ≡ length indents
    → drop lexer.next_token lexer.line ≡ []
    → Ends (close indents lexer) (Lexed d lexer)
unfolding close left is_end classify enter depth is_flat
close-Lexed d lexer [] same h e taken = finished refl e
close-Lexed d lexer (p ∷ ps) same h e taken =
    read refl (length ps) (rw e refl)
      (record { flat = h.flat; inside = h.inside; nested = rw taken refl })
      (omega (arith, ap length same))

-- the two ways on behind a line
lined-Lexed :
    (d : ℕ) (lexer : Lexer) (r : Bool × Lexer)
    → Lined d (left lexer) r
    → Ends (elim r.0 [ true ↦ close r.1.indents r.1 | false ↦ take_token r.1 ]) (Lexed d lexer)
lined-Lexed d lexer (true, lexer') q =
    let (e, taken) = q.finished refl in
    Ends_weaken (Lexed d lexer') (Lexed d lexer) (close lexer'.indents lexer')
      (λ r. later r q.fewer) (close-Lexed d lexer' lexer'.indents refl q.holds e taken)
lined-Lexed d lexer (false, lexer') q =
    Ends_weaken (Lexed d lexer') (Lexed d lexer) (take_token lexer') (λ r. later r q.fewer)
      (take_token-Lexed d lexer' q.holds)

lex_mode-Lexed :
    (d : ℕ) (lexer : Lexer) (mode : ParsingMode)
    → lexer.parsing_mode ≡ mode
    → IsLexer d lexer
    → Ends (lex_mode mode lexer) (Lexed d lexer)
unfolding lex_mode left mode_weight is_end classify enter is_flat depth
lex_mode-Lexed d lexer parse_program e h =
    read refl d (enter-is_flat d choice_program refl)
      (record { flat = h.flat; inside = h.inside; nested = h.nested })
      (omega (arith, ap mode_weight e))
lex_mode-Lexed d lexer parse_expr e h =
    read refl d (enter-is_flat d choice_expr refl)
      (record { flat = h.flat; inside = h.inside; nested = h.nested })
      (omega (arith, ap mode_weight e))
lex_mode-Lexed d lexer parse_processing e h =
    elim (Bool-cases (lexer.next_token == length lexer.line)) [
      | inr more ↦ rw (more, Ends) (take_token-Lexed d lexer h)
      | inl taken ↦
          let end_of_line = drop_end lexer.next_token lexer.line (omega tests) in
          let deep : d ≡ length lexer.indents = some-injective (rw end_of_line at h.nested) in
          let le : left (fresh lexer lexer.tokens) ≤ left lexer = omega arith in
          rw (taken, Ends)
            (Ends_bind (Lined d (left lexer)) (Lexed d lexer)
              (next_line (length lexer.tokens + 1) (fresh lexer lexer.tokens)) _
              (Ends_weaken (Lined d (left (fresh lexer lexer.tokens))) (Lined d (left lexer)) _
                (λ a l. record {
                  holds = l.holds;
                  fewer = omega (arith, l.fewer);
                  finished = l.finished;
                })
                (next_line-Lined (length lexer.tokens + 1) d lexer lexer.tokens h.flat deep
                  (omega arith)))
              (λ r. lined-Lexed d lexer r))
    ]

rc_lex-Lexed : (d : ℕ) (lexer : Lexer) → IsLexer d lexer → Ends (rc_lex lexer) (Lexed d lexer)
unfolding rc_lex
rc_lex-Lexed d lexer h = lex_mode-Lexed d lexer lexer.parsing_mode refl h

-- the tokens behind one that `rc_lex` returns
token-closed :
    (fuel d : ℕ) (lexer : Lexer)
    → ((d' : ℕ) (lexer' : Lexer)
        → IsLexer d' lexer'
        → left lexer' < left lexer
        → Ends (lex_all fuel lexer') (λ ts. depth d' ts ≡ some 0))
    → (r : Token × Lexer) → Lexed d lexer r
    → Ends
        (elim (is_end r.0.type) [
          | true ↦ ok []
          | false ↦ do rest ← lex_all fuel r.1; ok (r.0 ∷ rest)
        ])
        (λ ts. depth d ts ≡ some 0)
unfolding depth
token-closed fuel d lexer ih (n, lexer') (finished e zero_depth) = rw (e, Ends) (ap some zero_depth)
token-closed fuel d lexer ih (n, lexer') (read e d' step h' less) =
    rw (e, Ends)
      (Ends_bind (λ ts. depth d' ts ≡ some 0) (λ ts. depth d ts ≡ some 0) (lex_all fuel lexer') _
        (ih d' lexer' h' less) (λ rest closed. ground arith))

mode_weight-le : (mode : ParsingMode) → mode_weight mode ≤ 1
unfolding mode_weight
mode_weight-le parse_program = omega arith
mode_weight-le parse_expr = omega arith
mode_weight-le parse_processing = omega arith

-- From a lexer at depth `d` with enough fuel, the parser reads a list of tokens that closes what is
-- open, or the lexer stops; it does not read for ever.
lex_all-Ends :
    (fuel d : ℕ) (lexer : Lexer)
    → IsLexer d lexer
    → left lexer < fuel
    → Ends (lex_all fuel lexer) (λ ts. depth d ts ≡ some 0)
unfolding lex_all depth
lex_all-Ends zero d lexer h lt = absurd (omega arith)
lex_all-Ends (suc fuel) d lexer h lt =
    Ends_bind (Lexed d lexer) (λ ts. depth d ts ≡ some 0) (rc_lex lexer) _ (rc_lex-Lexed d lexer h)
      (token-closed fuel d lexer
        (λ d' lexer' h' less. lex_all-Ends fuel d' lexer' h' (omega arith)))

-- For tokens among which yylex returns no START and no END, the parser reads tokens in which each END
-- closes a START and at the end every START is closed, or the lexer stops with an error; it never
-- reads for ever: it is done within two tokens more than three for each one that yylex returns.
pub lex_all-balanced :
    (mode : ParsingMode) (tokens : List Token)
    → AllOf is_flat tokens
    → Ends (lex_all (3 * length tokens + 2) (lex_init mode tokens)) (λ ts. depth 0 ts ≡ some 0)
unfolding lex_init left depth
lex_all-balanced mode tokens flat =
    lex_all-Ends (3 * length tokens + 2) 0 (lex_init mode tokens)
      (record { flat = flat; inside = tt; nested = refl }) (omega (arith, mode_weight-le mode))
