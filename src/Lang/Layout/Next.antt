-- ===== src/Lang/Layout/Next.antt =====
-- What `rc_lex` keeps from one token to the next: the depth of the tokens and of the indentations.
use ripe.Prelude.{
  ℕ, zero, suc, ◌+◌, ◌*◌, ◌≤◌, ◌<◌, ◌≡◌, refl, ap, ◌∙◌, arith, Bool, true, false, Bool-cases, inl,
  inr, Option-cases, some, List, [], ◌∷◌, ◌++◌, length, length-append, drop,
}
use ripe.Prelude.Int.{pos}
use ripe.Prelude.Outcome.{ok, at, Ends, Ends_bind, Ends_weaken, ◌>>=◌}
use ripe.Lang.NodeType.{NodeType}
use ripe.Lang.Layout.{
  Token, read_line, is_blank, indentation, indent, content, strip_seps, is_end, Lexer, ParsingMode,
  parse_program, parse_expr, parse_processing, add_line, next_line, take_token, no_brackets,
}
use ripe.Lang.Layout.Depth.{
  enter, depth, AllOf, AllOf-append, is_flat, is_inside, depth-is_flat, depth-append,
  depth-strip_seps,
}
use ripe.Lang.Layout.Content.{content-Content, strip_seps-AllOf}
use ripe.Lang.Layout.Lines.{is_raw, Read, read_line-Read, Indents, indent-Indents}

-- 1 until the first token is read
unfoldable pub mode_weight : ParsingMode → ℕ
mode_weight parse_program = 1
mode_weight parse_expr = 1
mode_weight parse_processing = 0

-- what falls with each token that is read
unfoldable pub left : Lexer → ℕ
left lexer =
    mode_weight lexer.parsing_mode
    + 3 * length lexer.tokens
    + length (drop lexer.next_token lexer.line)
    + length lexer.indents

-- At depth `d`, the rest of the line leads to the depth of the indentations.
pub record IsLexer (d : ℕ) (lexer : Lexer) : Type 0 where
  pub flat : AllOf is_flat lexer.tokens
  pub inside : AllOf is_inside (drop lexer.next_token lexer.line)
  pub nested : depth d (drop lexer.next_token lexer.line) ≡ some (length lexer.indents)

-- what `rc_lex` returns: the end at depth 0, or a token
pub data Lexed (d : ℕ) (lexer : Lexer) (r : Token × Lexer) : Type 0 where
  finished : is_end r.0.type ≡ true → d ≡ 0 → Lexed d lexer r
  read :
      is_end r.0.type ≡ false
      → (d' : ℕ) → enter d r.0.type ≡ some d'
      → IsLexer d' r.1
      → left r.1 < left lexer
      → Lexed d lexer r

pub some-injective : {a b : ℕ} → some a ≡ some b → a ≡ b
some-injective e = cc

-- reading a list at a place takes an element off the rest
at-drop : (xs : List Token) (i : ℕ) → Ends (at xs i) (λ x. drop i xs ≡ x ∷ drop (i + 1) xs)
unfolding at
at-drop [] i = tt
at-drop (x ∷ xs) zero = refl
at-drop (x ∷ xs) (suc i) = let e : suc i + 1 ≡ suc (i + 1) = omega arith in rw e (at-drop xs i)

-- what is read of a lexer with less left
pub later :
    {d : ℕ} {lexer lexer' : Lexer} (r : Token × Lexer)
    → left lexer' ≤ left lexer
    → Lexed d lexer' r
    → Lexed d lexer r
later r le (finished e z) = finished e z
later r le (read e d' step h less) = read e d' step h (omega arith)

entered :
    (d : ℕ) (n : Token) (ts : List Token) {k : ℕ}
    → depth d (n ∷ ts) ≡ some k
    → (d' : ℕ) × (enter d n.type ≡ some d') × (depth d' ts ≡ some k)
unfolding depth
entered d n ts e = elim (Option-cases (enter d n.type)) [
  | inl none_such ↦ absurd (ground arith)
  | inr (d', step) ↦ (d', step, ground arith)
]

pub not_end : (t : NodeType) → is_inside t ≡ true → is_end t ≡ false
unfolding is_inside
not_end t h = ground arith

pub take_token-Lexed :
    (d : ℕ) (lexer : Lexer) → IsLexer d lexer → Ends (take_token lexer) (Lexed d lexer)
unfolding take_token left
take_token-Lexed d lexer h =
    Ends_bind (λ n. drop lexer.next_token lexer.line ≡ n ∷ drop (lexer.next_token + 1) lexer.line)
      (Lexed d lexer) (at lexer.line lexer.next_token) _ (at-drop lexer.line lexer.next_token)
      (λ n e. taken n e)
  where
    taken :
        (n : Token)
        → drop lexer.next_token lexer.line ≡ n ∷ drop (lexer.next_token + 1) lexer.line
        → Lexed d lexer (n, record lexer { next_token = lexer.next_token + 1 })
    taken n e =
        let inside : AllOf is_inside (n ∷ drop (lexer.next_token + 1) lexer.line) =
          rw e at h.inside in
        let nested : depth d (n ∷ drop (lexer.next_token + 1) lexer.line)
            ≡ some (length lexer.indents) =
          rw e at h.nested in
        let (d', step, rest) = entered d n (drop (lexer.next_token + 1) lexer.line) nested in
        read (not_end n.type inside.0) d' step
          (record { flat = h.flat; inside = inside.1; nested = rest }) (omega (arith, ap length e))

-- a lexer that has taken all tokens of its line
abbrev pub fresh : Lexer → List Token → Lexer
fresh lexer ts = record lexer { tokens = ts; line = []; next_token = 0 }

-- a new line, or the end of the input
pub record Lined (d bound : ℕ) (r : Bool × Lexer) : Type 0 where
  pub holds : IsLexer d r.1
  pub fewer : left r.1 ≤ bound
  pub finished : r.0 ≡ true → (d ≡ length r.1.indents) × (drop r.1.next_token r.1.line ≡ [])

add_line-Lined :
    (d : ℕ) (lexer : Lexer) (raw ts : List Token)
    → AllOf is_raw raw
    → AllOf is_flat ts
    → d ≡ length lexer.indents
    → Ends
        (do lexer' ← add_line (fresh lexer ts) raw; ok (false, lexer'))
        (Lined d (left (fresh lexer ts) + length raw + 2))
unfolding add_line left depth
add_line-Lined d lexer raw ts in_raw flat e =
    Ends_bind (λ lexer'. Lined d bound (false, lexer')) (Lined d bound)
      (add_line (fresh lexer ts) raw) _
      (Ends_bind (Indents lexer.indents) (λ lexer'. Lined d bound (false, lexer'))
        (indent lexer.indents lexer.prev_indentation (indentation raw)) _
        (indent-Indents lexer.indents lexer.prev_indentation (indentation raw)) made)
      (λ lexer' q. q)
  where
    bound : ℕ
    bound = left (fresh lexer ts) + length raw + 2

    made :
        (r : List ℕ × List Token)
        → Indents lexer.indents r
        → Lined d bound (
          false,
          record (fresh lexer ts) {
            line = strip_seps (r.1 ++ content raw);
            indents = r.0;
            prev_indentation = pos (indentation raw);
          },
        )
    made r q =
        let c = content-Content raw in_raw in
        let (inside, short) =
          strip_seps-AllOf is_inside (r.1 ++ content raw)
            (AllOf-append is_inside r.1 (content raw) q.inside c.inside) in
        let nested : depth d (strip_seps (r.1 ++ content raw)) ≡ some (length r.0) =
          depth-strip_seps d (r.1 ++ content raw)
          ∙ depth-append d (length r.0) r.1 (content raw) (rw e q.nested)
          ∙ depth-is_flat (length r.0) (content raw) c.flat in
        record {
          holds = record { flat = flat; inside = inside; nested = nested };
          fewer = omega (arith, q.few, c.few, short, length-append r.1 (content raw));
          finished = λ t. cc;
        }

-- the next line, behind what `read_line` returns
behind-Lined :
    (fuel d : ℕ) (lexer : Lexer) (ts : List Token)
    → d ≡ length lexer.indents
    → ((rest : List Token)
        → AllOf is_flat rest
        → length rest < length ts
        → Ends (next_line fuel (fresh lexer rest)) (Lined d (left (fresh lexer rest))))
    → (r : Bool × List Token × List Token) → Read ts [] r
    → Ends
        (elim r.0 [
          | true ↦ ok (true, fresh lexer r.2)
          | false ↦ elim (is_blank r.1) [
            | true ↦ next_line fuel (fresh lexer r.2)
            | false ↦ do lexer' ← add_line (fresh lexer r.2) r.1; ok (false, lexer')
          ]
        ])
        (Lined d (left (fresh lexer ts)))
unfolding left
behind-Lined fuel d lexer ts e ih (true, raw, rest) q = record {
  holds = record { flat = q.flat_left; inside = tt; nested = unfold depth in rw e refl };
  fewer = omega (arith, q.bound);
  finished = λ t. (e, refl);
}
behind-Lined fuel d lexer ts e ih (false, raw, rest) q =
    let less = q.fewer refl in
    elim (Bool-cases (is_blank raw)) [
      | inl skipped ↦
          rw (skipped, Ends)
            (Ends_weaken (Lined d (left (fresh lexer rest))) (Lined d (left (fresh lexer ts))) _
              (λ a l. record {
                holds = l.holds;
                fewer = omega (arith, l.fewer);
                finished = l.finished;
              })
              (ih rest q.flat_left (omega arith)))
      | inr kept ↦
          rw (kept, Ends)
            (Ends_weaken (Lined d (left (fresh lexer rest) + length raw + 2))
              (Lined d (left (fresh lexer ts))) _
              (λ a l. record {
                holds = l.holds;
                fewer = omega (arith, l.fewer, q.bound);
                finished = l.finished;
              })
              (add_line-Lined d lexer raw rest q.raw_only q.flat_left e))
    ]

pub next_line-Lined :
    (fuel d : ℕ) (lexer : Lexer) (ts : List Token)
    → AllOf is_flat ts
    → d ≡ length lexer.indents
    → length ts < fuel
    → Ends (next_line fuel (fresh lexer ts)) (Lined d (left (fresh lexer ts)))
unfolding next_line
next_line-Lined zero d lexer ts flat e lt = absurd (omega arith)
next_line-Lined (suc fuel) d lexer ts flat e lt =
    Ends_bind (Read ts []) (Lined d (left (fresh lexer ts))) (read_line ts false no_brackets []) _
      (read_line-Read ts false no_brackets [] flat tt)
      (behind-Lined fuel d lexer ts e
        (λ rest flat' less. next_line-Lined fuel d lexer rest flat' e (omega arith)))
