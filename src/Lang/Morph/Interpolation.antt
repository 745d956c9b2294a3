-- ===== src/Lang/Morph/Interpolation.antt =====
-- The call that `morph` makes of a string with expressions between pairs of `.
use mathlib.Core.List.{append_assoc, append-nil}
use ripe.Prelude.{
  ℕ, suc, ◌+◌, ◌-◌, ◌^◌, ◌≤◌, ◌<◌, ◌≡◌, refl, sym, ap, ◌∙◌, arith, true, Option, none, some, List,
  [], ◌∷◌, ◌++◌, map, length, length-append,
}
use ripe.Prelude.Outcome.{Stop, Outcome, ok, stop, thrown, ◌>>=◌}
use ripe.Prelude.Text.{codes, lacks, split_at-append, split_at-lacks}
use ripe.Clib.StringBuf.{StringBuf, mem_strdup}
use ripe.Clib.StringBuf.Room.{mem_strdup-append}
use ripe.Lang.NodeType.{string, expr_list, same_type, code}
use ripe.Lang.Node.{
  Name, Node, node, node_new, node_type, node_text, text_of, set_text, node_add_child, add_children,
  node_new_field_call,
}
use ripe.Lang.Morph.{interpolated, morph_from, morph_string, morph}
use ripe.Lang.Morph.Buffer.{IsTight, sbuf_printf-IsTight, append_before-IsTight, sbuf_init-IsTight}

-- a text and the expression behind it
abbrev pub Part : Type 0
Part = Name × Name

-- a string as it is written, with each expression between two `
abbrev pub quoted : List Part → Name → Name
quoted [] last = last
quoted ((p, e) ∷ ps) last = p ++ b'`' ∷ (e ++ b'`' ∷ quoted ps last)

-- the format: {} for each expression
abbrev pub format : List Part → Name → Name
format [] last = last
format ((p, e) ∷ ps) last = p ++ (codes "{}" ++ format ps last)

abbrev pub expressions : List Part → List Name
expressions [] = []
expressions ((p, e) ∷ ps) = e ∷ expressions ps

-- the fuel with a round for each part
abbrev pub rounds : List Part → ℕ → ℕ
rounds [] fuel = fuel
rounds (p ∷ ps) fuel = suc (rounds ps fuel)

-- the parser returns for the expression of each part
abbrev pub AllParsed : (Name → Outcome Node) → (Name → Node) → List Part → Type 0
AllParsed parse_expr parsed [] = Unit {0}
AllParsed parse_expr parsed ((p, e) ∷ ps) =
    (parse_expr e ≡ ok (parsed e)) × AllParsed parse_expr parsed ps

-- no text and no expression has a `, no text has a NUL
abbrev pub AllQuotable : List Part → Type 0
AllQuotable [] = Unit {0}
AllQuotable ((p, e) ∷ ps) =
    (lacks b'`' p ≡ true) × (lacks 0 p ≡ true) × (lacks b'`' e ≡ true) × AllQuotable ps

format-append : (ps : List Part) (last : Name) → format ps [] ++ last ≡ format ps last
format-append [] last = refl
format-append ((p, e) ∷ ps) last =
    append_assoc p (codes "{}" ++ format ps []) last
    ∙ ap (λ s. p ++ (codes "{}" ++ s)) (format-append ps last)

rounds-length : (ps : List Part) (fuel : ℕ) → rounds ps fuel ≡ length ps + fuel
rounds-length [] fuel = omega arith
rounds-length (p ∷ ps) fuel = omega (arith, rounds-length ps fuel)

length-quoted : (ps : List Part) (last : Name) → length ps ≤ length (quoted ps last)
length-quoted [] last = omega arith
length-quoted ((p, e) ∷ ps) last = omega (
  arith,
  length-quoted ps last,
  length-append p (b'`' ∷ (e ++ b'`' ∷ quoted ps last)),
  length-append e (b'`' ∷ quoted ps last),
)

module _ (junk : ℕ) (parse_expr : Name → Outcome Node) (parsed : Name → Node) where
  -- one round of the loop
  morph_part :
      (fuel : ℕ) (t p e rest : Name) (sb : StringBuf) (exprs : Node)
      → IsTight sb t
      → lacks b'`' p ≡ true
      → lacks 0 p ≡ true
      → lacks b'`' e ≡ true
      → parse_expr e ≡ ok (parsed e)
      → length t + length p + 2 < 2 ^ 31
      → (sb' : StringBuf) × (morph_from junk parse_expr
            (suc fuel)
            (p ++ b'`' ∷ (e ++ b'`' ∷ rest))
            sb
            exprs
          ≡ morph_from junk parse_expr fuel rest sb' (node_add_child exprs (parsed e)))
        × IsTight sb' ((t ++ p) ++ codes "{}")
  unfolding morph_from
  morph_part fuel t p e rest sb exprs h plain no_nul plain' parses few =
      let (sb1, run1, h1) = append_before-IsTight junk sb t p h no_nul (omega arith) in
      let (sb2, run2, h2) =
        sbuf_printf-IsTight junk sb1 (t ++ p) (codes "{}") h1 (unfold lacks in refl)
          (omega (arith, length-append t p)) in
      let first = split_at-append b'`' p (e ++ b'`' ∷ rest) plain in
      let second = split_at-append b'`' e rest plain' in
      (sb2, rw (first, second, run1, run2, parses, morph_from) refl, h2)

  -- the rounds for all expressions
  morph_parts :
      (ps : List Part) (last : Name) (fuel : ℕ) (t : Name) (sb : StringBuf) (exprs : Node)
      → IsTight sb t
      → AllQuotable ps
      → AllParsed parse_expr parsed ps
      → length t + length (format ps []) < 2 ^ 31
      → (sb' : StringBuf) × (morph_from junk parse_expr (rounds ps fuel) (quoted ps last) sb exprs
          ≡ morph_from junk parse_expr fuel last sb'
              (add_children exprs (map parsed (expressions ps))))
        × IsTight sb' (t ++ format ps [])
  unfolding add_children
  morph_parts [] last fuel t sb exprs h q a few = (sb, refl, rw (append-nil t) h)
  morph_parts ((p, e) ∷ ps) last fuel t sb exprs h q a few =
      let all = length-append p (codes "{}" ++ format ps []) in
      let (sb1, run1, h1) =
        morph_part (rounds ps fuel) t p e (quoted ps last) sb exprs h q.0 q.1 q.2 a.0
          (omega arith) in
      let joined = append_assoc t p (codes "{}") in
      let (sb2, run2, h2) =
        morph_parts ps last fuel ((t ++ p) ++ codes "{}") sb1 (node_add_child exprs (parsed e)) h1
          q.3 a.1 (omega (arith, length-append (t ++ p) (codes "{}"), length-append t p)) in
      (
        sb2,
        run1 ∙ run2,
        rw
            (
              append_assoc (t ++ p) (codes "{}") (format ps []),
              append_assoc t p (codes "{}" ++ format ps []),
            )
            at h2,
      )

  -- the fuel that is left for the last text
  abbrev spare : List Part → Name → ℕ
  spare ps last = length (quoted ps last) - length ps

  -- what `morph_string` makes of the parts, with a last text that is still to be read
  string_parts :
      (ps : List Part) (last : Name)
      → AllQuotable ps
      → AllParsed parse_expr parsed ps
      → length (format ps []) < 2 ^ 31
      → (sb : StringBuf) × (morph_string junk parse_expr (quoted ps last) ≡ (do
        (sb', exprs) ←
            morph_from junk parse_expr
              (suc (spare ps last))
              last
              sb
              (add_children (node_new expr_list) (map parsed (expressions ps)))
        text ← mem_strdup sb'.str
        ok (interpolated text exprs)))
        × IsTight sb (format ps [])
  unfolding morph_string
  string_parts ps last q a few =
      let (sb, run, h) = sbuf_init-IsTight junk in
      let enough : length (quoted ps last) + 1 ≡ rounds ps (suc (spare ps last)) =
        omega (arith, rounds-length ps (suc (spare ps last)), length-quoted ps last) in
      let (sb', run', h') =
        morph_parts ps last (suc (spare ps last)) [] sb (node_new expr_list) h q a (omega arith) in
      (sb', rw (run, enough, run') refl, h')

  balanced :
      (ps : List Part) (last : Name)
      → AllQuotable ps
      → AllParsed parse_expr parsed ps
      → lacks b'`' last ≡ true
      → lacks 0 last ≡ true
      → length (format ps last) < 2 ^ 31
      → morph_string junk parse_expr (quoted ps last)
        ≡ ok (
            interpolated
              (format ps last)
              (add_children (node_new expr_list) (map parsed (expressions ps))))
  unfolding morph_from
  balanced ps last q a plain no_nul few =
      let whole = format-append ps last in
      let size : length (format ps last) ≡ length (format ps []) + length last =
        ap length (sym whole) ∙ length-append (format ps []) last in
      let (sb, run, h) = string_parts ps last q a (omega arith) in
      let (sb', run', h') =
        sbuf_printf-IsTight junk sb (format ps []) last h no_nul (omega arith) in
      let text = mem_strdup-append (format ps [] ++ last) h'.holds.behind h'.holds.no_nul in
      run ∙ rw (split_at-lacks b'`' last plain, run', h'.holds.memory, text, whole, morph_from) refl

  unbalanced :
      (ps : List Part) (last rest : Name)
      → AllQuotable ps
      → AllParsed parse_expr parsed ps
      → lacks b'`' last ≡ true
      → lacks b'`' rest ≡ true
      → length (format ps []) < 2 ^ 31
      → morph_string junk parse_expr (quoted ps (last ++ b'`' ∷ rest)) ≡ stop thrown
  unfolding morph_from
  unbalanced ps last rest q a plain plain' few =
      let (sb, run, h) = string_parts ps (last ++ b'`' ∷ rest) q a few in
      run
      ∙ rw (split_at-append b'`' last rest plain, split_at-lacks b'`' rest plain', morph_from) refl

  -- an expression for which the parser stops
  unparsed :
      (ps : List Part) (last bad rest : Name) (s : Stop)
      → AllQuotable ps
      → AllParsed parse_expr parsed ps
      → lacks b'`' last ≡ true
      → lacks 0 last ≡ true
      → lacks b'`' bad ≡ true
      → parse_expr bad ≡ stop s
      → length (format ps last) + 2 < 2 ^ 31
      → morph_string junk parse_expr (quoted ps (last ++ b'`' ∷ (bad ++ b'`' ∷ rest))) ≡ stop s
  unfolding morph_from
  unparsed ps last bad rest s q a plain no_nul plain' stops few =
      let size : length (format ps last) ≡ length (format ps []) + length last =
        ap length (sym (format-append ps last)) ∙ length-append (format ps []) last in
      let (sb, run, h) = string_parts ps (last ++ b'`' ∷ (bad ++ b'`' ∷ rest)) q a (omega arith) in
      let (sb1, run1, h1) =
        append_before-IsTight junk sb (format ps []) last h no_nul (omega arith) in
      let (sb2, run2, h2) =
        sbuf_printf-IsTight junk sb1 (format ps [] ++ last) (codes "{}") h1 (unfold lacks in refl)
          (omega (arith, length-append (format ps []) last)) in
      let first = split_at-append b'`' last (bad ++ b'`' ∷ rest) plain in
      let second = split_at-append b'`' bad rest plain' in
      run ∙ rw (first, second, run1, run2, stops, morph_from) refl

string_text :
    (n : Node) (s : Name)
    → node_type n ≡ string
    → (same_type (node_type (set_text n s)) string ≡ true) × (text_of (set_text n s) ≡ ok s)
unfolding node_type set_text text_of node_text same_type code
string_text (node t text filename line children strings nodes) s e = (rw e refl, refl)

module _ (junk : ℕ) (parse_expr : Name → Outcome Node) where
  morph-string :
      (n : Node) (p r : Name)
      → node_type n ≡ string
      → lacks b'`' p ≡ true
      → morph junk parse_expr (set_text n (p ++ b'`' ∷ r))
        ≡ morph_string junk parse_expr (p ++ b'`' ∷ r)
  unfolding morph
  morph-string n p r e plain =
      let (kind, text) = string_text n (p ++ b'`' ∷ r) e in
      rw (kind, text, morph)
        (ap
          (λ (found : Option (Name × Name)). elim found [
            | none ↦ ok (set_text n (p ++ b'`' ∷ r))
            | some parts ↦ morph_string junk parse_expr (p ++ b'`' ∷ r)
          ])
          (split_at-append b'`' p r plain))

  unmarked :
      (n : Node) (s : Name)
      → node_type n ≡ string
      → lacks b'`' s ≡ true
      → morph junk parse_expr (set_text n s) ≡ ok (set_text n s)
  unfolding morph
  unmarked n s e plain =
      let (kind, text) = string_text n s e in
      rw (kind, text, morph)
        (ap
          (λ (found : Option (Name × Name)). elim found [
            | none ↦ ok (set_text n s)
            | some parts ↦ morph_string junk parse_expr s
          ])
          (split_at-lacks b'`' s plain))

  -- For a STRING node, texts and expressions in turn of which none has a ` and no text has a NUL, a
  -- format that leaves room for {} in fewer than 2 ^ 31 bytes, and a parser that returns for these
  -- expressions: morph returns a call of `f` on the string with {} in place of each expression, with
  -- what the parser returns for the expressions as the arguments, in order. With one more ` behind
  -- them, which has no other to match, it throws. With one more expression behind them, for which the
  -- parser stops, it stops as the parser does. A string without ` it returns as it is.
  pub morph_lem :
      (parsed : Name → Node) (n : Node) (p e : Name) (ps : List Part) (last bad rest : Name)
      (s : Stop)
      → AllParsed parse_expr parsed ((p, e) ∷ ps)
      → parse_expr bad ≡ stop s
      → node_type n ≡ string
      → AllQuotable ((p, e) ∷ ps)
      → lacks b'`' last ≡ true
      → lacks 0 last ≡ true
      → lacks b'`' bad ≡ true
      → lacks b'`' rest ≡ true
      → length (format ((p, e) ∷ ps) last) + 2 < 2 ^ 31
      → (morph junk parse_expr (set_text n (quoted ((p, e) ∷ ps) last))
          ≡ ok (
              node_new_field_call
                (set_text (node_new string) (format ((p, e) ∷ ps) last))
                (codes "f")
                (map parsed (expressions ((p, e) ∷ ps)))))
        × (morph junk parse_expr (set_text n (quoted ((p, e) ∷ ps) (last ++ b'`' ∷ rest)))
            ≡ stop thrown)
        × (morph junk parse_expr
              (set_text n (quoted ((p, e) ∷ ps) (last ++ b'`' ∷ (bad ++ b'`' ∷ rest))))
            ≡ stop s)
        × (morph junk parse_expr (set_text n last) ≡ ok (set_text n last))
  unfolding interpolated node_new_field_call
  morph_lem parsed n p e ps last bad rest s a stops kind q plain no_nul plain_bad plain' few =
      let whole = format-append ((p, e) ∷ ps) last in
      let size : length (format ((p, e) ∷ ps) last)
          ≡ length (format ((p, e) ∷ ps) []) + length last =
        ap length (sym whole) ∙ length-append (format ((p, e) ∷ ps) []) last in
      (
        morph-string n p (e ++ b'`' ∷ quoted ps last) kind q.0
            ∙ balanced junk parse_expr parsed ((p, e) ∷ ps) last q a plain no_nul (omega arith),
        morph-string n p (e ++ b'`' ∷ quoted ps (last ++ b'`' ∷ rest)) kind q.0
            ∙ unbalanced junk parse_expr parsed ((p, e) ∷ ps) last rest q a plain plain'
                (omega arith),
        morph-string n p (e ++ b'`' ∷ quoted ps (last ++ b'`' ∷ (bad ++ b'`' ∷ rest))) kind q.0
            ∙ unparsed junk parse_expr parsed ((p, e) ∷ ps) last bad rest s q a plain no_nul
                plain_bad stops few,
        unmarked n last kind plain,
      )
