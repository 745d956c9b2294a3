-- ===== src/Lang/Layout/Lines.antt =====
-- What `lex_read_line` leaves, and what a line becomes.
use ripe.Prelude.{
  ℕ, ◌+◌, ◌≤◌, ◌<◌, ◌≡◌, refl, arith, Bool, true, false, ◌&&◌, Bool-cases, ◌⊎◌, inl, inr, some,
  List, [], ◌∷◌, ◌++◌, length, length-append, ◌==◌, ltb,
}
use ripe.Prelude.Int.{ℤ, pos, ltb_ℤ, eqb_ℤ}
use ripe.Prelude.Outcome.{Outcome, ok, Ends, Ends_bind, Ends_weaken}
use ripe.Lang.NodeType.{NodeType}
use ripe.Lang.Layout.{
  Token, TokenClass, invalid, end_of_input, newline, ellipsis, blank, other, classify, Counters,
  count_bracket, is_open, is_nil, read_line, dedent, indent, is_end,
}
use ripe.Lang.Layout.Depth.{enter, depth, AllOf, AllOf-append, is_flat, is_inside}

-- a token that may stand in `raw_line`
unfoldable pub is_raw : NodeType → Bool
unfolding is_flat is_inside
is_raw t = is_flat t && is_inside t

-- what `read_line` returns from the tokens `ts` behind the tokens `raw`
pub record Read (ts raw : List Token) (r : Bool × List Token × List Token) : Type 0 where
  pub raw_only : AllOf is_raw r.1
  pub flat_left : AllOf is_flat r.2
  pub bound : length r.1 + length r.2 ≤ length raw + length ts
  pub fewer : r.0 ≡ false → length r.2 < length raw + length ts

is_nil-false : (raw : List Token) → is_nil raw ≡ false → 0 < length raw
unfolding is_nil
is_nil-false [] h = cc
is_nil-false (n ∷ raw) h = omega arith

pub Class-cases :
    (c : TokenClass)
    → (c ≡ invalid)
      ⊎ (c ≡ end_of_input)
      ⊎ (c ≡ newline)
      ⊎ (c ≡ ellipsis)
      ⊎ (c ≡ blank)
      ⊎ (c ≡ other)
Class-cases invalid = inl refl
Class-cases end_of_input = inr (inl refl)
Class-cases newline = inr (inr (inl refl))
Class-cases ellipsis = inr (inr (inr (inl refl)))
Class-cases blank = inr (inr (inr (inr (inl refl))))
Class-cases other = inr (inr (inr (inr (inr refl))))

-- what is read of one token less
Read-suc :
    (n : Token) (ts raw : List Token) (r : Outcome (Bool × List Token × List Token))
    → Ends r (Read ts raw)
    → Ends r (Read (n ∷ ts) raw)
Read-suc n ts raw r = Ends_weaken (Read ts raw) (Read (n ∷ ts) raw) r (λ a q. record {
  raw_only = q.raw_only;
  flat_left = q.flat_left;
  bound = omega (arith, q.bound);
  fewer = λ e. omega (arith, q.fewer e);
})

-- what is read when the token goes into `raw_line`
Read-append :
    (n : Token) (ts raw : List Token) (r : Outcome (Bool × List Token × List Token))
    → Ends r (Read ts (raw ++ n ∷ []))
    → Ends r (Read (n ∷ ts) raw)
Read-append n ts raw r = Ends_weaken (Read ts (raw ++ n ∷ [])) (Read (n ∷ ts) raw) r (λ a q.
    record {
      raw_only = q.raw_only;
      flat_left = q.flat_left;
      bound = omega (arith, q.bound, length-append raw (n ∷ []));
      fewer = λ e. omega (arith, q.fewer e, length-append raw (n ∷ []));
    })

is_raw_lem :
    (t : NodeType)
    → is_flat t ≡ true
    → (classify t ≡ blank) ⊎ (classify t ≡ other)
    → is_raw t ≡ true
unfolding is_raw is_inside is_end
is_raw_lem t flat h = ground arith

-- the end of a line
Read-here :
    (n : Token) (ts raw : List Token) (b : Bool)
    → AllOf is_flat ts
    → AllOf is_raw raw
    → Read (n ∷ ts) raw (b, raw, ts)
Read-here n ts raw b flat h = record {
  raw_only = h;
  flat_left = flat;
  bound = omega arith;
  fewer = λ e. omega arith;
}

-- a newline, inside brackets or outside
newline-Read :
    (n : Token) (ts : List Token) (cs : Counters) (raw : List Token)
    → AllOf is_flat ts
    → AllOf is_raw raw
    → Ends (read_line ts false cs raw) (Read ts raw)
    → (is_open cs ≡ true) ⊎ (is_open cs ≡ false)
    → Ends
        (elim (is_open cs) [ true ↦ read_line ts false cs raw | false ↦ ok (false, raw, ts) ])
        (Read (n ∷ ts) raw)
newline-Read n ts cs raw flat h rest (inl opened) = rw opened (Read-suc n ts raw _ rest)
newline-Read n ts cs raw flat h rest (inr closed) = rw closed (Read-here n ts raw false flat h)

pub read_line-Read :
    (ts : List Token) (skip : Bool) (cs : Counters) (raw : List Token)
    → AllOf is_flat ts
    → AllOf is_raw raw
    → Ends (read_line ts skip cs raw) (Read ts raw)
unfolding read_line
read_line-Read [] true cs raw flat h = tt
read_line-Read [] false cs raw flat h = record {
  raw_only = h;
  flat_left = tt;
  bound = omega arith;
  fewer = λ e. omega (arith, is_nil-false raw e);
}
read_line-Read (n ∷ ts) true cs raw flat h = elim (Class-cases (classify n.type)) [
  | inl e ↦ rw (e, Ends) tt
  | inr (inl e) ↦ rw (e, Ends) tt
  | inr (inr (inl e)) ↦ rw (e, Ends) (Read-suc n ts raw _ (read_line-Read ts false cs raw flat.1 h))
  | inr (inr (inr (inl e))) ↦ rw (e, Ends) tt
  | inr (inr (inr (inr (inl e)))) ↦
      rw (e, Ends) (Read-suc n ts raw _ (read_line-Read ts true cs raw flat.1 h))
  | inr (inr (inr (inr (inr e)))) ↦ rw (e, Ends) tt
]
read_line-Read (n ∷ ts) false cs raw flat h =
    let more = λ (in_raw : is_raw n.type ≡ true). Read-append n ts raw _ (
      read_line-Read ts false (count_bracket n.type cs) (raw ++ n ∷ []) flat.1
        (AllOf-append is_raw raw (n ∷ []) h (in_raw, tt))) in
    let newline_read =
      newline-Read n ts cs raw flat.1 h (read_line-Read ts false cs raw flat.1 h) in
    elim (Class-cases (classify n.type)) [
      | inl e ↦ rw (e, Ends) tt
      | inr (inl e) ↦ rw (e, Ends) (Read-here n ts raw (is_nil raw) flat.1 h)
      | inr (inr (inl e)) ↦ rw (e, Ends) (newline_read (Bool-cases (is_open cs)))
      | inr (inr (inr (inl e))) ↦
          rw (e, Ends) (Read-suc n ts raw _ (read_line-Read ts true cs raw flat.1 h))
      | inr (inr (inr (inr (inl e)))) ↦ rw (e, Ends) (more (is_raw_lem n.type flat.0 (inl e)))
      | inr (inr (inr (inr (inr e)))) ↦ rw (e, Ends) (more (is_raw_lem n.type flat.0 (inr e)))
    ]

-- the tokens before a line's content: they lead from the old depth to the new one
pub record Indents (indents : List ℕ) (r : List ℕ × List Token) : Type 0 where
  pub nested : depth (length indents) r.1 ≡ some (length r.0)
  pub inside : AllOf is_inside r.1
  pub few : length r.0 + length r.1 ≤ length indents + 2

dedent-Indents : (indents : List ℕ) (ind : ℕ) → Ends (dedent indents ind) (Indents indents)
unfolding dedent depth enter is_inside is_end classify
dedent-Indents [] ind = tt
dedent-Indents (p ∷ indents) ind = elim (Bool-cases (ltb ind p)) [
  | inl deeper ↦ rw deeper (
      Ends_bind (Indents indents) (Indents (p ∷ indents)) (dedent indents ind) _
        (dedent-Indents indents ind)
        (λ (left, line) q. record {
          nested = q.nested;
          inside = (refl, q.inside);
          few = omega (arith, q.few);
        }))
  | inr not_deeper ↦ elim (Bool-cases (p == ind)) [
    | inl same ↦
        rw (not_deeper, same) (record { nested = refl; inside = (refl, tt); few = omega arith })
    | inr differs ↦ rw (not_deeper, differs) tt
  ]
]

pub indent-Indents :
    (indents : List ℕ) (prev : ℤ) (ind : ℕ) → Ends (indent indents prev ind) (Indents indents)
unfolding indent depth enter is_inside is_end classify
indent-Indents indents prev ind = elim (Bool-cases (eqb_ℤ (pos ind) prev)) [
  | inl same ↦ rw same (record { nested = refl; inside = (refl, tt); few = omega arith })
  | inr differs ↦ elim (Bool-cases (ltb_ℤ prev (pos ind))) [
    | inl deeper ↦
        rw (differs, deeper) (record { nested = refl; inside = (refl, tt); few = omega arith })
    | inr less ↦ rw (differs, less) (dedent-Indents indents ind)
  ]
]
