-- ===== src/Lang/Layout/Content.antt =====
-- What goes from `raw_line` into `line`.
use ripe.Prelude.{◌≤◌, ◌≡◌, arith, Bool, true, ◌&&◌, Bool-cases, inl, inr, List, [], ◌∷◌, length}
use ripe.Lang.NodeType.{NodeType, char}
use ripe.Lang.Layout.{Token, classify, line_type, content, is_sep, is_nil, strip_seps, is_end}
use ripe.Lang.Layout.Depth.{AllOf, is_flat, is_inside}
use ripe.Lang.Layout.Lines.{is_raw, Class-cases}

-- a token of `raw_line` does not nest in `line` either, nor does it end the input
line_type-is_raw :
    (t : NodeType)
    → is_raw t ≡ true
    → (is_flat (line_type t) ≡ true) × (is_inside (line_type t) ≡ true)
unfolding is_raw is_flat is_inside line_type is_end classify
line_type-is_raw (char c) h = ground arith
line_type-is_raw t h = ground arith

-- what goes into a line
pub record Content (raw ts : List Token) : Type 0 where
  pub flat : AllOf is_flat ts
  pub inside : AllOf is_inside ts
  pub few : length ts ≤ length raw

pub content-Content : (raw : List Token) → AllOf is_raw raw → Content raw (content raw)
unfolding content
content-Content [] h = record { flat = tt; inside = tt; few = omega arith }
content-Content (n ∷ raw) h =
    let rest = content-Content raw h.1 in
    let (flat, inside) = line_type-is_raw n.type h.0 in
    let kept : Content (n ∷ raw) (record n { type = line_type n.type } ∷ content raw) = record {
      flat = (flat, rest.flat);
      inside = (inside, rest.inside);
      few = omega (arith, rest.few);
    } in
    let dropped : Content (n ∷ raw) (content raw) = record {
      flat = rest.flat;
      inside = rest.inside;
      few = omega (arith, rest.few);
    } in
    elim (Class-cases (classify n.type)) [
      | inl e ↦ rw (e, content) kept
      | inr (inl e) ↦ rw (e, content) kept
      | inr (inr (inl e)) ↦ rw (e, content) kept
      | inr (inr (inr (inl e))) ↦ rw (e, content) kept
      | inr (inr (inr (inr (inl e)))) ↦ rw (e, content) dropped
      | inr (inr (inr (inr (inr e)))) ↦ rw (e, content) kept
    ]

pub strip_seps-AllOf :
    (p : NodeType → Bool) (ts : List Token)
    → AllOf p ts
    → AllOf p (strip_seps ts) × (length (strip_seps ts) ≤ length ts)
unfolding strip_seps
strip_seps-AllOf p [] h = (tt, omega arith)
strip_seps-AllOf p (n ∷ ts) h =
    let (all, le) = strip_seps-AllOf p ts h.1 in
    elim (Bool-cases (is_sep n.type && is_nil (strip_seps ts))) [
      | inl gone ↦ rw gone (tt, omega arith)
      | inr kept ↦ rw kept ((h.0, all), omega arith)
    ]
