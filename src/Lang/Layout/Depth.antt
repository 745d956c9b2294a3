-- ===== src/Lang/Layout/Depth.antt =====
-- How deep the tokens of a list nest.
use ripe.Prelude.{
  ℕ, zero, suc, ◌≡◌, refl, ap, arith, Bool, true, false, not, ◌&&◌, Bool-cases, inl, inr,
  Option-cases, Option, none, some, List, [], ◌∷◌, ◌++◌,
}
use ripe.Lang.NodeType.{NodeType, start, end}
use ripe.Lang.Layout.{Token, is_sep, is_nil, is_end, strip_seps}

-- the depth behind a token; END has none at depth 0
unfoldable pub enter : ℕ → NodeType → Option ℕ
enter d start = some (suc d)
enter zero end = none
enter (suc d) end = some d
enter d _ = some d

-- the depth behind some tokens that begin at depth `d`
unfoldable pub depth : ℕ → List Token → Option ℕ
depth d [] = some d
depth d (n ∷ ts) = elim (enter d n.type) [ none ↦ none | some d' ↦ depth d' ts ]

abbrev pub AllOf : (NodeType → Bool) → List Token → Type 0
AllOf p [] = Unit {0}
AllOf p (n ∷ ts) = (p n.type ≡ true) × AllOf p ts

pub AllOf-append :
    (p : NodeType → Bool) (xs ys : List Token) → AllOf p xs → AllOf p ys → AllOf p (xs ++ ys)
AllOf-append p [] ys h k = k
AllOf-append p (x ∷ xs) ys h k = (h.0, AllOf-append p xs ys h.1 k)

-- a token that is neither START nor END
unfoldable pub is_flat : NodeType → Bool
is_flat start = false
is_flat end = false
is_flat _ = true

-- a token that does not end the input
unfoldable pub is_inside : NodeType → Bool
unfolding is_end
is_inside t = not (is_end t)

pub enter-is_flat : (d : ℕ) (t : NodeType) → is_flat t ≡ true → enter d t ≡ some d
unfolding enter is_flat
enter-is_flat zero t h = ground arith
enter-is_flat (suc d) t h = ground arith

pub depth-is_flat : (d : ℕ) (ts : List Token) → AllOf is_flat ts → depth d ts ≡ some d
unfolding depth
depth-is_flat d [] h = refl
depth-is_flat d (n ∷ ts) h = ground (arith, enter-is_flat d n.type h.0, depth-is_flat d ts h.1)

pub depth-append :
    (d d' : ℕ) (xs ys : List Token) → depth d xs ≡ some d' → depth d (xs ++ ys) ≡ depth d' ys
unfolding depth
depth-append d d' [] ys h = ap (λ k. depth k ys) (ground arith)
depth-append d d' (x ∷ xs) ys h = elim (Option-cases (enter d x.type)) [
  | inl e ↦ absurd (ground arith)
  | inr (k, e) ↦
      let rest : depth k xs ≡ some d' = ground arith in ground (arith, depth-append k d' xs ys rest)
]

enter-is_sep : (d : ℕ) (t : NodeType) → is_sep t ≡ true → enter d t ≡ some d
unfolding enter is_sep
enter-is_sep zero t h = ground arith
enter-is_sep (suc d) t h = ground arith

nil_of_is_nil : (ts : List Token) → is_nil ts ≡ true → ts ≡ []
unfolding is_nil
nil_of_is_nil [] h = refl
nil_of_is_nil (n ∷ ts) h = cc

depth-cons :
    (d : ℕ) (n : Token) (xs ys : List Token)
    → ((k : ℕ) → depth k xs ≡ depth k ys)
    → depth d (n ∷ xs) ≡ depth d (n ∷ ys)
unfolding depth
depth-cons d n xs ys h = elim (Option-cases (enter d n.type)) [
  | inl e ↦ ground arith
  | inr (k, e) ↦ ground (arith, h k)
]

pub depth-strip_seps : (d : ℕ) (ts : List Token) → depth d (strip_seps ts) ≡ depth d ts
unfolding depth strip_seps
depth-strip_seps d [] = refl
depth-strip_seps d (n ∷ ts) = elim (Bool-cases (is_sep n.type && is_nil (strip_seps ts))) [
  | inl gone ↦
      let last : enter d n.type ≡ some d = enter-is_sep d n.type (ground arith) in
      let none_left : strip_seps ts ≡ [] = nil_of_is_nil (strip_seps ts) (ground arith) in
      ground (arith, depth-strip_seps d ts, ap (depth d) none_left)
  | inr kept ↦ rw kept (depth-cons d n (strip_seps ts) ts (λ k. depth-strip_seps k ts))
]
