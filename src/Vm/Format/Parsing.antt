-- ===== src/Vm/Format/Parsing.antt =====
-- Formats of texts with {} between them.
use mathlib.Core.List.{append-nil}
use ripe.Prelude.{
  ℕ, zero, suc, ◌+◌, ◌<◌, ◌≡◌, refl, arith, true, ◌==◌, ==_self, Bool-cases, inl, inr, some, List,
  [], ◌∷◌, ◌++◌, length, length-append,
}
use ripe.Prelude.Outcome.{ok}
use ripe.Prelude.Text.{lacks, split_at}
use ripe.Vm.Format.{
  FormatElement, string, number, strip_end, strip_front, strip_whitespace, scan_until,
  param_element, parse_from, format_parse,
}

-- the texts with {} between them
abbrev pub braced : List ℕ → List (List ℕ) → List ℕ
braced p [] = p
braced p (q ∷ qs) = p ++ b'{' ∷ b'}' ∷ braced q qs

abbrev pub some_text : List ℕ → List FormatElement → List FormatElement
some_text [] es = es
some_text (c ∷ p) es = string (c ∷ p) ∷ es

-- the texts, and numbers from `k` on between them
abbrev pub numbered : ℕ → List ℕ → List (List ℕ) → List FormatElement
numbered k p [] = some_text p []
numbered k p (q ∷ qs) = some_text p (number k ∷ numbered (k + 1) q qs)

-- no text has a {
abbrev pub AllPlain : List ℕ → List (List ℕ) → Type 0
AllPlain p [] = lacks b'{' p ≡ true
AllPlain p (q ∷ qs) = (lacks b'{' p ≡ true) × AllPlain q qs

pub scan_until-append :
    (c : ℕ) (p rest : List ℕ) → lacks c p ≡ true → scan_until c (p ++ c ∷ rest) ≡ (p, c ∷ rest)
unfolding scan_until lacks
scan_until-append c [] rest h = rw (==_self c) refl
scan_until-append c (x ∷ p) rest h = elim (Bool-cases (x == c)) [
  | inl e ↦ absurd (ground arith)
  | inr e ↦ rw (e, scan_until-append c p rest (rw e at h)) refl
]

scan_until-lacks : (c : ℕ) (p : List ℕ) → lacks c p ≡ true → scan_until c p ≡ (p, [])
unfolding scan_until lacks
scan_until-lacks c [] h = refl
scan_until-lacks c (x ∷ p) h = elim (Bool-cases (x == c)) [
  | inl e ↦ absurd (ground arith)
  | inr e ↦ rw (e, scan_until-lacks c p (rw e at h)) refl
]

-- a text that does not begin with {
parse_text :
    (fuel k c : ℕ) (p after : List ℕ) {es : List FormatElement}
    → lacks b'{' (c ∷ p) ≡ true
    → scan_until b'{' (c ∷ (p ++ after)) ≡ (c ∷ p, after)
    → parse_from fuel after k ≡ ok (some es)
    → parse_from (suc fuel) (c ∷ (p ++ after)) k ≡ ok (some (string (c ∷ p) ∷ es))
unfolding parse_from lacks
parse_text fuel k c p after h scanned rest = elim (Bool-cases (c == b'{')) [
  | inl e ↦ absurd (ground arith)
  | inr e ↦ ground (arith, scanned, rest)
]

parse_braces :
    (fuel k : ℕ) (after : List ℕ) {es : List FormatElement}
    → parse_from fuel after (k + 1) ≡ ok (some es)
    → parse_from (suc fuel) (b'{' ∷ b'}' ∷ after) k ≡ ok (some (number k ∷ es))
unfolding parse_from split_at strip_whitespace strip_end strip_front param_element
parse_braces fuel k after rest = rw rest refl

parse_from-braced :
    (fuel k : ℕ) (p : List ℕ) (qs : List (List ℕ))
    → AllPlain p qs
    → length (braced p qs) < fuel
    → parse_from fuel (braced p qs) k ≡ ok (some (numbered k p qs))
unfolding parse_from
parse_from-braced zero k p qs h lt = absurd (omega arith)
parse_from-braced (suc fuel) k [] [] h lt = refl
parse_from-braced (suc zero) k (c ∷ p) [] h lt = absurd (omega arith)
parse_from-braced (suc (suc fuel)) k (c ∷ p) [] h lt =
    let alone = append-nil p in
    rw alone at (parse_text (suc fuel) k c p [] h (rw alone (scan_until-lacks b'{' (c ∷ p) h)) refl)
parse_from-braced (suc fuel) k [] (q ∷ qs) h lt =
    parse_braces fuel k (braced q qs) (parse_from-braced fuel (k + 1) q qs h.1 (omega arith))
parse_from-braced (suc zero) k (c ∷ p) (q ∷ qs) h lt = absurd (omega arith)
parse_from-braced (suc (suc fuel)) k (c ∷ p) (q ∷ qs) h lt =
    let after = b'{' ∷ b'}' ∷ braced q qs in
    parse_text (suc fuel) k c p after h.0 (scan_until-append b'{' (c ∷ p) (b'}' ∷ braced q qs) h.0)
      (parse_braces fuel k (braced q qs)
        (parse_from-braced fuel (k + 1) q qs h.1 (omega (arith, length-append p after))))

-- Where no text has a {, the texts with {} between them parse into the texts that are not empty, with
-- the numbers from 1 on between them.
pub format_parse-braced :
    (p : List ℕ) (qs : List (List ℕ))
    → AllPlain p qs
    → format_parse (braced p qs) ≡ ok (some (numbered 1 p qs))
unfolding format_parse
format_parse-braced p qs h = parse_from-braced (length (braced p qs) + 1) 1 p qs h (omega arith)
