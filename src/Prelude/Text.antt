-- ===== src/Prelude/Text.antt =====
-- C strings: the list of the bytes before the NUL.
use Prim.Native.Char.{code}
use Prim.Native.String.{String}
use ripe.Prelude.{
  ℕ, ◌≡◌, ◌≢◌, refl, ap₂, arith, Bool, true, false, ◌&&◌, ◌==◌, if◌then◌else◌, List, [], ◌∷◌, ◌++◌,
  Option, none, some, ==→eq, ==_self, Bool-cases, inl, inr,
}

-- the bytes of a literal
abbrev pub codes : String → List ℕ
codes String.[] = []
codes (String.◌∷◌ c s) = code c ∷ codes s

-- `strcmp(s, t) == 0`, and `strequal(s, t)`
unfoldable pub same_text : List ℕ → List ℕ → Bool
same_text [] [] = true
same_text [] (c ∷ t) = false
same_text (c ∷ s) [] = false
same_text (c ∷ s) (c' ∷ t) = c == c' && same_text s t

and_true : (a b : Bool) → a && b ≡ true → (a ≡ true) × (b ≡ true)
and_true true true e = (refl, refl)
and_true true false e = absurd (cc)
and_true false b e = absurd (cc)

pub same_text-eq : (s t : List ℕ) → same_text s t ≡ true → s ≡ t
unfolding same_text
same_text-eq [] [] e = refl
same_text-eq [] (c ∷ t) e = absurd (cc)
same_text-eq (c ∷ s) [] e = absurd (cc)
same_text-eq (c ∷ s) (c' ∷ t) e =
    let (h, r) = and_true (c == c') (same_text s t) e in
    ap₂ (λ x xs. x ∷ xs) (==→eq c c' h) (same_text-eq s t r)

pub same_text_self : (s : List ℕ) → same_text s s ≡ true
unfolding same_text
same_text_self [] = refl
same_text_self (c ∷ s) = rw (==_self c, same_text_self s) refl

pub same_text-ne : (s t : List ℕ) → s ≢ t → same_text s t ≡ false
same_text-ne s t ne = elim (Bool-cases (same_text s t)) [
  | inl e ↦ absurd (ne (same_text-eq s t e))
  | inr e ↦ e
]

-- `strchr`: what stands before the first `c`, and what stands behind it
unfoldable pub split_at : ℕ → List ℕ → Option (List ℕ × List ℕ)
split_at c [] = none
split_at c (x ∷ s) =
    let rest = split_at c s in
    if x == c then some ([], s) else elim rest [ none ↦ none | some (a, b) ↦ some (x ∷ a, b) ]

-- `c` does not stand in the text
unfoldable pub lacks : ℕ → List ℕ → Bool
lacks c [] = true
lacks c (x ∷ s) = if x == c then false else lacks c s

pub split_at-append :
    (c : ℕ) (a b : List ℕ) → lacks c a ≡ true → split_at c (a ++ c ∷ b) ≡ some (a, b)
unfolding split_at lacks
split_at-append c [] b h = rw (==_self c)
split_at-append c (x ∷ a) b h = elim (Bool-cases (x == c)) [
  | inl e ↦ absurd (ground arith)
  | inr e ↦ rw (e, split_at-append c a b (rw e at h))
]

pub split_at-lacks : (c : ℕ) (a : List ℕ) → lacks c a ≡ true → split_at c a ≡ none
unfolding split_at lacks
split_at-lacks c [] h = refl
split_at-lacks c (x ∷ a) h = elim (Bool-cases (x == c)) [
  | inl e ↦ absurd (ground arith)
  | inr e ↦ rw (e, split_at-lacks c a (rw e at h))
]
