-- ===== src/Lang/Names/Escaping.antt =====
-- What `util_escape` returns, and names that it does not tell apart.
use mathlib.Core.List.{append_assoc, append-nil}
use ripe.Prelude.{
  ℕ, ◌+◌, ◌*◌, ◌≤◌, ◌≡◌, ◌≢◌, refl, sym, ap, ◌∙◌, arith, true, false, ◌==◌, ℕ_discrete, [], ◌∷◌,
  ◌++◌, length, length-append, length-replicate, replicate, drop,
}
use ripe.Prelude.Outcome.{ok, Returns, ◌>>=◌}
use ripe.Prelude.Text.{lacks}
use ripe.Prelude.Prefixes.{length-drop, drop-add}
use ripe.Clib.StringBuf.{write_at}
use ripe.Clib.StringBuf.Room.{write_text, strcat-append, lacks-append, mem_strdup-append}
use ripe.Lang.Node.{Name}
use ripe.Lang.Names.{escaped, escape_from, util_escape, util_c_name}

differs : (a b : ℕ) → a ≢ b → (a == b) ≡ false
differs a b ne = ground arith

-- the characters of a name escaped, one after another
abbrev pub escape : Name → Name
escape [] = []
escape (c ∷ s) = escaped c ++ escape s

length-escaped : (c : ℕ) → length (escaped c) ≤ 2
unfolding escaped
length-escaped c = ground arith

length-escape : (s : Name) → length (escape s) ≤ length s * 2
length-escape [] = omega arith
length-escape (c ∷ s) =
    omega (arith, length-escape s, length-escaped c, length-append (escaped c) (escape s))

lacks-escaped : (c : ℕ) (s : Name) → lacks 0 (c ∷ s) ≡ true → lacks 0 (escaped c) ≡ true
unfolding lacks escaped
lacks-escaped c s h = ground arith

lacks_tail : (c : ℕ) (s : Name) → lacks 0 (c ∷ s) ≡ true → lacks 0 s ≡ true
unfolding lacks
lacks_tail c s h = ground arith

lacks-escape : (s : Name) → lacks 0 s ≡ true → lacks 0 (escape s) ≡ true
unfolding lacks
lacks-escape [] h = refl
lacks-escape (c ∷ s) h =
    lacks-append 0 (escaped c) (escape s) (lacks-escaped c s h) (lacks-escape s (lacks_tail c s h))

-- The buffer holds what is escaped so far.
escape_from-append :
    (s t behind : Name)
    → lacks 0 s ≡ true
    → lacks 0 t ≡ true
    → length (escape s) ≤ length behind
    → escape_from s (t ++ 0 ∷ behind) ≡ ok ((t ++ escape s) ++ 0 ∷ drop (length (escape s)) behind)
unfolding escape_from
escape_from-append [] t behind h k room = ap (λ m. ok (m ++ 0 ∷ behind)) (sym (append-nil t))
escape_from-append (c ∷ s) t behind h k room =
    let all = length-append (escaped c) (escape s) in
    let first = strcat-append t (escaped c) behind k (omega arith) in
    let rest =
      escape_from-append s (t ++ escaped c) (drop (length (escaped c)) behind) (lacks_tail c s h)
        (lacks-append 0 t (escaped c) k (lacks-escaped c s h))
        (omega (arith, length-drop (length (escaped c)) behind)) in
    ap (λ r. r >>= escape_from s) first
    ∙ rest
    ∙ rw
        (
          append_assoc t (escaped c) (escape s),
          all,
          drop-add (length (escaped c)) (length (escape s)) behind,
        )
        refl

util_escape-escape : (junk : ℕ) (s : Name) → lacks 0 s ≡ true → util_escape junk s ≡ ok (escape s)
unfolding util_escape lacks
util_escape-escape junk s h =
    let fresh = replicate (length s * 2 + 4) junk in
    let width = length-replicate (length s * 2 + 4) junk in
    let first : write_at fresh 0 (0 ∷ []) ≡ ok (0 ∷ drop 1 fresh) =
      write_text [] [] fresh (omega arith) in
    let room = length-drop 1 fresh in
    let all = escape_from-append s [] (drop 1 fresh) h refl (omega (arith, length-escape s)) in
    let end =
      mem_strdup-append (escape s) (drop (length (escape s)) (drop 1 fresh)) (lacks-escape s h) in
    rw (first, all, end)

escape-append : (a b : Name) → escape (a ++ b) ≡ escape a ++ escape b
escape-append [] b = refl
escape-append (c ∷ a) b =
    ap (λ t. escaped c ++ t) (escape-append a b)
    ∙ sym (append_assoc (escaped c) (escape a) (escape b))

lacks-insert : (a b : Name) (c : ℕ) → c ≢ 0 → lacks 0 (a ++ b) ≡ true → lacks 0 (a ++ c ∷ b) ≡ true
unfolding lacks
lacks-insert [] b c ne h = ground arith
lacks-insert (x ∷ a) b c ne h = ground (arith, lacks-insert a b c ne)

-- A name and what it is in C: the three characters that C does not allow in names are replaced, every
-- other one stays.
pub data Escapes : Name → Name → Type 0 where
  end : Escapes [] []
  dot : (s t : Name) → Escapes s t → Escapes (b'.' ∷ s) (b'_' ∷ t)
  question : (s t : Name) → Escapes s t → Escapes (b'?' ∷ s) (b'_' ∷ b'Q' ∷ t)
  exclamation : (s t : Name) → Escapes s t → Escapes (b'!' ∷ s) (b'_' ∷ b'E' ∷ t)
  other :
      (c : ℕ) (s t : Name) → c ≢ b'.' → c ≢ b'?' → c ≢ b'!' → Escapes s t → Escapes (c ∷ s) (c ∷ t)

escape-Escapes : (s : Name) → Escapes s (escape s)
unfolding escaped
escape-Escapes [] = end
escape-Escapes (c ∷ s) = elim (ℕ_discrete c b'.') [
  | yes e ↦ rw e (dot s (escape s) (escape-Escapes s))
  | no not_dot ↦ elim (ℕ_discrete c b'?') [
    | yes e ↦ rw e (question s (escape s) (escape-Escapes s))
    | no not_question ↦ elim (ℕ_discrete c b'!') [
      | yes e ↦ rw e (exclamation s (escape s) (escape-Escapes s))
      | no not_exclamation ↦
          rw (differs c b'.' not_dot, differs c b'?' not_question, differs c b'!' not_exclamation)
            (other c s (escape s) not_dot not_question not_exclamation (escape-Escapes s))
    ]
  ]
]

-- On a name without NUL, util_escape stays inside its buffer of twice the name's length and four
-- bytes more, and returns the name with every dot replaced by _, every ? by _Q and every ! by _E, and
-- with every other character as it is. So util_c_name returns the same for two names of which one has
-- a dot where the other has _.
pub util_escape_lem :
    (junk : ℕ) (s a b : Name)
    → lacks 0 s ≡ true
    → lacks 0 (a ++ b) ≡ true
    → Returns (util_escape junk s) (Escapes s)
      × (util_c_name junk (a ++ b'.' ∷ b) ≡ util_c_name junk (a ++ b'_' ∷ b))
unfolding util_c_name escaped
util_escape_lem junk s a b h k =
    let with_dot =
      util_escape-escape junk (a ++ b'.' ∷ b) (lacks-insert a b b'.' (λ e. omega arith) k) in
    let with_bar =
      util_escape-escape junk (a ++ b'_' ∷ b) (lacks-insert a b b'_' (λ e. omega arith) k) in
    let same : escape (a ++ b'.' ∷ b) ≡ escape (a ++ b'_' ∷ b) =
      escape-append a (b'.' ∷ b) ∙ sym (escape-append a (b'_' ∷ b)) in
    ((escape s, util_escape-escape junk s h, escape-Escapes s), rw (with_dot, with_bar, same) refl)
