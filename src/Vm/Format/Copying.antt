-- ===== src/Vm/Format/Copying.antt =====
-- The second loop of `format_to_string`, which copies the texts of the elements.
use mathlib.Core.List.{append_assoc, append-nil}
use ripe.Prelude.{
  ℕ, zero, suc, ◌+◌, ◌-◌, ◌%◌, ◌^◌, ◌<◌, ◌≡◌, ◌⊎◌, refl, ap, ◌∙◌, arith, true, Option, none, some,
  List, [], ◌∷◌, ◌++◌, length, length-append, drop, get_or,
}
use ripe.Prelude.Int.{pos}
use ripe.Prelude.Outcome.{ok, at, at-get_or}
use ripe.Prelude.Text.{lacks}
use ripe.Prelude.Prefixes.{length-drop}
use ripe.Clib.StringBuf.Room.{write_text, lacks-append}
use ripe.Vm.Format.{FormatElement, string, number, piece, copy_pieces, to_int}

-- an argument's place as an int
pub argument : (n : ℕ) → n < 2 ^ 31 → to_int (suc n + 2 ^ 64 - 1) ≡ pos n
unfolding to_int
argument n lt = ground arith

module _ (texts : List (List ℕ)) where
  -- the text of an element, where argument `n` has the text `n` of the list
  abbrev pub text_of : FormatElement → List ℕ
  text_of (string s) = s
  text_of (number zero) = []
  text_of (number (suc n)) = get_or texts n []

  abbrev pub render : List FormatElement → List ℕ
  render [] = []
  render (e ∷ es) = text_of e ++ render es

  -- a number names an argument
  abbrev pub IsUsable : FormatElement → Type 0
  IsUsable (string s) = lacks 0 s ≡ true
  IsUsable (number zero) = ⊥
  IsUsable (number (suc n)) = (n < length texts) × (lacks 0 (get_or texts n []) ≡ true)

  abbrev pub AllUsable : List FormatElement → Type 0
  AllUsable [] = Unit {0}
  AllUsable (e ∷ es) = IsUsable e × AllUsable es

  abbrev pub entry : List (Option (List ℕ)) → ℕ → Option (List ℕ)
  entry strings n = get_or strings n none

  -- the strings that are made are those of their arguments
  pub record IsMemo (strings : List (Option (List ℕ))) : Type 0 where
    pub width : length strings ≡ length texts
    pub right :
        (n : ℕ)
        → n < length texts
        → (entry strings n ≡ none) ⊎ (entry strings n ≡ some (get_or texts n []))

  -- the strings that the elements need are made
  abbrev pub Ready : List (Option (List ℕ)) → List FormatElement → Type 0
  Ready strings [] = Unit {0}
  Ready strings (string s ∷ es) = Ready strings es
  Ready strings (number zero ∷ es) = ⊥
  Ready strings (number (suc n) ∷ es) =
      (entry strings n ≡ some (get_or texts n [])) × Ready strings es

  piece_lem :
      (strings : List (Option (List ℕ))) (e : FormatElement) (es : List FormatElement)
      → length strings ≡ length texts
      → IsUsable e
      → Ready strings (e ∷ es)
      → (piece strings e ≡ ok (text_of e)) × Ready strings es
  unfolding piece
  piece_lem strings (string s) es w u r = (refl, r)
  piece_lem strings (number zero) es w u r = absurd u
  piece_lem strings (number (suc n)) es w u (made, r) =
      let found : at strings n ≡ ok (some (get_or texts n [])) =
        at-get_or strings n none (omega arith) ∙ ap ok made in
      (rw found, r)

  usable-lacks : (e : FormatElement) → IsUsable e → lacks 0 (text_of e) ≡ true
  usable-lacks (string s) u = u
  usable-lacks (number zero) u = absurd u
  usable-lacks (number (suc n)) u = u.1

  -- one round of the second loop
  copy_step :
      (strings : List (Option (List ℕ))) (e : FormatElement) (es : List FormatElement)
      (t old : List ℕ)
      → length strings ≡ length texts
      → IsUsable e
      → Ready strings (e ∷ es)
      → length (text_of e) < length old
      → length t + length (text_of e) < 2 ^ 64
      → copy_pieces strings (e ∷ es) (t ++ old) (length t)
        ≡ copy_pieces strings es
            ((t ++ text_of e) ++ 0 ∷ drop (suc (length (text_of e))) old)
            (length (t ++ text_of e))
  unfolding copy_pieces
  copy_step strings e es t old w u r room small =
      let made = (piece_lem strings e es w u r).0 in
      let size : (length t + length (text_of e)) % 2 ^ 64 ≡ length (t ++ text_of e) =
        omega (arith, length-append t (text_of e)) in
      let written = write_text t (text_of e) old room in rw (made, written, size) refl

  -- the second loop behind the first copy
  copy_rest :
      (strings : List (Option (List ℕ))) (es : List FormatElement) (t behind : List ℕ)
      → length strings ≡ length texts
      → AllUsable es
      → Ready strings es
      → length behind ≡ length (render es)
      → length t + length (render es) < 2 ^ 64
      → copy_pieces strings es (t ++ 0 ∷ behind) (length t) ≡ ok ((t ++ render es) ++ 0 ∷ [])
  unfolding copy_pieces
  copy_rest strings [] t [] w u r width small = rw (append-nil t) refl
  copy_rest strings [] t (c ∷ behind) w u r width small = absurd (omega arith)
  copy_rest strings (e ∷ es) t behind w u r width small =
      let all = length-append (text_of e) (render es) in
      let left = length-drop (length (text_of e)) behind in
      copy_step strings e es t (0 ∷ behind) w u.0 r (omega arith) (omega arith)
      ∙ copy_rest strings es (t ++ text_of e) (drop (length (text_of e)) behind) w u.1
          ((piece_lem strings e es w u.0 r).1) (omega arith)
          (omega (arith, length-append t (text_of e)))
      ∙ ap (λ m. ok (m ++ 0 ∷ [])) (append_assoc t (text_of e) (render es))

  -- The second loop writes the text, with its NUL, if there is any element.
  pub copy_pieces_lem :
      (strings : List (Option (List ℕ))) (e : FormatElement) (es : List FormatElement)
      (out : List ℕ)
      → length strings ≡ length texts
      → AllUsable (e ∷ es)
      → Ready strings (e ∷ es)
      → length out ≡ suc (length (render (e ∷ es)))
      → length (render (e ∷ es)) < 2 ^ 64
      → copy_pieces strings (e ∷ es) out 0 ≡ ok (render (e ∷ es) ++ 0 ∷ [])
  copy_pieces_lem strings e es out w u r width small =
      let all = length-append (text_of e) (render es) in
      let left = length-drop (suc (length (text_of e))) out in
      copy_step strings e es [] out w u.0 r (omega arith) (omega arith)
      ∙ copy_rest strings es (text_of e) (drop (suc (length (text_of e))) out) w u.1
          ((piece_lem strings e es w u.0 r).1) (omega arith) (omega arith)

  pub lacks-render : (es : List FormatElement) → AllUsable es → lacks 0 (render es) ≡ true
  unfolding lacks
  lacks-render [] u = refl
  lacks-render (e ∷ es) u =
      lacks-append 0 (text_of e) (render es) (usable-lacks e u.0) (lacks-render es u.1)
