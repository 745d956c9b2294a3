-- ===== src/Vm/Format/Tests.antt =====
-- Runs of format strings, and the theorems at concrete ones.
use ripe.Prelude.{ℕ, zero, suc, ◌<◌, get_or, arith, ◌≡◌, refl, some, List, [], ◌∷◌}
use ripe.Prelude.Outcome.{ok, stop, out_of_bounds, at, put, ◌>>=◌}
use ripe.Prelude.Text.{split_at, lacks, codes}
use ripe.Clib.StringBuf.{write_at, mem_strdup}
use ripe.Vm.Format.{
  string, number, is_empty, strip_end, strip_front, strip_whitespace, digit, digits, strtol_digits,
  strtol, scan_until, param_element, parse_from, format_parse, string_of, measure, piece,
  copy_pieces, to_int, format_to_string,
}
use ripe.Vm.Format.Parsing.{AllPlain, format_parse-braced}
use ripe.Vm.Format.Copying.{AllUsable}
use ripe.Vm.Format.Rendering.{format_to_string_lem}

program : Unit {0}
unfolding at put lacks split_at write_at is_empty strip_end strip_front strip_whitespace digit
    digits strtol_digits strtol scan_until param_element parse_from format_parse string_of measure
    piece copy_pieces to_int mem_strdup format_to_string
program = tt

-- "a{}b{ 0x2 }"
abbrev fstr : List ℕ
fstr = b'a' ∷ b'{' ∷ b'}' ∷ b'b' ∷ b'{' ∷ 32 ∷ b'0' ∷ b'x' ∷ b'2' ∷ 32 ∷ b'}' ∷ []

format_parse_run :
    format_parse fstr
    ≡ ok (some (string (b'a' ∷ []) ∷ number 1 ∷ string (b'b' ∷ []) ∷ number 2 ∷ []))
unfolding program
format_parse_run = refl

format_run :
    format_to_string ok 9 fstr ((b'x' ∷ b'y' ∷ []) ∷ (b'z' ∷ []) ∷ [])
    ≡ ok (b'a' ∷ b'x' ∷ b'y' ∷ b'b' ∷ b'z' ∷ [])
unfolding program
format_run = refl

-- the empty format copies nothing, and reads a byte that was never written
format_empty : format_to_string {V = List ℕ} ok 9 [] [] ≡ stop out_of_bounds
unfolding program
format_empty = refl

plain_texts : AllPlain (codes "a") ([] ∷ codes "b" ∷ [])
unfolding program
plain_texts = (refl, (refl, refl))

format_parse-braced_example :
    format_parse (codes "a{}{}b")
    ≡ ok (some (string (codes "a") ∷ number 1 ∷ number 2 ∷ string (codes "b") ∷ []))
format_parse-braced_example = format_parse-braced (codes "a") ([] ∷ codes "b" ∷ []) plain_texts

abbrev arguments : List (List ℕ)
arguments = codes "xy" ∷ codes "z" ∷ []

arguments-shown : (n : ℕ) → n < 2 → (at arguments n >>= ok) ≡ ok (get_or arguments n [])
unfolding program
arguments-shown zero lt = refl
arguments-shown (suc zero) lt = refl
arguments-shown (suc (suc n)) lt = absurd (omega arith)

fstr-usable :
    AllUsable arguments (string (codes "a") ∷ number 1 ∷ string (codes "b") ∷ number 2 ∷ [])
unfolding program
fstr-usable = (refl, ((omega arith, refl), (refl, ((omega arith, refl), tt))))

format_to_string_lem_example : format_to_string ok 9 fstr arguments ≡ ok (codes "axybz")
format_to_string_lem_example =
    format_to_string_lem ok 9 fstr arguments arguments (string (codes "a"))
      (number 1 ∷ string (codes "b") ∷ number 2 ∷ []) arguments-shown refl (omega arith)
      format_parse_run fstr-usable (omega arith)

-- what interpolation makes of "{`x`}"
format_parse_braces :
    format_parse (codes "{{}}") ≡ ok (some (string (codes "{") ∷ string (codes "}") ∷ []))
unfolding program
format_parse_braces = refl
