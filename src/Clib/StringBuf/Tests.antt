-- ===== src/Clib/StringBuf/Tests.antt =====
-- Runs of a string buffer, and the theorems at a concrete buffer.
use ripe.Prelude.{◌≡◌, refl, arith, true, [], ◌∷◌}
use ripe.Prelude.Outcome.{Outcome, ok, put, Returns, ◌>>=◌}
use ripe.Prelude.Text.{lacks}
use ripe.Clib.StringBuf.{
  StringBuf, write_at, strlen, strcat, strncpy, sbuf_init, sbuf_printf, sbuf_catc, sbuf_cat,
  sbuf_ncat, sbuf_ncpy, sbuf_clear,
}
use ripe.Clib.StringBuf.Room.{HoldsText}
use ripe.Clib.StringBuf.Texts.{sbuf_append-text}

program : Unit {0}
unfolding write_at strlen strcat strncpy sbuf_init sbuf_printf sbuf_catc sbuf_cat sbuf_ncat
    sbuf_ncpy sbuf_clear put lacks
program = tt

abbrev session : Outcome StringBuf
session = do
  a ← sbuf_init 9 (b'a' ∷ [])
  b ← sbuf_catc 9 a b'b'
  c ← sbuf_cat 9 b (b'c' ∷ b'd' ∷ [])
  sbuf_printf 9 c (b'e' ∷ [])

session_lem :
    session
    ≡ ok (record { str = b'a' ∷ b'b' ∷ b'c' ∷ b'd' ∷ b'e' ∷ 0 ∷ []; size = 6; alloc_size = 6 })
unfolding program
session_lem = refl

abbrev one : StringBuf
one = record { str = b'a' ∷ 0 ∷ 9 ∷ []; size = 2; alloc_size = 3 }

one-HoldsText : HoldsText one (b'a' ∷ [])
unfolding program
one-HoldsText = record {
  behind = 9 ∷ [];
  memory = refl;
  sized = omega arith;
  allocated = omega arith;
  no_nul = refl;
}

lacks_bc : lacks 0 (b'b' ∷ b'c' ∷ []) ≡ true
unfolding program
lacks_bc = refl

sbuf_append-text_example :
    Returns (sbuf_printf 9 one (b'b' ∷ b'c' ∷ [])) (λ r. HoldsText r (b'a' ∷ b'b' ∷ b'c' ∷ []))
    × Returns (sbuf_cat 9 one (b'b' ∷ b'c' ∷ [])) (λ r. HoldsText r (b'a' ∷ b'b' ∷ b'c' ∷ []))
    × Returns (sbuf_catc 9 one 7) (λ r. HoldsText r (b'a' ∷ 7 ∷ []))
    × Returns (sbuf_ncat 9 one (b'b' ∷ b'c' ∷ []) 1) (λ r. HoldsText r (b'a' ∷ b'b' ∷ []))
    × Returns (sbuf_ncpy 9 one (b'b' ∷ b'c' ∷ []) 1) (λ r. HoldsText r (b'b' ∷ []))
    × Returns (sbuf_clear one) (λ r. HoldsText r [])
sbuf_append-text_example =
    sbuf_append-text 9 one (b'a' ∷ []) (b'b' ∷ b'c' ∷ []) 7 1 one-HoldsText (omega arith) lacks_bc
      (omega arith) (λ e. omega arith) (omega arith)
