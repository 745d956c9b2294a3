-- ===== src/Lang/Morph/Buffer.antt =====
-- A string buffer that is written only by sbuf_printf stays less than twice as large as its text.
use mathlib.Core.List.{append-nil}
use ripe.Prelude.{
  ℕ, ◌+◌, ◌*◌, ◌%◌, ◌^◌, ◌≤◌, ◌<◌, ◌≡◌, refl, sym, ap, arith, true, ltb, Bool-cases, inl, inr, List,
  [], ◌∷◌, ◌++◌, length,
}
use ripe.Prelude.Outcome.{ok-injective, Outcome, ok, stop, Returns, ◌>>=◌}
use ripe.Prelude.Text.{lacks}
use ripe.Clib.StringBuf.{StringBuf, realloc, strcat, sbuf_init, sbuf_printf, write_at}
use ripe.Clib.StringBuf.Room.{HoldsText}
use ripe.Clib.StringBuf.Texts.{sbuf_printf-text}
use ripe.Lang.Morph.{append_before}

-- The buffer holds the text in at most twice its bytes.
pub record IsTight (b : StringBuf) (t : List ℕ) : Type 0 where
  pub holds : HoldsText b t
  pub tight : b.alloc_size ≤ 2 * b.size

-- what the end of sbuf_printf leaves of the sizes
printed :
    (o : Outcome (List ℕ)) (b r : StringBuf) (n : ℕ)
    → (o >>= λ str. ok (record b { str = str; size = n })) ≡ ok r
    → (r.alloc_size ≡ b.alloc_size) × (r.size ≡ n)
printed (ok str) b r n e =
    let same = ok-injective e in (sym (ap (λ c. c.alloc_size) same), sym (ap (λ c. c.size) same))
printed (stop s) b r n e = absurd (cc)

module _ (junk : ℕ) where
  sbuf_printf-tight :
      (b r : StringBuf) (t s : List ℕ)
      → IsTight b t
      → length t + length s < 2 ^ 31
      → sbuf_printf junk b s ≡ ok r
      → r.alloc_size ≤ 2 * r.size
  unfolding sbuf_printf
  sbuf_printf-tight b r t s h few e =
      let size = h.holds.sized in
      let tlen = length s % 2 ^ 32 in
      let grown = realloc junk b ((b.size + tlen) * 2 % 2 ^ 64) in
      elim (Bool-cases (ltb b.alloc_size ((b.size + tlen) % 2 ^ 64))) [
        | inl less ↦
            let (alloc, used) =
              printed (strcat grown.str s) grown r ((b.size + tlen) % 2 ^ 64) (rw less at e) in
            omega (arith, alloc, used, size)
        | inr fits ↦
            let (alloc, used) =
              printed (strcat b.str s) b r ((b.size + tlen) % 2 ^ 64) (rw fits at e) in
            omega (arith, alloc, used, size, h.tight)
      ]

  pub sbuf_printf-IsTight :
      (b : StringBuf) (t s : List ℕ)
      → IsTight b t
      → lacks 0 s ≡ true
      → length t + length s < 2 ^ 31
      → Returns (sbuf_printf junk b s) (λ r. IsTight r (t ++ s))
  sbuf_printf-IsTight b t s h no_nul few =
      let size = h.holds.sized in
      let (r, run, holds) =
        sbuf_printf-text junk b t s h.holds (omega (arith, h.tight, size)) no_nul (omega arith) in
      (r, run, record { holds = holds; tight = sbuf_printf-tight b r t s h few run })

  pub append_before-IsTight :
      (b : StringBuf) (t s : List ℕ)
      → IsTight b t
      → lacks 0 s ≡ true
      → length t + length s < 2 ^ 31
      → Returns (append_before junk b s) (λ r. IsTight r (t ++ s))
  unfolding append_before
  append_before-IsTight b t [] h no_nul few = (b, refl, rw (append-nil t) h)
  append_before-IsTight b t (c ∷ s) h no_nul few = sbuf_printf-IsTight b t (c ∷ s) h no_nul few

  pub sbuf_init-IsTight : Returns (sbuf_init junk []) (λ r. IsTight r [])
  unfolding sbuf_init write_at lacks
  sbuf_init-IsTight = (
    record { str = 0 ∷ []; size = 1; alloc_size = 1 },
    refl,
    record {
      holds = record { behind = []; memory = refl; sized = refl; allocated = refl; no_nul = refl };
      tight = omega arith;
    },
  )
