-- ===== src/Clib/StringBuf/Texts.antt =====
-- The operations of the string buffer on the text that it holds.
use ripe.Prelude.{
  ℕ, ◌+◌, ◌*◌, ◌%◌, ◌^◌, ◌≤◌, ◌<◌, ◌≡◌, ◌≢◌, refl, ap, arith, true, ltb, if◌then◌else◌, List, [],
  ◌∷◌, ◌++◌, length, take, drop, length-append,
}
use ripe.Prelude.Outcome.{Returns}
use ripe.Prelude.Prefixes.{length-take, length-drop, put-append}
use ripe.Prelude.Text.{lacks}
use ripe.Clib.StringBuf.Room.{HoldsText, lacks-take, size-le, make_room, appended}
use ripe.Clib.StringBuf.Writes.{written, ncpy_room, copied}
use ripe.Clib.StringBuf.{
  StringBuf, realloc, sbuf_printf, sbuf_catc, sbuf_cat, sbuf_ncat, sbuf_ncpy, sbuf_clear,
}

module _ (junk : ℕ) where
  pub sbuf_printf-text :
      (b : StringBuf) (t s : List ℕ)
      → HoldsText b t
      → b.alloc_size < 2 ^ 61
      → lacks 0 s ≡ true
      → length s < 2 ^ 31
      → Returns (sbuf_printf junk b s) (λ r. HoldsText r (t ++ s))
  unfolding sbuf_printf
  sbuf_printf-text b t s h small no_nul short =
      let le = size-le b t h in
      let room =
        make_room junk b t (length s) ((b.size + length s % 2 ^ 32) * 2 % 2 ^ 64)
          ((b.size + length s % 2 ^ 32) % 2 ^ 64) h (omega arith) (λ l. omega arith) in
      appended b _ t s _ h room no_nul (omega (arith, room.same_size))

  sbuf_cat-text :
      (b : StringBuf) (t s : List ℕ)
      → HoldsText b t
      → b.alloc_size < 2 ^ 61
      → lacks 0 s ≡ true
      → length s < 2 ^ 31
      → Returns (sbuf_cat junk b s) (λ r. HoldsText r (t ++ s))
  unfolding sbuf_cat
  sbuf_cat-text b t s h small no_nul short =
      let le = size-le b t h in
      let room =
        make_room junk b t (length s) ((b.alloc_size + length s) % 2 ^ 64)
          ((b.size + length s) % 2 ^ 64) h (omega arith) (λ l. omega arith) in
      appended b _ t s _ h room no_nul (omega (arith, room.same_size))

  sbuf_ncat-text :
      (b : StringBuf) (t s : List ℕ) (n : ℕ)
      → HoldsText b t
      → b.alloc_size < 2 ^ 61
      → lacks 0 s ≡ true
      → length s < 2 ^ 31
      → n ≤ length s
      → Returns (sbuf_ncat junk b s n) (λ r. HoldsText r (t ++ take n s))
  unfolding sbuf_ncat
  sbuf_ncat-text b t s n h small no_nul short whole =
      let le = size-le b t h in
      let exact = length-take n s whole in
      let room =
        make_room junk b t (length (take n s)) ((b.alloc_size + n) % 2 ^ 64) ((b.size + n) % 2 ^ 64)
          h (omega (arith, exact)) (λ l. omega arith) in
      appended b _ t (take n s) _ h room (lacks-take 0 n s no_nul)
        (omega (arith, room.same_size, exact))

  sbuf_catc-text :
      (b : StringBuf) (t : List ℕ) (c : ℕ)
      → HoldsText b t
      → b.alloc_size < 2 ^ 61
      → c ≢ 0
      → Returns (sbuf_catc junk b c) (λ r. HoldsText r (t ++ c ∷ []))
  unfolding sbuf_catc
  sbuf_catc-text b t c h small ne =
      let le = size-le b t h in
      let room =
        make_room junk b t 1 (b.alloc_size * 2 % 2 ^ 64) ((b.size + 1) % 2 ^ 64) h (omega arith)
          (λ l. omega (arith, h.sized)) in
      written b _ t c h room small ne

  sbuf_ncpy-text :
      (b : StringBuf) (t s : List ℕ) (n : ℕ)
      → HoldsText b t
      → lacks 0 s ≡ true
      → n ≤ length s
      → Returns (sbuf_ncpy junk b s n) (λ r. HoldsText r (take n s))
  unfolding sbuf_ncpy
  sbuf_ncpy-text b t s n h no_nul whole =
      let (e, room) = ncpy_room junk b n h.allocated in
      copied (if ltb b.alloc_size (n + 1) then realloc junk b (n + 1) else b) s n e room whole
        no_nul

  sbuf_clear-text :
      (b : StringBuf) (t : List ℕ) → HoldsText b t → Returns (sbuf_clear b) (λ r. HoldsText r [])
  unfolding sbuf_clear
  sbuf_clear-text b t h =
      let some : 0 < length b.str =
        omega (arith, ap length h.memory, length-append t (0 ∷ h.behind)) in
      let first = put-append [] b.str 0 some in
      (
        record b { str = 0 ∷ drop 1 b.str; size = 1 },
        ground (arith, first),
        record {
          behind = drop 1 b.str;
          memory = refl;
          sized = omega arith;
          allocated = omega (arith, h.allocated, length-drop 1 b.str);
          no_nul = unfold lacks in refl;
        },
      )

  -- On a buffer that holds `t`, with fewer than 2 ^ 61 bytes allocated, for a text `s` of fewer than
  -- 2 ^ 31 bytes, at least `n` of them, and a character `c` that is not NUL: sbuf_printf and sbuf_cat
  -- return a buffer that holds `t` and `s`, whether or not they grow it; sbuf_catc one that holds `t`
  -- and `c`; sbuf_ncat one that holds `t` and the first `n` bytes of `s`, and sbuf_ncpy one that
  -- holds those alone; sbuf_clear one that holds the empty text.
  pub sbuf_append-text :
      (b : StringBuf) (t s : List ℕ) (c n : ℕ)
      → HoldsText b t
      → b.alloc_size < 2 ^ 61
      → lacks 0 s ≡ true
      → length s < 2 ^ 31
      → c ≢ 0
      → n ≤ length s
      → Returns (sbuf_printf junk b s) (λ r. HoldsText r (t ++ s))
        × Returns (sbuf_cat junk b s) (λ r. HoldsText r (t ++ s))
        × Returns (sbuf_catc junk b c) (λ r. HoldsText r (t ++ c ∷ []))
        × Returns (sbuf_ncat junk b s n) (λ r. HoldsText r (t ++ take n s))
        × Returns (sbuf_ncpy junk b s n) (λ r. HoldsText r (take n s))
        × Returns (sbuf_clear b) (λ r. HoldsText r [])
  sbuf_append-text b t s c n h small no_nul short full many = (
    sbuf_printf-text b t s h small no_nul short,
    sbuf_cat-text b t s h small no_nul short,
    sbuf_catc-text b t c h small full,
    sbuf_ncat-text b t s n h small no_nul short many,
    sbuf_ncpy-text b t s n h no_nul many,
    sbuf_clear-text b t h,
  )
