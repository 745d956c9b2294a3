-- ===== src/Clib/StringBuf/Writes.antt =====
-- The writes of `sbuf_catc` and `sbuf_ncpy` into memory.
use ripe.Prelude.{
  ℕ, ◌+◌, ◌-◌, ◌%◌, ◌^◌, ◌≤◌, ◌<◌, ◌≡◌, ◌≢◌, refl, sym, ap, arith, true, Bool-cases, inl, inr, ltb,
  ltb→lt, ltb→le, if◌then◌else◌, List, [], ◌∷◌, ◌++◌, length, take, drop, replicate, length-append,
  length-replicate,
}
use ripe.Prelude.Outcome.{ok, put, Returns, ◌>>=◌}
use ripe.Prelude.Prefixes.{resize, resize_grow, length-take, length-drop, put-append}
use ripe.Prelude.Text.{lacks}
use mathlib.Core.List.{append_assoc, append-nil}
use ripe.Clib.StringBuf.Room.{
  HoldsText, HasRoom, write_at-append, lacks-one, lacks-take, lacks-append, size-le,
}
use ripe.Clib.StringBuf.{StringBuf, write_at, strncpy, realloc}

-- the second write of `sbuf_catc`
put_end :
    (t behind : List ℕ) (c : ℕ)
    → 0 < length behind
    → put (t ++ c ∷ behind) (length t + 1) 0 ≡ ok ((t ++ c ∷ []) ++ 0 ∷ drop 1 behind)
put_end t behind c some =
    let e : length t + 1 ≡ length (t ++ c ∷ []) = omega (arith, length-append t (c ∷ [])) in
    rw (sym (append_assoc t (c ∷ []) behind), e) (put-append (t ++ c ∷ []) behind 0 some)

pub written :
    (b b' : StringBuf) (t : List ℕ) (c : ℕ)
    → HoldsText b t
    → HasRoom b t 1 b'
    → b.alloc_size < 2 ^ 61
    → c ≢ 0
    → Returns
        (do
          str ← put b'.str ((b'.size + 2 ^ 64 - 1) % 2 ^ 64) c
          str' ← put str b'.size 0
          ok (record b' { str = str'; size = (b'.size + 1) % 2 ^ 64 }))
        (λ r. HoldsText r (t ++ c ∷ []))
written b b' t c hb h small ne =
    let le = size-le b t hb in
    let k = h.holds in
    let mem = length-append t (0 ∷ k.behind) in
    let some : 0 < length k.behind =
      omega (arith, h.room, h.same_size, k.sized, k.allocated, ap length k.memory, mem) in
    let here : (b'.size + 2 ^ 64 - 1) % 2 ^ 64 ≡ length t = omega (arith, h.same_size, k.sized) in
    let end = length-append t (c ∷ []) in
    let first : put b'.str ((b'.size + 2 ^ 64 - 1) % 2 ^ 64) c ≡ ok (t ++ c ∷ k.behind) =
      rw (here, k.memory) (put-append t (0 ∷ k.behind) c (omega arith)) in
    let second : put (t ++ c ∷ k.behind) b'.size 0 ≡ ok ((t ++ c ∷ []) ++ 0 ∷ drop 1 k.behind) =
      rw k.sized (put_end t k.behind c some) in
    (
      record b' { str = (t ++ c ∷ []) ++ 0 ∷ drop 1 k.behind; size = (b'.size + 1) % 2 ^ 64 },
      ground (arith, first, second),
      record {
        behind = drop 1 k.behind;
        memory = refl;
        sized = omega (arith, hb.sized, h.same_size, end);
        allocated = omega (
          arith,
          k.allocated,
          ap length k.memory,
          mem,
          length-append (t ++ c ∷ []) (0 ∷ drop 1 k.behind),
          end,
          length-drop 1 k.behind,
        );
        no_nul = lacks-append 0 t (c ∷ []) k.no_nul (lacks-one c ne);
      },
    )

module _ (junk : ℕ) where
  -- the room that `sbuf_ncpy` makes
  pub ncpy_room :
      (b : StringBuf) (n : ℕ)
      → b.alloc_size ≡ length b.str
      → let b' = if ltb b.alloc_size (n + 1) then realloc junk b (n + 1) else b in
        (b'.alloc_size ≡ length b'.str) × (n + 1 ≤ length b'.str)
  ncpy_room b n e = elim (Bool-cases (ltb b.alloc_size (n + 1))) [
    | inr fits ↦ rw fits (e, omega (arith, e, ltb→le _ _ fits))
    | inl less ↦
        let lt : b.alloc_size < n + 1 = ltb→lt _ _ less in
        let width : length (resize junk (n + 1) b.str) ≡ n + 1 =
          rw (resize_grow junk (n + 1) b.str (omega arith)) (
            omega (
              arith,
              length-append b.str (replicate (n + 1 - length b.str) junk),
              length-replicate (n + 1 - length b.str) junk,
            )) in
        rw less (omega (arith, width), omega (arith, width))
  ]

pub copied :
    (b' : StringBuf) (s : List ℕ) (n : ℕ)
    → b'.alloc_size ≡ length b'.str
    → n + 1 ≤ length b'.str
    → n ≤ length s
    → lacks 0 s ≡ true
    → Returns
        (do
          str ← strncpy b'.str s n
          str' ← put str n 0
          ok (record b' { str = str'; size = n + 1 }))
        (λ r. HoldsText r (take n s))
unfolding strncpy
copied b' s n e room whole no_nul =
    let width = length-take n s whole in
    let none_left : n - length s ≡ 0 = omega arith in
    let bytes : take n s ++ replicate (n - length s) 0 ≡ take n s =
      rw none_left (append-nil (take n s)) in
    let left = length-drop n b'.str in
    let first : write_at b'.str 0 (take n s) ≡ ok (take n s ++ drop n b'.str) =
      rw width at (write_at-append [] b'.str (take n s) (omega arith)) in
    let second : put (take n s ++ drop n b'.str) n 0 ≡ ok (take n s ++ 0 ∷ drop 1 (drop n b'.str)) =
      rw width at (put-append (take n s) (drop n b'.str) 0 (omega arith)) in
    (
      record b' { str = take n s ++ 0 ∷ drop 1 (drop n b'.str); size = n + 1 },
      rw bytes (ground (arith, first, second)),
      record {
        behind = drop 1 (drop n b'.str);
        memory = refl;
        sized = omega arith;
        allocated = omega (
          arith,
          length-append (take n s) (0 ∷ drop 1 (drop n b'.str)),
          length-drop 1 (drop n b'.str),
        );
        no_nul = lacks-take 0 n s no_nul;
      },
    )
