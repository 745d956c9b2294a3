-- ===== src/Clib/StringBuf/Room.antt =====
-- What it means that a string buffer holds a text, and that its memory has room for more.
use ripe.Prelude.{
  ℕ, zero, suc, ◌+◌, ◌-◌, ◌≤◌, ◌<◌, ◌≡◌, ◌≢◌, refl, ap, ◌∙◌, arith, true, ◌==◌, Bool-cases, inl,
  inr, ltb, le→leb, ltb→lt, ltb→le, if◌then◌else◌, List, [], ◌∷◌, ◌++◌, length, take, drop,
  replicate, length-append, length-replicate,
}
use ripe.Prelude.Outcome.{ok, Returns, ◌>>=◌}
use ripe.Prelude.Prefixes.{resize_grow, take-length, drop-length, length-drop, drop-add}
use ripe.Prelude.Text.{lacks}
use mathlib.Core.List.{append_assoc}
use ripe.Clib.StringBuf.{mem_strdup, StringBuf, write_at, strlen, strcat, realloc}

-- The buffer holds the text `t`: its memory begins with `t` and a NUL.
pub record HoldsText (b : StringBuf) (t : List ℕ) : Type 0 where
  pub behind : List ℕ
  pub memory : b.str ≡ t ++ 0 ∷ behind
  pub sized : b.size ≡ length t + 1
  pub allocated : b.alloc_size ≡ length b.str
  pub no_nul : lacks 0 t ≡ true

strlen-append : (t behind : List ℕ) → lacks 0 t ≡ true → strlen (t ++ 0 ∷ behind) ≡ ok (length t)
unfolding strlen lacks
strlen-append [] behind h = refl
strlen-append (c ∷ t) behind h = elim (Bool-cases (c == 0)) [
  | inl e ↦ absurd (ground arith)
  | inr e ↦ rw (e, strlen-append t behind (rw e at h))
]

pub write_at-append :
    (t old bytes : List ℕ)
    → length bytes ≤ length old
    → write_at (t ++ old) (length t) bytes ≡ ok (t ++ (bytes ++ drop (length bytes) old))
unfolding write_at
write_at-append t old bytes h =
    let fits : length t + length bytes ≤ length (t ++ old) = omega (arith, length-append t old) in
    rw (
      le→leb _ _ fits,
      take-length t old,
      drop-add (length t) (length bytes) (t ++ old),
      drop-length t old,
    )

pub mem_strdup-append : (t behind : List ℕ) → lacks 0 t ≡ true → mem_strdup (t ++ 0 ∷ behind) ≡ ok t
unfolding mem_strdup lacks
mem_strdup-append [] behind h = refl
mem_strdup-append (c ∷ t) behind h = elim (Bool-cases (c == 0)) [
  | inl e ↦ absurd (ground arith)
  | inr e ↦ rw (e, mem_strdup-append t behind (rw e at h))
]

-- a text and its NUL, written over the memory behind another
pub write_text :
    (t s old : List ℕ)
    → length s < length old
    → write_at (t ++ old) (length t) (s ++ 0 ∷ []) ≡ ok ((t ++ s) ++ 0 ∷ drop (suc (length s)) old)
write_text t s old room =
    let n : length (s ++ 0 ∷ []) ≡ suc (length s) = omega (arith, length-append s (0 ∷ [])) in
    let written = write_at-append t old (s ++ 0 ∷ []) (omega arith) in
    rw (
      rw n at written,
      append_assoc s (0 ∷ []) (drop (suc (length s)) old),
      append_assoc t s (0 ∷ drop (suc (length s)) old),
    )

pub strcat-append :
    (t s behind : List ℕ)
    → lacks 0 t ≡ true
    → length s ≤ length behind
    → strcat (t ++ 0 ∷ behind) s ≡ ok ((t ++ s) ++ 0 ∷ drop (length s) behind)
unfolding strcat
strcat-append t s behind h room =
    rw (strlen-append t behind h) (write_text t s (0 ∷ behind) (omega arith))

pub lacks-append :
    (c : ℕ) (s t : List ℕ) → lacks c s ≡ true → lacks c t ≡ true → lacks c (s ++ t) ≡ true
unfolding lacks
lacks-append c [] t h k = k
lacks-append c (x ∷ s) t h k = ground (arith, lacks-append c s t)

pub lacks-one : (c : ℕ) → c ≢ 0 → lacks 0 (c ∷ []) ≡ true
unfolding lacks
lacks-one c ne = ground arith

pub lacks-take : (c n : ℕ) (s : List ℕ) → lacks c s ≡ true → lacks c (take n s) ≡ true
unfolding lacks
lacks-take c zero s h = refl
lacks-take c (suc n) [] h = refl
lacks-take c (suc n) (x ∷ s) h = ground (arith, lacks-take c n s)

pub size-le : (b : StringBuf) (t : List ℕ) → HoldsText b t → b.size ≤ b.alloc_size
size-le b t h =
    omega (arith, h.sized, h.allocated, ap length h.memory, length-append t (0 ∷ h.behind))

-- a buffer with room for `k` bytes more, of the same text and size
pub record HasRoom (b : StringBuf) (t : List ℕ) (k : ℕ) (b' : StringBuf) : Type 0 where
  pub holds : HoldsText b' t
  pub same_size : b'.size ≡ b.size
  pub room : b.size + k ≤ b'.alloc_size

module _ (junk : ℕ) where
  realloc-HasRoom :
      (b : StringBuf) (t : List ℕ) (k n : ℕ)
      → HoldsText b t
      → b.alloc_size ≤ n
      → b.size + k ≤ n
      → HasRoom b t k (realloc junk b n)
  realloc-HasRoom b t k n h more enough =
      let grown = resize_grow junk n b.str (omega (arith, h.allocated)) in
      record {
        holds = record {
          behind = h.behind ++ replicate (n - length b.str) junk;
          memory =
              grown
              ∙ ap (λ m. m ++ replicate (n - length b.str) junk) h.memory
              ∙ append_assoc t (0 ∷ h.behind) (replicate (n - length b.str) junk);
          sized = h.sized;
          allocated = rw grown (
              omega (
                arith,
                h.allocated,
                length-append b.str (replicate (n - length b.str) junk),
                length-replicate (n - length b.str) junk,
              ));
          no_nul = h.no_nul;
        };
        same_size = refl;
        room = enough;
      }

  -- the test for room, as all operations make it
  pub make_room :
      (b : StringBuf) (t : List ℕ) (k n wanted : ℕ)
      → HoldsText b t
      → wanted ≡ b.size + k
      → (b.alloc_size < wanted → wanted ≤ n)
      → HasRoom b t k (if ltb b.alloc_size wanted then realloc junk b n else b)
  make_room b t k n wanted h e enough = elim (Bool-cases (ltb b.alloc_size wanted)) [
    | inl less ↦ rw less (
        let lt : b.alloc_size < wanted = ltb→lt _ _ less in
        realloc-HasRoom b t k n h (omega (arith, enough lt)) (omega (arith, e, enough lt)))
    | inr fits ↦
        rw fits (record { holds = h; same_size = refl; room = omega (arith, e, ltb→le _ _ fits) })
  ]

-- the end of `sbuf_printf`, `sbuf_cat` and `sbuf_ncat`
pub appended :
    (b b' : StringBuf) (t s : List ℕ) (size : ℕ)
    → HoldsText b t
    → HasRoom b t (length s) b'
    → lacks 0 s ≡ true
    → size ≡ b.size + length s
    → Returns
        (do str ← strcat b'.str s; ok (record b' { str = str; size = size }))
        (λ r. HoldsText r (t ++ s))
appended b b' t s size hb h no_nul e =
    let k = h.holds in
    let mem = length-append t (0 ∷ k.behind) in
    let fits : length s ≤ length k.behind =
      omega (arith, h.room, h.same_size, k.sized, k.allocated, ap length k.memory, mem) in
    let done : strcat b'.str s ≡ ok ((t ++ s) ++ 0 ∷ drop (length s) k.behind) =
      rw k.memory (strcat-append t s k.behind k.no_nul fits) in
    (
      record b' { str = (t ++ s) ++ 0 ∷ drop (length s) k.behind; size = size },
      rw done,
      record {
        behind = drop (length s) k.behind;
        memory = refl;
        sized = omega (arith, e, hb.sized, length-append t s);
        allocated = omega (
          arith,
          k.allocated,
          ap length k.memory,
          mem,
          length-append (t ++ s) (0 ∷ drop (length s) k.behind),
          length-append t s,
          length-drop (length s) k.behind,
        );
        no_nul = lacks-append 0 t s k.no_nul no_nul;
      },
    )
