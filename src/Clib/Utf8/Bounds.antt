-- ===== src/Clib/Utf8/Bounds.antt =====
-- What utf8_read consumes and returns, on any octets.
use Prim.Native.Nat.{bit_and, bit_or}
use ripe.Prelude.{
  ℕ, ◌+◌, ◌*◌, ◌%◌, ◌^◌, ◌≤◌, ◌<◌, ◌≡◌, refl, ap, inl, inr, true, not, ◌||◌, List, [], ◌∷◌, ◌++◌,
  arith, length, ltb, Bool-cases, ltb→lt,
}
use ripe.Prelude.Bits.{holds_below, holds_below_lem, bit_and_7, bit_and_15, bit_and_31, bit_and_63}
use ripe.Clib.Utf8.{
  done, is_ascii, in_middle, is_start2, is_start3, is_start4, read2, read3, read4, read, shl,
}
use ripe.Clib.Utf8.Digits.{join2, join3, join4, middle_lem, start2_lem, start4_lem}
use ripe.Clib.Utf8.RoundTrip.{IsEncoding2, IsEncoding4}

abbrev pub AllBytes : List ℕ → Type 0
AllBytes [] = Unit
AllBytes (b ∷ bs) = (b < 256) × AllBytes bs

ascii_bound_table : holds_below 256 (λ b. not (is_ascii b) || ltb b 128) ≡ true
unfolding holds_below
ascii_bound_table = refl

ascii_bound : (b : ℕ) → b < 256 → is_ascii b ≡ true → b < 128
ascii_bound b lt a =
    let h = holds_below_lem 256 _ b ascii_bound_table lt in ltb→lt b 128 (ground arith)

-- the characters that the branches of utf8_read put together
abbrev char2 : ℕ → ℕ → ℕ
char2 b₁ b₂ = bit_or (shl (bit_and b₁ 0x1F) (2 ^ 6)) (bit_and b₂ 0x3F)

abbrev char3 : ℕ → ℕ → ℕ → ℕ
char3 b₁ b₂ b₃ =
    bit_or (bit_or (shl (bit_and b₁ 0x0F) (2 ^ 12)) (shl (bit_and b₂ 0x3F) (2 ^ 6)))
      (bit_and b₃ 0x3F)

abbrev char4 : ℕ → ℕ → ℕ → ℕ → ℕ
char4 b₁ b₂ b₃ b₄ =
    bit_or
      (bit_or (bit_or (shl (bit_and b₁ 0x07) (2 ^ 18)) (shl (bit_and b₂ 0x3F) (2 ^ 12)))
        (shl (bit_and b₃ 0x3F) (2 ^ 6)))
      (bit_and b₄ 0x3F)

char2-lt : (b₁ b₂ : ℕ) → char2 b₁ b₂ < 2 ^ 21
char2-lt b₁ b₂ =
    rw (bit_and_31, bit_and_63, join2 (b₁ % 32) (b₂ % 64) (omega arith) (omega arith)) (omega arith)

char3-lt : (b₁ b₂ b₃ : ℕ) → char3 b₁ b₂ b₃ < 2 ^ 21
char3-lt b₁ b₂ b₃ =
    let j = join3 (b₁ % 16) (b₂ % 64) (b₃ % 64) (omega arith) (omega arith) (omega arith) in
    rw (bit_and_15 b₁, bit_and_63 b₂, bit_and_63 b₃, j) (omega arith)

char4-lt : (b₁ b₂ b₃ b₄ : ℕ) → char4 b₁ b₂ b₃ b₄ < 2 ^ 21
char4-lt b₁ b₂ b₃ b₄ =
    let j =
      join4 (b₁ % 8) (b₂ % 64) (b₃ % 64) (b₄ % 64) (omega arith) (omega arith) (omega arith)
        (omega arith) in
    rw (bit_and_7 b₁, bit_and_63 b₂, bit_and_63 b₃, bit_and_63 b₄, j) (omega arith)

-- the octets `used` stand for `c`, and `rest` is behind them
abbrev pub Consumes : List ℕ → ℕ → List ℕ → Type 0
Consumes bs c rest =
    (used : List ℕ) × (bs ≡ used ++ rest) × (0 < length used) × (length used ≤ 4) × (c < 2 ^ 21)

consumed :
    (used r rest : List ℕ) (v c : ℕ)
    → 0 < length used
    → length used ≤ 4
    → v < 2 ^ 21
    → (v ≡ c) × (r ≡ rest)
    → Consumes (used ++ r) c rest
consumed used r rest v c some_used few_used small (ev, er) =
    (used, ap (λ t. used ++ t) er, some_used, few_used, rw ev at small)

read2-Consumes :
    (b₁ c : ℕ) (r rest : List ℕ) → read2 b₁ r ≡ done (c, rest) → Consumes (b₁ ∷ r) c rest
unfolding read2
read2-Consumes b₁ c [] rest e = cc
read2-Consumes b₁ c (b₂ ∷ r) rest e =
    consumed (b₁ ∷ b₂ ∷ []) r rest (char2 b₁ b₂) c (omega arith) (omega arith) (char2-lt b₁ b₂)
      (ground arith)

read3-Consumes :
    (b₁ c : ℕ) (r rest : List ℕ) → read3 b₁ r ≡ done (c, rest) → Consumes (b₁ ∷ r) c rest
unfolding read3
read3-Consumes b₁ c [] rest e = cc
read3-Consumes b₁ c (b₂ ∷ []) rest e = cc
read3-Consumes b₁ c (b₂ ∷ b₃ ∷ r) rest e =
    consumed (b₁ ∷ b₂ ∷ b₃ ∷ []) r rest (char3 b₁ b₂ b₃) c (omega arith) (omega arith)
      (char3-lt b₁ b₂ b₃) (ground arith)

read4-Consumes :
    (b₁ c : ℕ) (r rest : List ℕ) → read4 b₁ r ≡ done (c, rest) → Consumes (b₁ ∷ r) c rest
unfolding read4
read4-Consumes b₁ c [] rest e = cc
read4-Consumes b₁ c (b₂ ∷ []) rest e = cc
read4-Consumes b₁ c (b₂ ∷ b₃ ∷ []) rest e = cc
read4-Consumes b₁ c (b₂ ∷ b₃ ∷ b₄ ∷ r) rest e =
    consumed (b₁ ∷ b₂ ∷ b₃ ∷ b₄ ∷ []) r rest (char4 b₁ b₂ b₃ b₄) c (omega arith) (omega arith)
      (char4-lt b₁ b₂ b₃ b₄) (ground arith)

-- Where utf8_read succeeds it has taken from one to four octets, and the character is below 2 ^ 21.
pub read_bounds :
    (bs : List ℕ) (c : ℕ) (rest : List ℕ)
    → AllBytes bs
    → read bs ≡ done (c, rest)
    → Consumes bs c rest
unfolding read
read_bounds [] c rest bytes e = cc
read_bounds (b₁ ∷ r) c rest bytes e = elim (Bool-cases (in_middle b₁)) [
  | inl m ↦ let f = rw m at e in absurd (cc)
  | inr m ↦ elim (Bool-cases (is_ascii b₁)) [
    | inl a ↦
        consumed (b₁ ∷ []) r rest b₁ c (omega arith) (omega arith)
          (omega (arith, ascii_bound b₁ bytes.0 a)) (ground arith)
    | inr a ↦ elim (Bool-cases (is_start2 b₁)) [
      | inl s ↦ read2-Consumes b₁ c r rest (rw (m, a, s) at e)
      | inr s ↦ elim (Bool-cases (is_start3 b₁)) [
        | inl t ↦ read3-Consumes b₁ c r rest (rw (m, a, s, t) at e)
        | inr t ↦ elim (Bool-cases (is_start4 b₁)) [
          | inl u ↦ read4-Consumes b₁ c r rest (rw (m, a, s, t, u) at e)
          | inr u ↦ let f = rw (m, a, s, t, u) at e in absurd (cc)
        ]
      ]
    ]
  ]
]

-- utf8_read takes the overlong sequences that begin with 0xC0 or 0xC1, for characters that the
-- comment on two octets leaves out, and the sequences that begin with 0xF5 to 0xF7, for characters
-- above the range that utf8_write admits.
pub read_overlong :
    (y z w x : ℕ) (rest : List ℕ)
    → y < 2
    → z < 64
    → 4 < w
    → w < 8
    → x < 64
    → (read ((bit_or y 0xC0 % 256 ∷ bit_or z 0x80 % 256 ∷ []) ++ rest) ≡ done (y * 64 + z, rest))
      × (y * 64 + z < 0x80)
      × (read (
            (bit_or w 0xF0 % 256
              ∷ bit_or x 0x80 % 256
              ∷ bit_or z 0x80 % 256
              ∷ bit_or z 0x80 % 256
              ∷ [])
            ++ rest)
          ≡ done (w * 262144 + x * 4096 + z * 64 + z, rest))
      × (0x10FFFF < w * 262144 + x * 4096 + z * 64 + z)
read_overlong y z w x rest ly lz lo lw lx = (
  (IsEncoding2 y z _ _ (omega arith) lz (start2_lem y (omega arith)) (middle_lem z lz)).reads rest,
  omega arith,
  (IsEncoding4 w x z z _ _ _ _ lw lx lz lz (start4_lem w lw) (middle_lem x lx) (middle_lem z lz)
        (middle_lem z lz)).reads
      rest,
  omega arith,
)
