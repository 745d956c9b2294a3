-- ===== src/Clib/Utf8.antt =====
-- UTF-8 as clib/utf8.c reads and writes it. The memory from `*str` up to `limit` is a list of
-- bytes, so that `str >= limit` says that the list is empty; a success returns what is left of it.
pub mod Digits
pub mod RoundTrip
pub mod Bounds
mod Tests
use Prim.Native.Nat.{bit_and, bit_or}
use ripe.Prelude.{
  ℕ, ◌*◌, ◌/◌, ◌%◌, ◌^◌, Bool, true, false, not, ◌&&◌, List, [], ◌∷◌, ◌==◌, leb, ltb, if◌then◌else◌,
}

-- ERROR_UTF8_INVALID, ERROR_UTF8_LIMITED, ERROR_UTF8_SEEK
pub data Utf8Error : Type 0 where
  invalid limited seek : Utf8Error

pub data Result (A : Type 0) : Type 0 where
  done : A → Result A
  fail : Utf8Error → Result A

abbrev pub is_ascii : ℕ → Bool
is_ascii c = bit_and c 0x80 == 0

abbrev pub in_middle : ℕ → Bool
in_middle c = bit_and c 0xC0 == 0x80

abbrev pub is_start2 : ℕ → Bool
is_start2 c = bit_and c 0xE0 == 0xC0

abbrev pub is_start3 : ℕ → Bool
is_start3 c = bit_and c 0xF0 == 0xE0

abbrev pub is_start4 : ℕ → Bool
is_start4 c = bit_and c 0xF8 == 0xF0

pub needs : ℕ → ℕ
needs u = if leb u 0x7F then 1 else if leb u 0x7FF then 2 else if leb u 0xFFFF then 3 else 4

abbrev pub is_valid : ℕ → Bool
is_valid u = leb u 0x10FFFF

-- `x << k` of a unichar; `p` is 2 ^ k
abbrev pub shl : ℕ → ℕ → ℕ
shl x p = x * p % 2 ^ 32

-- the three branches of `utf8_read` behind its first octet
pub read2 : ℕ → List ℕ → Result (ℕ × List ℕ)
read2 b₁ [] = fail limited
read2 b₁ (b₂ ∷ rest) =
    if in_middle b₂
    then done (bit_or (shl (bit_and b₁ 0x1F) (2 ^ 6)) (bit_and b₂ 0x3F), rest)
    else fail invalid

pub read3 : ℕ → List ℕ → Result (ℕ × List ℕ)
read3 b₁ [] = fail limited
read3 b₁ (b₂ ∷ []) = fail limited
read3 b₁ (b₂ ∷ b₃ ∷ rest) =
    if not (in_middle b₂)
    then fail invalid
    else if not (in_middle b₃)
    then fail invalid
    else done (
      bit_or (bit_or (shl (bit_and b₁ 0x0F) (2 ^ 12)) (shl (bit_and b₂ 0x3F) (2 ^ 6)))
          (bit_and b₃ 0x3F),
      rest,
    )

pub read4 : ℕ → List ℕ → Result (ℕ × List ℕ)
read4 b₁ [] = fail limited
read4 b₁ (b₂ ∷ []) = fail limited
read4 b₁ (b₂ ∷ b₃ ∷ []) = fail limited
read4 b₁ (b₂ ∷ b₃ ∷ b₄ ∷ rest) =
    if not (in_middle b₂)
    then fail invalid
    else if not (in_middle b₃)
    then fail invalid
    else if not (in_middle b₄)
    then fail invalid
    else done (
      bit_or
          (bit_or (bit_or (shl (bit_and b₁ 0x07) (2 ^ 18)) (shl (bit_and b₂ 0x3F) (2 ^ 12)))
            (shl (bit_and b₃ 0x3F) (2 ^ 6)))
          (bit_and b₄ 0x3F),
      rest,
    )

pub read : List ℕ → Result (ℕ × List ℕ)
read [] = fail limited
read (b₁ ∷ rest) =
    if in_middle b₁
    then fail seek
    else if is_ascii b₁
    then done (b₁, rest)
    else if is_start2 b₁
    then read2 b₁ rest
    else if is_start3 b₁
    then read3 b₁ rest
    else if is_start4 b₁
    then read4 b₁ rest
    else fail invalid

-- the octets that the `switch` of `utf8_write` stores
pub octets : ℕ → ℕ → List ℕ
octets bytes c =
    if bytes == 1
    then c % 256 ∷ []
    else if bytes == 2
    then bit_or (bit_and c 0x7C0 / 2 ^ 6) 0xC0 % 256 ∷ bit_or (bit_and c 0x3F) 0x80 % 256 ∷ []
    else if bytes == 3
    then bit_or (bit_and c 0xF000 / 2 ^ 12) 0xE0 % 256
      ∷ bit_or (bit_and c 0xFC0 / 2 ^ 6) 0x80 % 256
      ∷ bit_or (bit_and c 0x3F) 0x80 % 256
      ∷ []
    else bit_or (bit_and c 0x1C0000 / 2 ^ 18) 0xF0 % 256
      ∷ bit_or (bit_and c 0x3F000 / 2 ^ 12) 0x80 % 256
      ∷ bit_or (bit_and c 0xFC0 / 2 ^ 6) 0x80 % 256
      ∷ bit_or (bit_and c 0x3F) 0x80 % 256
      ∷ []

-- `room` is `limit - *str`; a success returns the octets stored from `*str` on
pub write : ℕ → ℕ → Result (List ℕ)
write room c =
    if not (is_valid c)
    then fail invalid
    else if ltb room (needs c)
    then fail limited
    else done (octets (needs c) c)
