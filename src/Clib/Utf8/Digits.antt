-- ===== src/Clib/Utf8/Digits.antt =====
-- The octets that utf8_write stores, by their payloads, and what utf8_read takes from them.
use Prim.Native.Nat.{bit_and, bit_or}
use ripe.Prelude.{
  ℕ, ◌+◌, ◌*◌, ◌/◌, ◌%◌, ◌^◌, ◌<◌, ◌≡◌, refl, ◌∙◌, true, false, not, ◌&&◌, arith, ◌==◌,
}
use ripe.Prelude.Bits.{
  holds_below, holds_below_lem, bit_and_7, bit_and_15, bit_and_31, bit_and_63, bit_and_shifted,
  bit_or_parts,
}
use ripe.Clib.Utf8.{is_ascii, in_middle, is_start2, is_start3, is_start4, shl}

-- octets with two, three and four in a sequence, and those behind the first
abbrev pub Start2 : ℕ → ℕ → Type 0
Start2 y b =
    (in_middle b ≡ false) × (is_ascii b ≡ false) × (is_start2 b ≡ true) × (bit_and b 0x1F ≡ y)

abbrev pub Start3 : ℕ → ℕ → Type 0
Start3 x b =
    (in_middle b ≡ false)
    × (is_ascii b ≡ false)
    × (is_start2 b ≡ false)
    × (is_start3 b ≡ true)
    × (bit_and b 0x0F ≡ x)

abbrev pub Start4 : ℕ → ℕ → Type 0
Start4 w b =
    (in_middle b ≡ false)
    × (is_ascii b ≡ false)
    × (is_start2 b ≡ false)
    × (is_start3 b ≡ false)
    × (is_start4 b ≡ true)
    × (bit_and b 0x07 ≡ w)

abbrev pub Middle : ℕ → ℕ → Type 0
Middle z b = (in_middle b ≡ true) × (bit_and b 0x3F ≡ z)

middle_table :
    holds_below 64 (λ z. let b = bit_or z 0x80 % 256 in in_middle b && bit_and b 0x3F == z) ≡ true
unfolding holds_below
middle_table = refl

start2_table :
    holds_below 32 (λ y.
      let b = bit_or y 0xC0 % 256 in
      not (in_middle b) && (not (is_ascii b) && (is_start2 b && bit_and b 0x1F == y)))
    ≡ true
unfolding holds_below
start2_table = refl

pub middle_lem : (z : ℕ) → z < 64 → Middle z (bit_or z 0x80 % 256)
middle_lem z lt = let h = holds_below_lem 64 _ z middle_table lt in ground arith

start3_table :
    holds_below 16 (λ x.
      let b = bit_or x 0xE0 % 256 in
      not (in_middle b)
      && (not (is_ascii b) && (not (is_start2 b) && (is_start3 b && bit_and b 0x0F == x))))
    ≡ true
unfolding holds_below
start3_table = refl

start4_table :
    holds_below 8 (λ w.
      let b = bit_or w 0xF0 % 256 in
      not (in_middle b)
      && (not (is_ascii b)
          && (not (is_start2 b) && (not (is_start3 b) && (is_start4 b && bit_and b 0x07 == w)))))
    ≡ true
unfolding holds_below
start4_table = refl

ascii_table : holds_below 128 (λ b. not (in_middle b) && is_ascii b) ≡ true
unfolding holds_below
ascii_table = refl

pub start2_lem : (y : ℕ) → y < 32 → Start2 y (bit_or y 0xC0 % 256)
start2_lem y lt = let h = holds_below_lem 32 _ y start2_table lt in ground arith

pub start3_lem : (x : ℕ) → x < 16 → Start3 x (bit_or x 0xE0 % 256)
start3_lem x lt = let h = holds_below_lem 16 _ x start3_table lt in ground arith

pub start4_lem : (w : ℕ) → w < 8 → Start4 w (bit_or w 0xF0 % 256)
start4_lem w lt = let h = holds_below_lem 8 _ w start4_table lt in ground arith

pub ascii_lem : (b : ℕ) → b < 128 → (in_middle b ≡ false) × (is_ascii b ≡ true)
ascii_lem b lt = let h = holds_below_lem 128 _ b ascii_table lt in ground arith

-- The payloads that utf8_write takes out of a character.
pub payload_y2 : (c : ℕ) → bit_and c 0x7C0 / 2 ^ 6 ≡ c / 64 % 32
payload_y2 c = omega (arith, bit_and_shifted 6 c 31, bit_and_31 (c / 64))

pub payload_y : (c : ℕ) → bit_and c 0xFC0 / 2 ^ 6 ≡ c / 64 % 64
payload_y c = omega (arith, bit_and_shifted 6 c 63, bit_and_63 (c / 64))

pub payload_x3 : (c : ℕ) → bit_and c 0xF000 / 2 ^ 12 ≡ c / 4096 % 16
payload_x3 c = omega (arith, bit_and_shifted 12 c 15, bit_and_15 (c / 4096))

pub payload_x : (c : ℕ) → bit_and c 0x3F000 / 2 ^ 12 ≡ c / 4096 % 64
payload_x c = omega (arith, bit_and_shifted 12 c 63, bit_and_63 (c / 4096))

pub payload_w : (c : ℕ) → bit_and c 0x1C0000 / 2 ^ 18 ≡ c / 262144 % 8
payload_w c = omega (arith, bit_and_shifted 18 c 7, bit_and_7 (c / 262144))

-- What utf8_read puts together from payloads.
pub join2 : (y z : ℕ) → y < 64 → z < 64 → bit_or (shl y (2 ^ 6)) z ≡ y * 64 + z
join2 y z ly lz = let e : shl y (2 ^ 6) ≡ y * 2 ^ 6 = omega arith in rw e (bit_or_parts 6 y z lz)

pub join3 :
    (x y z : ℕ)
    → x < 64
    → y < 64
    → z < 64
    → bit_or (bit_or (shl x (2 ^ 12)) (shl y (2 ^ 6))) z ≡ x * 4096 + y * 64 + z
join3 x y z lx ly lz =
    let e : shl x (2 ^ 12) ≡ x * 2 ^ 12 = omega arith in
    let d : shl y (2 ^ 6) ≡ y * 64 = omega arith in
    let o : bit_or (x * 2 ^ 12) (y * 64) ≡ (x * 64 + y) * 2 ^ 6 =
      bit_or_parts 12 x (y * 64) (omega arith) ∙ omega arith in
    rw (e, d, o) (bit_or_parts 6 (x * 64 + y) z lz ∙ omega arith)

pub join4 :
    (w x y z : ℕ)
    → w < 8
    → x < 64
    → y < 64
    → z < 64
    → bit_or (bit_or (bit_or (shl w (2 ^ 18)) (shl x (2 ^ 12))) (shl y (2 ^ 6))) z
      ≡ w * 262144 + x * 4096 + y * 64 + z
join4 w x y z lw lx ly lz =
    let e : shl w (2 ^ 18) ≡ w * 2 ^ 18 = omega arith in
    let d : shl x (2 ^ 12) ≡ x * 4096 = omega arith in
    let c : shl y (2 ^ 6) ≡ y * 64 = omega arith in
    let o : bit_or (w * 2 ^ 18) (x * 4096) ≡ (w * 64 + x) * 2 ^ 12 =
      bit_or_parts 18 w (x * 4096) (omega arith) ∙ omega arith in
    let p : bit_or ((w * 64 + x) * 2 ^ 12) (y * 64) ≡ ((w * 64 + x) * 64 + y) * 2 ^ 6 =
      bit_or_parts 12 (w * 64 + x) (y * 64) (omega arith) ∙ omega arith in
    rw (e, d, c, o, p) (bit_or_parts 6 ((w * 64 + x) * 64 + y) z lz ∙ omega arith)
