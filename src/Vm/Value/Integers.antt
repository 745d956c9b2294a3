-- ===== src/Vm/Value/Integers.antt =====
-- What packing, unpacking and the operators do to an int64.
use Prim.Native.Nat.{bit_and}
use ripe.Prelude.{ℕ, ◌+◌, ◌-◌, ◌*◌, ◌%◌, ◌^◌, ◌≤◌, ◌<◌, ◌≡◌, arith, ap, ◌∙◌}
use ripe.Prelude.Bits.{bit_and_3}
use ripe.Prelude.Int.{ℤ, pos, negsuc, pos_part, neg_part, to_word}
use ripe.Prelude.Outcome.{ok}
use ripe.Vm.Value.{pack_int64, unpack_int64, op_unary_minus, op_unary_bit_not, negate, complement}

-- the integers that 62 bits hold
abbrev pub IsInt62 : ℤ → Type 0
IsInt62 i = (pos_part i < 2 ^ 61) × (neg_part i ≤ 2 ^ 61)

pub pack_lem : (i : ℤ) → pack_int64 i ≡ to_word i * 4 % 2 ^ 64 + 1
unfolding pack_int64
pack_lem (pos n) = omega arith
pack_lem (negsuc n) = omega arith

unpack_lem :
    (w : ℕ)
    → w < 2 ^ 62
    → IsInt62 (unpack_int64 (w * 4 + 1)) × (to_word (unpack_int64 (w * 4 + 1)) % 2 ^ 62 ≡ w)
unfolding unpack_int64
unpack_lem w h = ground arith

low_bits : (i : ℤ) → to_word i * 4 % 2 ^ 64 ≡ to_word i % 2 ^ 62 * 4
low_bits (pos n) = omega arith
low_bits (negsuc n) = omega arith

exact : (i j : ℤ) → IsInt62 i → IsInt62 j → to_word j % 2 ^ 62 ≡ to_word i % 2 ^ 62 → j ≡ i
exact (pos n) (pos m) h k e = ap pos (omega arith)
exact (pos n) (negsuc m) h k e = absurd (omega arith)
exact (negsuc n) (pos m) h k e = absurd (omega arith)
exact (negsuc n) (negsuc m) h k e = ap negsuc (omega arith)

-- Unpacking what was packed gives a number of 62 bits with the same low 62 bits, and so the same
-- number exactly where 62 bits hold it.
pub unpack_int64-pack_int64 :
    (i : ℤ)
    → IsInt62 (unpack_int64 (pack_int64 i))
      × (to_word (unpack_int64 (pack_int64 i)) % 2 ^ 62 ≡ to_word i % 2 ^ 62)
      × (IsInt62 i → unpack_int64 (pack_int64 i) ≡ i)
unpack_int64-pack_int64 i =
    let h = unpack_lem (to_word i % 2 ^ 62) (omega arith) in
    let e : pack_int64 i ≡ to_word i % 2 ^ 62 * 4 + 1 = pack_lem i ∙ ap (λ t. t + 1) (low_bits i) in
    rw e (h.0, h.1, λ small. exact i _ small h.0 h.1)

-- the word of a packed integer depends on the low 62 bits only
pack_congr : (i j : ℤ) → to_word i % 2 ^ 62 ≡ to_word j % 2 ^ 62 → pack_int64 i ≡ pack_int64 j
pack_congr i j e = omega (arith, pack_lem i, pack_lem j, low_bits i, low_bits j)

pub to_word-lt : (i : ℤ) → to_word i < 2 ^ 64
to_word-lt (pos n) = omega arith
to_word-lt (negsuc n) = omega arith

to_word-negate : (i : ℤ) → to_word (negate i) ≡ (2 ^ 64 - to_word i) % 2 ^ 64
to_word-negate (pos n) = ground arith
to_word-negate (negsuc n) = ground arith

to_word-complement : (i : ℤ) → to_word (complement i) ≡ 2 ^ 64 - 1 - to_word i
to_word-complement (pos n) = ground arith
to_word-complement (negsuc n) = ground arith

pub packed_tail : (i : ℤ) → bit_and (pack_int64 i) 3 ≡ 1
packed_tail i = rw (bit_and_3 (pack_int64 i)) (omega (arith, pack_lem i))

-- On a packed integer the operators - and bit_not return the packed opposite and the packed
-- complement, whether or not 62 bits hold the integer.
pub unary_lem :
    (flip : ℕ → ℕ) (i : ℤ)
    → (op_unary_minus flip (pack_int64 i) ≡ ok (pack_int64 (negate i)))
      × (op_unary_bit_not (pack_int64 i) ≡ ok (pack_int64 (complement i)))
unfolding op_unary_minus op_unary_bit_not
unary_lem flip i =
    let j = unpack_int64 (pack_int64 i) in
    let same : to_word j % 2 ^ 62 ≡ to_word i % 2 ^ 62 = (unpack_int64-pack_int64 i).1 in
    (
      rw (packed_tail i) (
          ap ok (
            pack_congr (negate j) (negate i)
              (omega (arith, to_word-negate i, to_word-negate j, to_word-lt i, to_word-lt j)))),
      rw (packed_tail i) (
          ap ok (
            pack_congr (complement j) (complement i) (
              omega
                (arith, to_word-complement i, to_word-complement j, to_word-lt i, to_word-lt j)))),
    )
