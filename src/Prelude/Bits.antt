-- ===== src/Prelude/Bits.antt =====
-- The bit operations at variables: the law for the lowest digit, masks, shifts and disjoint parts.
use Prim.Native.Nat.{min, max, bit_and, bit_or, digits, bit_and-bitwise, bit_or-bitwise}
use native.Mathlib.Nat.{pow-suc, div-div-eq-div-mul, mul_comm}
use ripe.Prelude.{
  ℕ, zero, suc, ◌+◌, ◌*◌, ◌/◌, ◌%◌, ◌^◌, ◌≤◌, ◌<◌, ◌≡◌, refl, ap, ◌∙◌, sym, subst, Bool, true,
  false, if◌then◌else◌, arith, dec_lt,
}

-- a test of all numbers below a bound, by evaluation
unfoldable pub holds_below : ℕ → (ℕ → Bool) → Bool
holds_below zero test = true
holds_below (suc bound) test = if test bound then holds_below bound test else false

pub holds_below_lem :
    (bound : ℕ) (test : ℕ → Bool) (k : ℕ)
    → holds_below bound test ≡ true
    → k < bound
    → test k ≡ true
unfolding holds_below
holds_below_lem zero test k all below = absurd (omega arith)
holds_below_lem (suc bound) test k all below = ground (arith, holds_below_lem bound test k)

-- A claim on the half of a number leads to the claim on the number.
halving_fuel {ℓ} :
    (P : ℕ → Type ℓ) → P 0 → ((k : ℕ) → P (k / 2) → P k) → (fuel k : ℕ) → k ≤ fuel → P k
halving_fuel P start double zero k le = let e : 0 ≡ k = omega arith in subst P e start
halving_fuel P start double (suc fuel) k le = elim (dec_lt k 1) [
  | yes none_left ↦ let e : 0 ≡ k = omega arith in subst P e start
  | no some_left ↦ double k (halving_fuel P start double fuel (k / 2) (omega arith))
]

halving {ℓ} : (P : ℕ → Type ℓ) → P 0 → ((k : ℕ) → P (k / 2) → P k) → (k : ℕ) → P k
halving P start double k = halving_fuel P start double k k (omega arith)

-- the recursion on digits that a native operation stands for: fuel above the first operand is idle
module _ (base : ℕ → ℕ) (op : ℕ → ℕ → ℕ) where
  spare_digit : (fuel k m : ℕ) → k ≤ fuel → digits base op (suc fuel) k m ≡ digits base op fuel k m
  spare_digit zero zero m le = refl
  spare_digit zero (suc k) m le = absurd (omega arith)
  spare_digit (suc fuel) zero m le = refl
  spare_digit (suc fuel) (suc k) m le =
      let less = spare_digit fuel (suc k / 2) (m / 2) (omega arith) in omega (arith, less)

  spare_digits : (fuel k m : ℕ) → k ≤ fuel → digits base op fuel k m ≡ digits base op k k m
  spare_digits zero k m le = let e : k ≡ 0 = omega arith in rw e refl
  spare_digits (suc fuel) k m le = elim (dec_lt fuel k) [
    | yes all ↦ let e : k ≡ suc fuel = omega arith in rw e refl
    | no idle ↦ spare_digit fuel k m (omega arith) ∙ spare_digits fuel k m (omega arith)
  ]

pub bit_and_step : (k m : ℕ) → bit_and k m ≡ bit_and (k / 2) (m / 2) * 2 + min (k % 2) (m % 2)
bit_and_step zero m = rw (bit_and-bitwise 0 m, bit_and-bitwise 0 (m / 2)) (omega arith)
bit_and_step (suc k) m =
    let half = spare_digits (λ t. zero) min k (suc k / 2) (m / 2) (omega arith) in
    omega (arith, half, bit_and-bitwise (suc k) m, bit_and-bitwise (suc k / 2) (m / 2))

pub bit_or_step : (k m : ℕ) → bit_or k m ≡ bit_or (k / 2) (m / 2) * 2 + max (k % 2) (m % 2)
bit_or_step zero m = rw (bit_or-bitwise 0 m, bit_or-bitwise 0 (m / 2)) (omega arith)
bit_or_step (suc k) m =
    let half = spare_digits (λ t. t) max k (suc k / 2) (m / 2) (omega arith) in
    omega (arith, half, bit_or-bitwise (suc k) m, bit_or-bitwise (suc k / 2) (m / 2))

bit_and-zero : (k : ℕ) → bit_and k 0 ≡ 0
bit_and-zero = halving _ refl (λ k less. omega (arith, bit_and_step k 0))

pub bit_or-zero : (k : ℕ) → bit_or k 0 ≡ k
bit_or-zero = halving _ refl (λ k less. omega (arith, bit_or_step k 0))

-- Masks of ones.
pub bit_and_1 : (a : ℕ) → bit_and a 1 ≡ a % 2
bit_and_1 a = omega (arith, bit_and_step a 1, bit_and-zero (a / 2))

pub bit_and_3 : (a : ℕ) → bit_and a 3 ≡ a % 4
bit_and_3 a = omega (arith, bit_and_step a 3, bit_and_1 (a / 2))

pub bit_and_7 : (a : ℕ) → bit_and a 7 ≡ a % 8
bit_and_7 a = omega (arith, bit_and_step a 7, bit_and_3 (a / 2))

pub bit_and_15 : (a : ℕ) → bit_and a 15 ≡ a % 16
bit_and_15 a = omega (arith, bit_and_step a 15, bit_and_7 (a / 2))

pub bit_and_31 : (a : ℕ) → bit_and a 31 ≡ a % 32
bit_and_31 a = omega (arith, bit_and_step a 31, bit_and_15 (a / 2))

pub bit_and_63 : (a : ℕ) → bit_and a 63 ≡ a % 64
bit_and_63 a = omega (arith, bit_and_step a 63, bit_and_31 (a / 2))

-- A mask that starts `k` digits up.
and_double : (a m : ℕ) → bit_and a (m * 2) ≡ bit_and (a / 2) m * 2
and_double a m =
    let e : m * 2 / 2 ≡ m = omega arith in let s = rw e at (bit_and_step a (m * 2)) in omega arith

pub bit_and_shifted : (k a m : ℕ) → bit_and a (m * 2 ^ k) ≡ bit_and (a / 2 ^ k) m * 2 ^ k
bit_and_shifted zero a m =
    let e : m * 2 ^ 0 ≡ m = omega arith in
    let d : a / 2 ^ 0 ≡ a = omega arith in rw (e, d) (omega arith)
bit_and_shifted (suc k) a m =
    let e : m * (2 ^ k * 2) ≡ m * 2 ^ k * 2 = omega arith in
    let d : a / (2 ^ k * 2) ≡ a / 2 / 2 ^ k =
      ap (λ t. a / t) (mul_comm (2 ^ k) 2) ∙ sym (div-div-eq-div-mul a 2 (2 ^ k)) in
    rw (pow-suc, e, d) (and_double a (m * 2 ^ k) ∙ rw (bit_and_shifted k (a / 2) m) (omega arith))

-- A sum of parts that share no digit.
or_double :
    (p : ℕ)
    → ((y z : ℕ) → z < p → bit_or (y * p) z ≡ y * p + z)
    → (y z : ℕ) → z < p * 2
    → bit_or (y * (p * 2)) z ≡ y * (p * 2) + z
or_double p h y z lt =
    let e : y * (p * 2) / 2 ≡ y * p = omega arith in
    let s = rw e at (bit_or_step (y * (p * 2)) z) in omega (arith, h y (z / 2) (omega arith))

pub bit_or_parts : (k y z : ℕ) → z < 2 ^ k → bit_or (y * 2 ^ k) z ≡ y * 2 ^ k + z
bit_or_parts zero y z lt =
    let e : y * 2 ^ 0 ≡ y = omega arith in
    let d : z ≡ 0 = omega arith in rw (e, d) (bit_or-zero y ∙ omega arith)
bit_or_parts (suc k) y z lt = rw pow-suc (or_double (2 ^ k) (bit_or_parts k) y z (rw pow-suc at lt))
