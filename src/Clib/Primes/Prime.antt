-- ===== src/Clib/Primes/Prime.antt =====
-- The entries of `sizes[]` are primes: trial division up to the square root.
use Prim.Native.Nat.{◌∣◌}
use native.Mathlib.Nat.{
  dvd_of_mod-eq-zero, dvd-mul_left, dvd-add_iff_right, dvd-mul_left_of_dvd, div-add-mod, mod-lt,
  mul-mod_left, le_refl, le_of_dvd,
}
use native.Mathlib.Nat
use ripe.Prelude.{
  ℕ, zero, suc, ◌+◌, ◌*◌, ◌/◌, ◌%◌, ◌≤◌, ◌<◌, ◌≡◌, refl, ap, ◌≢◌, Bool, true, false, not, ◌&&◌,
  List, [], ◌∷◌, arith, ◌==◌, dec_lt, ltb,
}
use ripe.Clib.Primes.{sizes}

pub record IsPrime (p : ℕ) : Type 0 where
  pub large : 1 < p
  pub no_divisor : (d : ℕ) → 1 < d → d < p → p % d ≢ 0

pos_of_ne : (n : ℕ) → n ≢ 0 → 0 < n
pos_of_ne n h = omega arith

-- no number from 2 to `k + 1` divides `p`
trial : ℕ → ℕ → Bool
trial p zero = true
trial p (suc k) = not (p % (k + 2) == 0) && trial p k

trial_sound : (p k d : ℕ) → trial p k ≡ true → 1 < d → d < k + 2 → p % d ≢ 0
unfolding trial
trial_sound p zero d t lo hi = absurd (omega arith)
trial_sound p (suc k) d t lo hi = ground (arith, trial_sound p k d)

cofactor : (p d : ℕ) → p % d ≡ 0 → d * (p / d) ≡ p
cofactor p d e = omega (arith, div-add-mod p d)

cofactor_divides : (p d q : ℕ) → d * q ≡ p → p % q ≡ 0
cofactor_divides p d q e = rw (← e) (mul-mod_left d q)

cofactor_large : (p d q : ℕ) → d * q ≡ p → d < p → 1 < q
cofactor_large p d zero e lt = absurd (grind arith)
cofactor_large p d (suc zero) e lt = absurd (grind arith)
cofactor_large p d (suc (suc q)) e lt = omega arith

cofactor_small : (p d q r : ℕ) → d * q ≡ p → p < r * r → r ≤ d → q < r
cofactor_small p d q r e root big = grind (arith, Nat.mul-le-mul)

IsPrime-of_trial : (p k : ℕ) → 1 < p → trial p k ≡ true → p < (k + 2) * (k + 2) → IsPrime p
IsPrime-of_trial p k large t root = record { large = large; no_divisor = go }
  where
    go : (d : ℕ) → 1 < d → d < p → p % d ≢ 0
    go d lo hi e = elim (dec_lt d (k + 2)) [
      | yes below ↦ trial_sound p k d t lo below e
      | no above ↦
          let c = cofactor p d e in
          trial_sound p k (p / d) t (cofactor_large p d (p / d) c hi)
            (cofactor_small p d (p / d) (k + 2) c root (omega arith))
            (cofactor_divides p d (p / d) c)
    ]

-- the remainder of `p` by `x` keeps what `x` has: `p` divides its product with `b`
remainder_divides : (p x b : ℕ) → p ∣ x * b → p ∣ p % x * b
remainder_divides p x b h = (dvd-add_iff_right p (dvd-mul_left_of_dvd p h (p / x))).1 (
    let e : p / x * (x * b) + p % x * b ≡ b * p =
      omega (arith, ap (λ t. t * b) (div-add-mod p x)) in
    rw e (dvd-mul_left p b))

-- Euclid's lemma, by descent on the remainders of `p` by `x`
euclid : (fuel p x b : ℕ) → IsPrime p → x ≤ fuel → 0 < x → x < p → p ∣ x * b → p ∣ b
euclid zero p x b prime f pos lt h = absurd (omega arith)
euclid (suc fuel) p x b prime f pos lt h = elim (dec_lt 1 x) [
  | no one ↦ let e : x * b ≡ b = let e' : x ≡ 1 = omega arith in rw e' (omega arith) in rw e at h
  | yes more ↦
      let small : p % x < x = mod-lt p pos in
      euclid fuel p (p % x) b prime (omega arith) (pos_of_ne (p % x) (prime.no_divisor x more lt))
        (omega arith) (remainder_divides p x b h)
]

-- a product of two numbers below a prime is no multiple of it
pub product_of_small : (p x y : ℕ) → IsPrime p → 0 < x → x < p → 0 < y → y < p → (x * y) % p ≢ 0
product_of_small p x y prime px lx py ly e =
    let d = euclid x p x y prime (le_refl x) px lx (dvd_of_mod-eq-zero p e) in
    omega (arith, le_of_dvd py d)

abbrev pub AllPrime : List ℕ → Type 0
AllPrime [] = Unit
AllPrime (p ∷ ps) = IsPrime p × AllPrime ps

-- one trial division for each number, with the bound to divide up to
trials : List ℕ → List ℕ → Bool
trials [] ks = true
trials (p ∷ ps) [] = false
trials (p ∷ ps) (k ∷ ks) = ltb 1 p && trial p k && ltb p ((k + 2) * (k + 2)) && trials ps ks

AllPrime-of_trials : (ps ks : List ℕ) → trials ps ks ≡ true → AllPrime ps
unfolding trials
AllPrime-of_trials [] ks t = tt
AllPrime-of_trials (p ∷ ps) [] t = cc
AllPrime-of_trials (p ∷ ps) (k ∷ ks) t =
    let parts : (1 < p) × (trial p k ≡ true) × (p < (k + 2) * (k + 2)) × (trials ps ks ≡ true) =
      ground arith in
    (IsPrime-of_trial p k parts.0 parts.1 parts.2, AllPrime-of_trials ps ks parts.3)

sizes-trials :
    trials sizes (
      2 ∷ 4 ∷ 6 ∷ 10 ∷ 14 ∷ 21 ∷ 30 ∷ 44 ∷ 62 ∷ 89 ∷ 126 ∷ 179 ∷ 254 ∷ 361 ∷ 510 ∷ 723 ∷ 1022 ∷ 1447
      ∷ 2046 ∷ 2895 ∷ 4094 ∷ 5791 ∷ 8190 ∷ 11584 ∷ 16382 ∷ 23169 ∷ 32766 ∷ [])
    ≡ true
unfolding trials trial
sizes-trials = refl

pub sizes-AllPrime : AllPrime sizes
sizes-AllPrime = AllPrime-of_trials sizes _ sizes-trials
