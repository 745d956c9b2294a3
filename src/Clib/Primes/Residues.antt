-- ===== src/Clib/Primes/Residues.antt =====
-- Quadratic probing reaches (p + 1) / 2 different buckets of a table whose size p is a prime.
use native.Mathlib.Nat.{div-add-mod, mul-sub, mul-mod_right}
use ripe.Prelude.{ℕ, ◌+◌, ◌-◌, ◌*◌, ◌/◌, ◌%◌, ◌<◌, ◌≡◌, ◌≢◌, ◌∙◌, arith, ap}
use ripe.Clib.Primes.Prime.{IsPrime, product_of_small}

mod_of_multiple : (p d t : ℕ) → d ≡ p * t → d % p ≡ 0
mod_of_multiple p d t e = rw e (mul-mod_right p t)

mod_of_difference : (p a d : ℕ) → a % p ≡ (a + d) % p → d % p ≡ 0
mod_of_difference p a d e =
    mod_of_multiple p d ((a + d) / p - a / p)
      (omega (arith, div-add-mod a p, div-add-mod (a + d) p, mul-sub p ((a + d) / p) (a / p)))

squares_apart :
    (p h i d : ℕ)
    → IsPrime p
    → 0 < d
    → d + i + i < p
    → (h + i * i) % p ≢ (h + (i + d) * (i + d)) % p
squares_apart p h i d prime pos sum e =
    product_of_small p d (d + i + i) prime pos (omega arith) (omega arith) sum
      (mod_of_difference p (h + i * i) (d * (d + i + i)) (e ∙ ap (λ t. t % p) (omega arith)))

-- the squares of two numbers whose sum is below a prime leave different remainders, from any start
pub squares_differ :
    (p h i j : ℕ) → IsPrime p → i < j → i + j < p → (h + i * i) % p ≢ (h + j * j) % p
squares_differ p h i j prime lt sum e =
    let split : j ≡ i + (j - i) = omega arith in
    squares_apart p h i (j - i) prime (omega arith) (omega arith)
      (e ∙ ap (λ t. (h + t * t) % p) split)
