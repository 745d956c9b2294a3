-- ===== src/Vm/Power/Squares.antt =====
-- The repeated squaring of ipow against the power.
use native.Mathlib.Nat as Nat
use ripe.Prelude.{
  ℕ, zero, suc, ◌+◌, ◌*◌, ◌/◌, ◌%◌, ◌^◌, ◌<◌, ◌≡◌, refl, sym, ap, ◌∙◌, arith, Bool-cases, inl, inr,
  ◌==◌, ==→eq,
}
use ripe.Prelude.Int.{ℤ, to_word}
use ripe.Vm.Power.{ipow_from, ipow, of_int}

reduce : (m x y : ℕ) → x * y % m ≡ x % m * y % m
reduce m x y =
    let split : x * y ≡ x % m * y + m * (x / m * y) =
      ap (λ t. t * y) (sym (Nat.mod-add-div x m))
      ∙ Nat.add-mul (x % m) (m * (x / m)) y
      ∙ ap (λ t. x % m * y + t) (Nat.mul_assoc m (x / m) y) in
    ap (λ t. t % m) split ∙ Nat.add-mul-mod_self_left (x % m * y) m (x / m * y)

mul_congr_left : (m x x' y : ℕ) → x % m ≡ x' % m → x * y % m ≡ x' * y % m
mul_congr_left m x x' y e = reduce m x y ∙ ap (λ t. t * y % m) e ∙ sym (reduce m x' y)

mul_congr : (m x x' y y' : ℕ) → x % m ≡ x' % m → y % m ≡ y' % m → x * y % m ≡ x' * y' % m
mul_congr m x x' y y' e e' =
    mul_congr_left m x x' y e
    ∙ ap (λ t. t % m) (Nat.mul_comm x' y)
    ∙ mul_congr_left m y y' x' e'
    ∙ ap (λ t. t % m) (Nat.mul_comm y' x')

pow_congr : (m x x' k : ℕ) → x % m ≡ x' % m → x ^ k % m ≡ x' ^ k % m
pow_congr m x x' zero e = rw (Nat.pow-zero x, Nat.pow-zero x') refl
pow_congr m x x' (suc k) e =
    rw (Nat.pow-suc x k, Nat.pow-suc x' k)
      (mul_congr m (x ^ k) (x' ^ k) x x' (pow_congr m x x' k e) e)

pow_square : (b k : ℕ) → (b * b) ^ k ≡ b ^ (k * 2)
pow_square b zero = rw (Nat.pow-zero (b * b), Nat.pow-zero b) refl
pow_square b (suc k) =
    let double : suc k * 2 ≡ suc (suc (k * 2)) = omega arith in
    rw
      (
        double,
        Nat.pow-suc (b * b) k,
        Nat.pow-suc b (suc (k * 2)),
        Nat.pow-suc b (k * 2),
        pow_square b k,
      )
      (sym (Nat.mul_assoc (b ^ (k * 2)) b b))

squared : (b k : ℕ) → (b * b % 2 ^ 64) ^ k % 2 ^ 32 ≡ b ^ (k * 2) % 2 ^ 32
squared b k =
    pow_congr (2 ^ 32) (b * b % 2 ^ 64) (b * b) k (omega arith)
    ∙ ap (λ t. t % 2 ^ 32) (pow_square b k)

odd_step :
    (out b k e : ℕ)
    → e ≡ suc (k * 2)
    → out * b % 2 ^ 32 * b ^ (k * 2) % 2 ^ 32 ≡ out * b ^ e % 2 ^ 32
odd_step out b k e h =
    sym (reduce (2 ^ 32) (out * b) (b ^ (k * 2)))
    ∙ ap (λ t. t % 2 ^ 32)
        (Nat.mul_assoc out b (b ^ (k * 2))
          ∙ ap (λ t. out * t)
              (Nat.mul_comm b (b ^ (k * 2))
                ∙ sym (Nat.pow-suc b (k * 2))
                ∙ ap (λ t. b ^ t) (sym h)))

ipow_from-pow :
    (rounds out b e : ℕ)
    → e < 2 ^ rounds
    → out < 2 ^ 32
    → ipow_from rounds out b e ≡ out * b ^ e % 2 ^ 32
unfolding ipow_from
ipow_from-pow zero out b e few small =
    let none_left : e ≡ 0 = omega arith in rw (none_left, Nat.pow-zero b) (omega arith)
ipow_from-pow (suc rounds) out b e few small = elim (Bool-cases (e == 0)) [
  | inl z ↦ rw z (rw (==→eq e 0 z, Nat.pow-zero b) (omega arith))
  | inr n ↦
      let half : e / 2 < 2 ^ rounds = let p = Nat.pow-suc 2 rounds in omega arith in
      elim (Bool-cases (e % 2 == 1)) [
        | inl odd ↦
            rw (n, odd)
              (ipow_from-pow rounds (out * b % 2 ^ 32) (b * b % 2 ^ 64) (e / 2) half (omega arith)
                ∙ mul_congr (2 ^ 32) (out * b % 2 ^ 32) (out * b % 2 ^ 32) _ _ refl
                    (squared b (e / 2))
                ∙ odd_step out b (e / 2) e (omega (arith, ==→eq (e % 2) 1 odd)))
        | inr even ↦
            let twice : e / 2 * 2 ≡ e = ground arith in
            rw (n, even)
              (ipow_from-pow rounds out (b * b % 2 ^ 64) (e / 2) half small
                ∙ mul_congr (2 ^ 32) out out _ _ refl (squared b (e / 2))
                ∙ ap (λ t. out * b ^ t % 2 ^ 32) twice)
      ]
]

-- For an exponent below 2 ^ 64, ipow returns the power of the base's word modulo 2 ^ 32, taken as an
-- int, although an Integer has 62 bits.
pub ipow_lem : (b : ℤ) (e : ℕ) → e < 2 ^ 64 → ipow b e ≡ of_int (to_word b ^ e % 2 ^ 32)
unfolding ipow
ipow_lem b e few = ap of_int (
    ipow_from-pow 64 1 (to_word b) e few (omega arith)
    ∙ ap (λ t. t % 2 ^ 32) (Nat.one-mul (to_word b ^ e)))
