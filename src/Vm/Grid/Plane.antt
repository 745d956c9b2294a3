-- ===== src/Vm/Grid/Plane.antt =====
-- Array2: the places of the elements, row by row.
use native.Mathlib.Nat as Nat
use ripe.Prelude.{
  ℕ, zero, suc, ◌+◌, ◌*◌, ◌/◌, ◌%◌, ◌^◌, ◌<◌, ◌≡◌, ◌≢◌, ◌⊎◌, refl, ◌∙◌, arith, Bool, false, inl,
  inr, dec_lt, ◌&&◌, not,
}
use ripe.Prelude.Int.{ℤ, pos, negsuc, ltb_ℤ, of_word}
use ripe.Prelude.Outcome.{ok, stop, raised}
use ripe.Vm.Grid.{array2_index}

-- two digits, the lower of them below `m`
pub digits-lt : (n m i j : ℕ) → i < n → j < m → j + i * m < n * m
digits-lt n m i j li lj =
    let h = Nat.mul-le-mul {n₁ = suc i} {m₁ = m} {n₂ = n} {m₂ = m} (omega arith) (omega arith) in
    omega (arith, h, Nat.suc-mul i m)

pub digits-div : (m i j : ℕ) → j < m → (j + i * m) / m ≡ i
digits-div m i j lt =
    omega (arith, Nat.add-mul-div_right j i {z = m} (omega arith), Nat.div-eq_of_lt lt)

pub digits-mod : (m i j : ℕ) → j < m → (j + i * m) % m ≡ j
digits-mod m i j lt = Nat.add-mul-mod_self_right j i m ∙ Nat.mod-eq_of_lt lt

index_inside :
    (n m i j : ℕ)
    → n < 2 ^ 63
    → m < 2 ^ 63
    → n * m < 2 ^ 63
    → i < n
    → j < m
    → array2_index (record { size_x = n; size_y = m }) (pos (suc i)) (pos (suc j))
      ≡ ok (pos (j + i * m))
unfolding array2_index
index_inside n m i j ln lm size li lj = let h = digits-lt n m i j li lj in ground arith

-- a coordinate inside 1 to `n`, or not
data Coordinate (n : ℕ) (x : ℤ) : Type 0 where
  within : (i : ℕ) → i < n → x ≡ pos (suc i) → Coordinate n x
  beyond : ltb_ℤ (pos 0) x && not (ltb_ℤ (of_word n) x) ≡ false → Coordinate n x

coordinate : (n : ℕ) (x : ℤ) → n < 2 ^ 63 → Coordinate n x
coordinate n (pos zero) h = beyond refl
coordinate n (negsuc i) h = beyond (ground arith)
coordinate n (pos (suc i)) h = elim (dec_lt i n) [
  | yes lt ↦ within i lt refl
  | no ge ↦ beyond (ground arith)
]

and_beyond : (a b c d : Bool) → (a && b ≡ false) ⊎ (c && d ≡ false) → a && b && c && d ≡ false
and_beyond a b c d h = ground arith

raised_beyond :
    (n m : ℕ) (x y : ℤ)
    → (ltb_ℤ (pos 0) x && not (ltb_ℤ (of_word n) x) ≡ false)
      ⊎ (ltb_ℤ (pos 0) y && not (ltb_ℤ (of_word m) y) ≡ false)
    → array2_index (record { size_x = n; size_y = m }) x y ≡ stop raised
unfolding array2_index
raised_beyond n m x y h = rw (and_beyond _ _ _ _ h) refl

-- In an Array2 of n by m elements, fewer than 2 ^ 63, array2_index takes the coordinates i + 1 and
-- j + 1 to a place below n * m from which i and j come back as quotient and remainder by m; for all
-- other coordinates it raises.
pub array2_index_lem :
    (n m : ℕ) (x y : ℤ)
    → n < 2 ^ 63
    → m < 2 ^ 63
    → n * m < 2 ^ 63
    → ((i j : ℕ)
        → i < n
        → j < m
        → (place : ℕ) × (array2_index
              (record { size_x = n; size_y = m })
              (pos (suc i))
              (pos (suc j))
            ≡ ok (pos place))
          × (place < n * m)
          × (place / m ≡ i)
          × (place % m ≡ j))
      × (((i j : ℕ) → i < n → j < m → x ≡ pos (suc i) → y ≢ pos (suc j))
          → array2_index (record { size_x = n; size_y = m }) x y ≡ stop raised)
array2_index_lem n m x y ln lm size = (
  λ i j li lj. (
    j + i * m,
    index_inside n m i j ln lm size li lj,
    digits-lt n m i j li lj,
    digits-div m i j lj,
    digits-mod m i j lj,
  ),
  λ bad. elim (coordinate n x ln) [
    | beyond e ↦ raised_beyond n m x y (inl e)
    | within i li ex ↦ elim (coordinate m y lm) [
      | beyond e ↦ raised_beyond n m x y (inr e)
      | within j lj ey ↦ absurd (bad i j li lj ex ey)
    ]
  ],
)
