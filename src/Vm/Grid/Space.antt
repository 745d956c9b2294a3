-- ===== src/Vm/Grid/Space.antt =====
-- Array3: the places of the elements, the first coordinate the fastest.
use native.Mathlib.Nat as Nat
use ripe.Prelude.{
  ℕ, zero, suc, ◌+◌, ◌*◌, ◌/◌, ◌%◌, ◌^◌, ◌<◌, ◌≡◌, ◌≢◌, ◌⊎◌, refl, sym, ap, ◌∙◌, arith, Bool, false,
  inl, inr, dec_lt, ltb, leb, ◌&&◌,
}
use ripe.Prelude.Outcome.{ok, stop, raised}
use ripe.Vm.Grid.{Array3, array3_index}
use ripe.Vm.Grid.Plane.{digits-lt, digits-div, digits-mod}

place_lem : (n m i j k : ℕ) → i + j * n + k * n * m ≡ i + (j + k * m) * n
place_lem n m i j k = omega (arith, Nat.add-mul j (k * m) n, Nat.mul_right_comm k n m)

volume : (n m l : ℕ) → l * m * n ≡ n * m * l
volume n m l =
    ap (λ t. t * n) (Nat.mul_comm l m) ∙ Nat.mul_comm (m * l) n ∙ sym (Nat.mul_assoc n m l)

abbrev inside : ℕ → ℕ → Bool
inside n x = ltb 0 x && leb x n

module _ (n m l : ℕ) where
  abbrev pub grid : Array3
  grid = record { size_x = n; size_y = m; size_z = l }

  index_inside :
      (i j k : ℕ)
      → i + j * n + k * n * m < 2 ^ 64
      → i < n
      → j < m
      → k < l
      → array3_index grid (suc i) (suc j) (suc k) ≡ ok (i + j * n + k * n * m)
  unfolding array3_index
  index_inside i j k small li lj lk = ground arith

  raised_beyond :
      (x y z : ℕ)
      → (inside n x ≡ false) ⊎ (inside m y ≡ false) ⊎ (inside l z ≡ false)
      → array3_index grid x y z ≡ stop raised
  unfolding array3_index
  raised_beyond x y z h = ground arith

  place-lt : (i j k : ℕ) → i < n → j < m → k < l → i + j * n + k * n * m < n * m * l
  place-lt i j k li lj lk =
      rw (place_lem n m i j k, sym (volume n m l))
        (digits-lt (l * m) n (j + k * m) i (digits-lt l m k j lk lj) li)

  place-digits :
      (i j k : ℕ)
      → i < n
      → j < m
      → ((i + j * n + k * n * m) % n ≡ i)
        × ((i + j * n + k * n * m) / n % m ≡ j)
        × ((i + j * n + k * n * m) / n / m ≡ k)
  place-digits i j k li lj =
      let above : (i + (j + k * m) * n) / n ≡ j + k * m = digits-div n (j + k * m) i li in
      rw (place_lem n m i j k, above)
        (digits-mod n (j + k * m) i li, digits-mod m k j lj, digits-div m k j lj)

  coordinate : (w x : ℕ) → ((i : ℕ) × (i < w) × (x ≡ suc i)) ⊎ (inside w x ≡ false)
  coordinate w zero = inr refl
  coordinate w (suc i) = elim (dec_lt i w) [
    | yes lt ↦ inl (i, lt, refl)
    | no ge ↦ inr (ground arith)
  ]

  -- In an Array3 of n by m by l elements, fewer than 2 ^ 64, array3_index takes the coordinates i + 1,
  -- j + 1 and k + 1 to a place below n * m * l from which they come back by division: i varies
  -- fastest, then j, then k. For all other coordinates it raises.
  pub array3_index_lem :
      (x y z : ℕ)
      → n * m * l < 2 ^ 64
      → ((i j k : ℕ)
          → i < n
          → j < m
          → k < l
          → (place : ℕ) × (array3_index grid (suc i) (suc j) (suc k) ≡ ok place)
            × (place < n * m * l)
            × (place % n ≡ i)
            × (place / n % m ≡ j)
            × (place / n / m ≡ k))
        × (((i j k : ℕ) → i < n → j < m → k < l → x ≡ suc i → y ≡ suc j → z ≢ suc k)
            → array3_index grid x y z ≡ stop raised)
  array3_index_lem x y z size = (
    λ i j k li lj lk.
        let lt = place-lt i j k li lj lk in
        let (a, b, c) = place-digits i j k li lj in
        (i + j * n + k * n * m, index_inside i j k (omega arith) li lj lk, lt, a, b, c),
    λ bad. elim (coordinate n x) [
      | inr e ↦ raised_beyond x y z (inl e)
      | inl (i, li, ex) ↦ elim (coordinate m y) [
        | inr e ↦ raised_beyond x y z (inr (inl e))
        | inl (j, lj, ey) ↦ elim (coordinate l z) [
          | inr e ↦ raised_beyond x y z (inr (inr e))
          | inl (k, lk, ez) ↦ absurd (bad i j k li lj lk ex ey ez)
        ]
      ]
    ],
  )
