-- ===== src/Clib/Probing/Count.antt =====
-- Counting the full buckets of a table, and the pigeonhole principle for probes.
use native.Mathlib.Nat.{add-zero}
use ripe.Prelude.{
  ℕ, zero, suc, ◌+◌, ◌≤◌, ◌<◌, ◌≡◌, refl, ◌≢◌, Bool, true, false, arith, if◌then◌else◌, ◌==◌, ◌&&◌,
  not, ℕ_discrete, ==→eq, ==_self,
}

-- the number of places from `i` to `i + r - 1` that pass the test
pub count : (ℕ → Bool) → ℕ → ℕ → ℕ
count f i zero = 0
count f i (suc r) = (if f i then 1 else 0) + count f (i + 1) r

pub count_congr :
    (f g : ℕ → Bool) (i r : ℕ)
    → ((j : ℕ) → i ≤ j → j < i + r → f j ≡ g j)
    → count f i r ≡ count g i r
unfolding count
count_congr f g i zero h = refl
count_congr f g i (suc r) h = ground (
  arith,
  h i (omega arith) (omega arith),
  count_congr f g (i + 1) r (λ j lo hi. h j (omega arith) (omega arith)),
)

pub count-le : (f : ℕ → Bool) (i r : ℕ) → count f i r ≤ r
unfolding count
count-le f i zero = omega arith
count-le f i (suc r) = ground (arith, count-le f (i + 1) r)

pub count-none : (f : ℕ → Bool) (i r : ℕ) → ((j : ℕ) → f j ≡ false) → count f i r ≡ 0
unfolding count
count-none f i zero h = refl
count-none f i (suc r) h = ground (arith, h i, count-none f (i + 1) r h)

-- the places before `i`, and place `i`
pub count-suc :
    (f : ℕ → Bool) (i r : ℕ) → count f i (suc r) ≡ count f i r + (if f (i + r) then 1 else 0)
unfolding count
count-suc f i zero = rw (add-zero i) (omega arith)
count-suc f i (suc r) =
    let e : i + 1 + r ≡ i + suc r = omega arith in
    let rest = rw e at (count-suc f (i + 1) r) in omega (arith, rest)

pub count-add_one :
    (f : ℕ → Bool) (i : ℕ) → count f 0 (i + 1) ≡ count f 0 i + (if f i then 1 else 0)
count-add_one f i =
    let e : i + 1 ≡ suc i = omega arith in
    let z : 0 + i ≡ i = omega arith in rw e (rw z at (count-suc f 0 i))

pub count_mono : (f : ℕ → Bool) (i r s : ℕ) → r ≤ s → count f i r ≤ count f i s
unfolding count
count_mono f i zero s le = omega arith
count_mono f i (suc r) zero le = absurd (omega arith)
count_mono f i (suc r) (suc s) le = omega (arith, count_mono f (i + 1) r s (omega arith))

-- one place more passes
pub count_update :
    (f g : ℕ → Bool) (x i r : ℕ)
    → f x ≡ false
    → g x ≡ true
    → ((j : ℕ) → j ≢ x → f j ≡ g j)
    → i ≤ x
    → x < i + r
    → count g i r ≡ count f i r + 1
unfolding count
count_update f g x i zero fx gx h lo hi = absurd (omega arith)
count_update f g x i (suc r) fx gx h lo hi = elim (ℕ_discrete i x) [
  | yes e ↦
      let rest = count_congr f g (i + 1) r (λ j lo' hi'. h j (λ e'. omega arith)) in
      let fi : f i ≡ false = rw e fx in let gi : g i ≡ true = rw e gx in ground arith
  | no ne ↦ ground (arith, h i ne, count_update f g x (i + 1) r fx gx h (omega arith) (omega arith))
]

-- Pigeonhole: different places that pass are no more than all that pass.
pub pigeonhole :
    (m n : ℕ) (place : ℕ → ℕ) (f : ℕ → Bool)
    → ((j : ℕ) → j < m → place j < n)
    → ((j : ℕ) → j < m → f (place j) ≡ true)
    → ((i j : ℕ) → i < j → j < m → place i ≢ place j)
    → m ≤ count f 0 n
pigeonhole zero n place f bound pass apart = omega arith
pigeonhole (suc m) n place f bound pass apart = omega (
  arith,
  count_update rest f (place m) 0 n (ground (arith, ==_self (place m))) (pass m (omega arith))
      (λ j ne. ground (arith, ==→eq j (place m))) (omega arith)
      (omega (arith, bound m (omega arith))),
  pigeonhole m n place rest (λ j lt. bound j (omega arith))
      (λ j lt. ground (arith, pass j (omega arith), apart j m lt (omega arith)))
      (λ i j lt lt'. apart i j lt (omega arith)),
)
  where
    rest : ℕ → Bool
    rest j = f j && not (j == place m)
