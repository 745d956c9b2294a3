-- ===== src/Clib/Primes/Choice.antt =====
-- What `map_prime` returns.
use ripe.Prelude.{
  zero, suc, ltb→lt, ltb→le, le→ltb, ℕ, ◌≤◌, ◌<◌, ◌≡◌, refl, ◌⊎◌, inl, inr, List, [], ◌∷◌, arith,
  Bool-cases, take,
}
use ripe.Prelude.Int.{ℤ, pos, ltb_ℤ, ◌<ℤ◌, ◌≤ℤ◌}
use ripe.Prelude.Outcome.{stop, assertion, Returns}
use ripe.Clib.Primes.{sizes, first_above, map_prime}
use ripe.Clib.Primes.Prime.{IsPrime, AllPrime, sizes-AllPrime}

abbrev pub In : ℕ → List ℕ → Type 0
In q [] = ⊥
In q (p ∷ ps) = (q ≡ p) ⊎ In q ps

abbrev Ascending : ℕ → List ℕ → Type 0
Ascending lo [] = Unit
Ascending lo (p ∷ ps) = (lo < p) × Ascending p ps

-- `p` is the least entry of `table` above `n`, and a prime
pub record IsChosen (n : ℤ) (table : List ℕ) (p : ℕ) : Type 0 where
  pub above : n <ℤ pos p
  pub entry : In p table
  pub least : (q : ℕ) → In q table → n <ℤ pos q → p ≤ q
  pub prime : IsPrime p

Ascending-lt : (lo q : ℕ) (ps : List ℕ) → Ascending lo ps → In q ps → lo < q
Ascending-lt lo q [] a m = absurd m
Ascending-lt lo q (p ∷ ps) a (inl e) = omega arith
Ascending-lt lo q (p ∷ ps) a (inr m) = omega (arith, Ascending-lt p q ps a.1 m)

Ascending-le : (lo p q : ℕ) (ps : List ℕ) → Ascending lo (p ∷ ps) → In q (p ∷ ps) → p ≤ q
Ascending-le lo p q ps a (inl e) = omega arith
Ascending-le lo p q ps a (inr m) = omega (arith, Ascending-lt p q ps a.1 m)

IsChosen-cons :
    (n : ℤ) (p r : ℕ) (ps : List ℕ) → pos p ≤ℤ n → IsChosen n ps r → IsChosen n (p ∷ ps) r
IsChosen-cons n p r ps under c = record {
  above = c.above;
  entry = inr c.entry;
  least = go;
  prime = c.prime;
}
  where
    go : (q : ℕ) → In q (p ∷ ps) → n <ℤ pos q → r ≤ q
    go q (inl e) lt = absurd (omega arith)
    go q (inr m) lt = c.least q m lt

In-tail : (n : ℤ) (p q : ℕ) (ps : List ℕ) → In q (p ∷ ps) → pos p ≤ℤ n → n <ℤ pos q → In q ps
In-tail n p q ps (inl e) under below = absurd (omega arith)
In-tail n p q ps (inr m) under below = m

first_above-IsChosen :
    (n : ℤ) (lo top : ℕ) (ps : List ℕ)
    → AllPrime ps
    → Ascending lo ps
    → In top ps
    → n <ℤ pos top
    → Returns (first_above n ps) (IsChosen n ps)
unfolding first_above
first_above-IsChosen n lo top [] primes up m below = absurd m
first_above-IsChosen n lo top (p ∷ ps) primes up m below = elim (Bool-cases (ltb_ℤ n (pos p))) [
  | inl t ↦ (
    p,
    rw t,
    record {
      above = ltb→lt _ _ t;
      entry = inl refl;
      least = λ q q_in _. Ascending-le lo p q ps up q_in;
      prime = primes.0;
    },
  )
  | inr f ↦
      let under : pos p ≤ℤ n = ltb→le _ _ f in
      let (r, run, c) =
        first_above-IsChosen n p top ps primes.1 up.1 (In-tail n p top ps m under below) below in
      (r, rw f run, IsChosen-cons n p r ps under c)
]

first_above-none :
    (n : ℤ) (lo top : ℕ) (ps : List ℕ)
    → ((q : ℕ) → In q ps → pos q ≤ℤ n)
    → first_above n ps ≡ stop assertion
unfolding first_above
first_above-none n lo top [] h = refl
first_above-none n lo top (p ∷ ps) h =
    rw (le→ltb _ _ (h p (inl refl))) (first_above-none n lo top ps (λ q m. h q (inr m)))

AllPrime-take : (k : ℕ) (ps : List ℕ) → AllPrime ps → AllPrime (take k ps)
AllPrime-take zero ps h = tt
AllPrime-take (suc k) [] h = tt
AllPrime-take (suc k) (p ∷ ps) h = (h.0, AllPrime-take k ps h.1)

abbrev pub used_sizes : List ℕ
used_sizes = take 26 sizes

ascending : Ascending 12 used_sizes
ascending = omega arith

last_used : In 536870909 used_sizes
last_used = grind arith

pub used_sizes-le : (q : ℕ) → In q used_sizes → q ≤ 536870909
used_sizes-le q m = grind arith

pub used_sizes-ge : (q : ℕ) → In q used_sizes → 13 ≤ q
used_sizes-ge q m = Ascending-lt 12 q used_sizes ascending m

-- Below the last entry but one, map_prime returns the least entry of its table above the argument
-- (the table less its last entry), which is a prime; from there on its assertion fails.
pub map_prime_lem :
    (n : ℤ)
    → (n <ℤ pos 536870909 → Returns (map_prime n) (IsChosen n used_sizes))
      × (pos 536870909 ≤ℤ n → map_prime n ≡ stop assertion)
unfolding map_prime
map_prime_lem n = (
  λ below.
      first_above-IsChosen n 12 536870909 used_sizes (AllPrime-take 26 sizes sizes-AllPrime)
        ascending last_used below,
  λ above. first_above-none n 12 536870909 used_sizes (λ q m. omega (arith, used_sizes-le q m)),
)
