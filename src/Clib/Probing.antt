-- ===== src/Clib/Probing.antt =====
-- The quadratic probes of the hash tables of clib/dict.c and vm/builtin/HashTable.c: in bounds, and
-- different from one another up to half of the table. `Count` counts the full buckets.
pub mod Count
use native.Mathlib.Nat
use native.Mathlib.Nat.{mod-lt}
use ripe.Prelude.{ℕ, ◌+◌, ◌*◌, ◌/◌, ◌%◌, ◌^◌, ◌≤◌, ◌<◌, ◌≡◌, ◌≢◌, ◌∙◌, sym, ap, Bool, true, arith}
use ripe.Clib.Primes.Prime.{IsPrime}
use ripe.Clib.Primes.Residues.{squares_differ}
use ripe.Clib.Probing.Count.{count, pigeonhole}

-- the place of probe `idx`, `(h + idx*idx) % size`
unfoldable pub probe : ℕ → ℕ → ℕ → ℕ
probe h size idx = (h + idx * idx % 2 ^ 64) % 2 ^ 64 % size

pub probe-lt : (h n idx : ℕ) → 0 < n → probe h n idx < n
unfolding probe
probe-lt h n idx pos = mod-lt _ pos

-- No sum of the probing wraps, in a table of up to 2 ^ 30 buckets.
abbrev pub NoWrap : ℕ → Type 0
NoWrap h = h + 2 ^ 60 ≤ 2 ^ 64

square-le : (n idx : ℕ) → n ≤ 2 ^ 30 → idx < n → idx * idx ≤ 1073741823 * 1073741823
square-le n idx le lt =
    Nat.mul-le-mul {n₁ = idx} {m₁ = idx} {n₂ = 1073741823} {m₂ = 1073741823} (omega arith)
      (omega arith)

pub probe_lem :
    (h n idx : ℕ) → n ≤ 2 ^ 30 → NoWrap h → idx < n → probe h n idx ≡ (h + idx * idx) % n
unfolding probe
probe_lem h n idx le fits lt = ap (λ t. t % n) (omega (arith, square-le n idx le lt))

pub probe_differ :
    (h n i j : ℕ)
    → IsPrime n
    → n ≤ 2 ^ 30
    → NoWrap h
    → i < j
    → i + j < n
    → probe h n i ≢ probe h n j
probe_differ h n i j prime le fits lt sum e =
    squares_differ n h i j prime lt sum
      (sym (probe_lem h n i le fits (omega arith)) ∙ e ∙ probe_lem h n j le fits (omega arith))

-- If the probes of a key that do not wrap all hit full buckets, at least half the table is full.
pub half_full :
    (h n : ℕ) (full? : ℕ → Bool)
    → IsPrime n
    → n ≤ 2 ^ 30
    → NoWrap h
    → ((j : ℕ) → j < n → full? (probe h n j) ≡ true)
    → n ≤ 2 * count full? 0 n
half_full h n full? prime le fits all =
    let half : (n + 1) / 2 ≤ count full? 0 n =
      pigeonhole ((n + 1) / 2) n (probe h n) full? (λ j lt. probe-lt h n j (omega arith))
        (λ j lt. all j (omega arith))
        (λ i j lt lt'. probe_differ h n i j prime le fits lt (omega arith)) in
    omega arith
