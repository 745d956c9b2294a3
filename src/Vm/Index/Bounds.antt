-- ===== src/Vm/Index/Bounds.antt =====
-- The element that an index names, and what util_index returns.
use ripe.Prelude.{ℕ, zero, suc, ◌-◌, ◌^◌, ◌<◌, ◌≡◌, ◌⊎◌, inl, inr, refl, arith, ap, dec_lt}
use ripe.Prelude.Int.{ℤ, pos, negsuc}
use ripe.Prelude.Outcome.{ok, stop, raised}
use ripe.Vm.Index.{util_index}

forward : (n k : ℕ) → n < 2 ^ 63 → k < n → util_index (pos (suc k)) (pos n) ≡ ok (pos k)
unfolding util_index
forward n k most lt = ground arith

backward : (n k : ℕ) → n < 2 ^ 63 → k < n → util_index (negsuc k) (pos n) ≡ ok (pos (n - 1 - k))
unfolding util_index
backward n k most lt = ground arith

-- `k` is the C index of the element that `idx` names in an array of `n`
abbrev pub Names : ℕ → ℤ → ℕ → Type 0
Names n idx k = (k < n) × ((idx ≡ pos (suc k)) ⊎ (idx ≡ negsuc (n - 1 - k)))

named : (n k : ℕ) (idx : ℤ) → n < 2 ^ 63 → Names n idx k → util_index idx (pos n) ≡ ok (pos k)
named n k idx most (lt, inl e) = rw e (forward n k most lt)
named n k idx most (lt, inr e) =
    let back : n - 1 - (n - 1 - k) ≡ k = omega arith in
    rw (e, backward n (n - 1 - k) most (omega arith), back) refl

-- the index names no element, or one
pub data Case (n : ℕ) (idx : ℤ) : Type 0 where
  outside : util_index idx (pos n) ≡ stop raised → Case n idx
  inside : (k : ℕ) → Names n idx k → Case n idx

util_index-Case : (n : ℕ) (idx : ℤ) → n < 2 ^ 63 → Case n idx
unfolding util_index
util_index-Case n (pos zero) most = outside refl
util_index-Case n (pos (suc k)) most = elim (dec_lt k n) [
  | yes lt ↦ inside k (lt, inl refl)
  | no ge ↦ outside (ground arith)
]
util_index-Case n (negsuc k) most = elim (dec_lt k n) [
  | yes lt ↦ inside (n - 1 - k) (omega arith, inr (ap negsuc (omega arith)))
  | no ge ↦ outside (ground arith)
]

-- In an array of n elements, util_index returns k for the index k + 1 and for the index that counts
-- to the same element from -1 backwards, for each k below n, and raises for all other indices.
pub util_index_lem :
    (n : ℕ) (idx : ℤ)
    → n < 2 ^ 63
    → ((k : ℕ) → Names n idx k → util_index idx (pos n) ≡ ok (pos k))
      × (((k : ℕ) → ¬ (Names n idx k)) → util_index idx (pos n) ≡ stop raised)
util_index_lem n idx most = (
  λ k names. named n k idx most names,
  λ none_named. elim (util_index-Case n idx most) [
    | outside e ↦ e
    | inside k names ↦ absurd (none_named k names)
  ],
)

-- a case with what it says of `util_index`
pub util_index-cases :
    (n : ℕ) (idx : ℤ)
    → n < 2 ^ 63
    → ((util_index idx (pos n) ≡ stop raised) × ((k : ℕ) → ¬ (Names n idx k)))
      ⊎ ((k : ℕ) × (util_index idx (pos n) ≡ ok (pos k)) × Names n idx k)
util_index-cases n idx most = elim (util_index-Case n idx most) [
  | outside e ↦ inl (e, λ k names. let e' = named n k idx most names in cc)
  | inside k names ↦ inr (k, named n k idx most names, names)
]
