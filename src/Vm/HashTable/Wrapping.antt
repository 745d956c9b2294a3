-- ===== src/Vm/HashTable/Wrapping.antt =====
-- The probes of a key whose hash is the largest uint64.
use ripe.Prelude.{
  ℕ, zero, suc, ◌+◌, ◌-◌, ◌^◌, ◌≤◌, ◌<◌, ◌≡◌, refl, Bool, true, false, ◌||◌, List, arith, none,
  length, ◌==◌,
}
use ripe.Prelude.Bits.{holds_below, holds_below_lem}
use ripe.Prelude.Outcome.{stop, assertion, at-get_or}
use ripe.Vm.Key.{Key}
use ripe.Vm.HashTable.{Bucket, empty, full, exhausted, query_from, query}
use ripe.Vm.HashTable.Query.{bucket_at, key_at}
use ripe.Clib.Probing.{probe, probe-lt}

-- the six places out of 13 that the probes from 2 ^ 64 - 1 reach
abbrev pub is_hit : ℕ → Bool
is_hit i = i == 0 || (i == 2 || (i == 3 || (i == 8 || (i == 9 || i == 11))))

hits : holds_below 13 (λ j. is_hit (probe (2 ^ 64 - 1) 13 j)) ≡ true
unfolding holds_below probe
hits = refl

module _ {ℓ} {K : Type ℓ} ⦃key : Key K⦄ (bs : List Bucket) (ks : List K) (k : K) (n : ℕ)
    (pos : 0 < n) (width_buckets : n ≤ length bs) (width_keys : n ≤ length ks) where
  exhausts :
      (rounds idx : ℕ)
      → ((j : ℕ)
          → j < rounds + idx
          → let place = probe (key.hash k) n j in
            (bucket_at bs place ≡ full) × (key.equal k (key_at ks place) ≡ false))
      → query_from bs ks n k rounds idx none ≡ stop assertion
  unfolding query_from exhausted
  exhausts zero idx all = refl
  exhausts (suc rounds) idx all =
      let place = probe (key.hash k) n idx in
      let lt = probe-lt (key.hash k) n idx pos in
      let (f, other) = all idx (omega arith) in
      rw (at-get_or bs place empty (omega arith), f)
        (rw (at-get_or ks place key.nil (omega arith), other)
          (exhausts rounds (idx + 1) (λ j l. all j (omega arith))))

-- In a table of 13 buckets of which 0, 2, 3, 8, 9 and 11 are full, the assertion of query fails for
-- every other key whose hash is 2 ^ 64 - 1, the hash of the integer -1.
pub query-wrapped {ℓ} :
    {K : Type ℓ} ⦃key : Key K⦄ (bs : List Bucket) (ks : List K) (k : K)
    → 13 ≤ length bs
    → 13 ≤ length ks
    → key.hash k ≡ 2 ^ 64 - 1
    → ((i : ℕ) → is_hit i ≡ true → (bucket_at bs i ≡ full) × (key.equal k (key_at ks i) ≡ false))
    → query bs ks 13 k ≡ stop assertion
unfolding query
query-wrapped bs ks k wb wk h held =
    exhausts bs ks k 13 (omega arith) wb wk 13 0
      (λ j lt. rw h (held _ (holds_below_lem 13 _ j hits (omega arith))))
