-- ===== src/Clib/Dict/Tests.antt =====
-- Runs of a Dict with numbers for keys, and the theorems at concrete Dicts.
use ripe.Prelude.{ℕ, ◌≡◌, refl, arith, none, some, [], ◌∷◌, replicate, ◌+◌, ◌-◌, ◌^◌, if◌then◌else◌}
use ripe.Prelude.Outcome.{Outcome, ok, stop, assertion, at, put, ◌>>=◌, Returns, Returns_at}
use ripe.Clib.Primes.{map_prime}
use ripe.Clib.Probing.{probe, NoWrap}
use ripe.Clib.Dict.Keys.{
  dict_hash_uint32, dict_equal_uint32, uint32_key, uint32_key-NoWrap, dict_hash_uint64,
  dict_equal_uint64, uint64_key,
}
use ripe.Clib.Dict.{
  Dict, bucket_empty, set_from, set_bucket, find_from, dict_query, expand_from, set_again,
  dict_expand, dict_set, dict_init, dict_has_bucket, bucket_at, dict_iter_new, iter_has_from,
  dict_iter_has, dict_iter_get_ptrs,
}
use ripe.Clib.Dict.Refinement.{IsDict, dict_set-fresh, dict_init-IsDict}
use ripe.Clib.Dict.Overfull.{dict_set-again}

program : Unit {0}
unfolding at put map_prime probe uint32_key dict_hash_uint32 dict_equal_uint32 set_from set_bucket
    find_from dict_query expand_from set_again dict_expand dict_set dict_init dict_has_bucket
    bucket_at dict_iter_new iter_has_from dict_iter_has dict_iter_get_ptrs
program = tt

abbrev seven : Outcome (Dict ℕ ℕ)
seven = do
  d ← dict_init
  d ← dict_set d 1 10
  d ← dict_set d 14 11
  d ← dict_set d 3 12
  d ← dict_set d 4 13
  d ← dict_set d 5 14
  d ← dict_set d 6 15
  dict_set d 7 16

-- the seventh key moves all to a larger table
seven_sizes : (seven >>= λ d. ok (d.size ∷ d.alloc_size ∷ [])) ≡ ok (7 ∷ 31 ∷ [])
unfolding program
seven_sizes = refl

seven_query : (seven >>= λ d. dict_query d 14) ≡ ok (some 11)
unfolding program
seven_query = refl

abbrev start : Dict ℕ ℕ
start = record { size = 0; alloc_size = 13; buckets = replicate 13 bucket_empty }

started : dict_init ≡ ok start
unfolding program
started = refl

start-IsDict :
    IsDict start × ((q : ℕ) → NoWrap (uint32_key.hash_func q) → dict_query start q ≡ ok none)
start-IsDict = Returns_at dict_init-IsDict started

dict_set-fresh_example : Returns (dict_set start 14 10) (λ r.
    IsDict r
    × (r.size ≡ start.size + 1)
    × ((q : ℕ)
        → NoWrap (uint32_key.hash_func q)
        → Returns
            (dict_query start q)
            (λ o. dict_query r q ≡ ok (if uint32_key.equal_func q 14 then some 10 else o))))
dict_set-fresh_example =
    dict_set-fresh start 14 10 (start-IsDict.0) (uint32_key-NoWrap 14)
      (start-IsDict.1 14 (uint32_key-NoWrap 14)) (omega arith)

-- The probes for 2 ^ 64 - 1 wrap and meet only the six other keys.
abbrev near_the_end : Outcome (Dict ℕ ℕ)
near_the_end = do
  d ← dict_init
  d ← dict_set ⦃key = uint64_key⦄ d 0 10
  d ← dict_set ⦃key = uint64_key⦄ d 2 11
  d ← dict_set ⦃key = uint64_key⦄ d 3 12
  d ← dict_set ⦃key = uint64_key⦄ d 8 13
  d ← dict_set ⦃key = uint64_key⦄ d 9 14
  dict_set ⦃key = uint64_key⦄ d 11 15

near_the_end_query :
    (near_the_end >>= λ d. dict_query ⦃key = uint64_key⦄ d (2 ^ 64 - 1)) ≡ stop assertion
unfolding program dict_hash_uint64 dict_equal_uint64
near_the_end_query = refl

dict_set-again_example :
    Returns
      (dict_init {K = ℕ} {V = ℕ}
        >>= (λ d. dict_set d 1 10)
        >>= (λ d. dict_set d 1 20)
        >>= (λ d. dict_set d 1 30)
        >>= (λ d. dict_set d 1 40))
      (λ d. (d.size ≡ 4) × (dict_set d 1 50 ≡ stop assertion))
dict_set-again_example = dict_set-again {V = ℕ} 1 (uint32_key-NoWrap 1) 10 20 30 40 50
