-- ===== src/Clib/Dict.antt =====
-- Dict of clib/dict.c, the hash table of the compiler. A bucket is its flag with its key and value,
-- where the source lays them out in bytes.
pub mod Key
mod Search
mod Contents
mod Insertion
mod Expansion
pub mod Refinement
pub mod Iteration
mod Repetition
pub mod Overfull
pub mod Keys
mod Tests
use ripe.Prelude.{
  ℕ, zero, suc, ◌+◌, ◌-◌, ◌*◌, ◌%◌, ◌^◌, Bool, true, false, leb, if◌then◌else◌, Option, none, some,
  List, replicate,
}
use ripe.Prelude.Int.{ℤ, pos, negsuc, of_word}
use ripe.Prelude.Outcome.{Outcome, ok, stop, assertion, out_of_bounds, at, put, ◌>>=◌}
use ripe.Clib.Primes.{map_prime}
use ripe.Clib.Probing.{probe}
use ripe.Clib.Dict.Key.{DictKey}

pub data DictBucket {ℓ κ} (K : Type ℓ) (V : Type κ) : Type (ℓ ⊔ κ) where
  bucket_empty : DictBucket K V
  bucket_full : K → V → DictBucket K V

pub record Dict {ℓ κ} (K : Type ℓ) (V : Type κ) : Type (ℓ ⊔ κ) where
  pub size : ℕ
  pub alloc_size : ℕ
  pub buckets : List (DictBucket K V)

module _ {ℓ κ} {K : Type ℓ} {V : Type κ} ⦃key : DictKey K⦄ where
  -- the loop of `set`, which goes on behind an equal key
  pub set_from : K → V → ℕ → ℕ → ℕ → List (DictBucket K V) → Outcome (List (DictBucket K V))
  set_from k v num_buckets zero idx bs = stop assertion
  set_from k v num_buckets (suc rounds) idx bs = do
    let place : ℕ = probe (key.hash_func k) num_buckets idx
    b ← at bs place
    elim b [
      | bucket_empty ↦ put bs place (bucket_full k v)
      | bucket_full dict_key old ↦ elim (key.equal_func k dict_key) [
        | true ↦ do
          bs' ← put bs place (bucket_full dict_key v)
          set_from k v num_buckets rounds (idx + 1) bs'
        | false ↦ set_from k v num_buckets rounds (idx + 1) bs
      ]
    ]

  -- the static function `set`
  pub set_bucket : K → V → List (DictBucket K V) → ℕ → Outcome (List (DictBucket K V))
  set_bucket k v bs num_buckets = set_from k v num_buckets num_buckets 0 bs

  -- the loop of `dict_query`
  pub find_from : K → List (DictBucket K V) → ℕ → ℕ → ℕ → Outcome (Option V)
  find_from k bs size zero idx = stop assertion
  find_from k bs size (suc rounds) idx = do
    b ← at bs (probe (key.hash_func k) size idx)
    elim b [
      | bucket_empty ↦ ok none
      | bucket_full current_key current_value ↦ elim (key.equal_func k current_key) [
        | true ↦ ok (some current_value)
        | false ↦ find_from k bs size rounds (idx + 1)
      ]
    ]

  pub dict_query : Dict K V → K → Outcome (Option V)
  dict_query d k = find_from k d.buckets d.alloc_size d.alloc_size 0

  -- the loop that sets each full bucket from `i` on in the new buckets
  pub expand_from :
      ℕ → ℕ → List (DictBucket K V) → ℕ → List (DictBucket K V) → Outcome (List (DictBucket K V))
  expand_from zero i old new_size new = ok new
  expand_from (suc rounds) i old new_size new = do
    b ← at old i
    elim b [
      | bucket_empty ↦ expand_from rounds (i + 1) old new_size new
      | bucket_full k v ↦ do
        new' ← set_bucket k v new new_size
        expand_from rounds (i + 1) old new_size new'
    ]

  -- a key that is there already
  pub set_again : Dict K V → K → V → Option V → Outcome (Dict K V)
  set_again d k v none = ok d
  set_again d k v (some old) = do
    bs ← set_bucket k v d.buckets d.alloc_size
    ok (record d { buckets = bs })

  -- the test for room and the larger table
  pub dict_expand : Dict K V → Outcome (Dict K V)
  dict_expand d = elim (leb d.alloc_size ((d.size + 1) * 2 % 2 ^ 64)) [
    | false ↦ ok d
    | true ↦ do
      new_size ← map_prime (of_word (2 * (d.size + 1) % 2 ^ 64))
      new ← expand_from d.alloc_size 0 d.buckets new_size (replicate new_size bucket_empty)
      ok (record d { alloc_size = new_size; buckets = new })
  ]

  pub dict_set : Dict K V → K → V → Outcome (Dict K V)
  dict_set d k v = do
    known ← dict_query d k
    d1 ← set_again d k v known
    d2 ← dict_expand d1
    bs ← set_bucket k v d2.buckets d2.alloc_size
    ok (record d2 { size = (d2.size + 1) % 2 ^ 64; buckets = bs })

unfoldable pub dict_init {ℓ κ} : {K : Type ℓ} {V : Type κ} → Outcome (Dict K V)
dict_init = do
  n ← map_prime (pos 0)
  ok (record { size = 0; alloc_size = n; buckets = replicate n bucket_empty })

-- A place is an int64; one that is negative reads before the buckets.
pub bucket_at {ℓ κ} : {K : Type ℓ} {V : Type κ} → Dict K V → ℤ → Outcome (DictBucket K V)
bucket_at d (pos place) = at d.buckets place
bucket_at d (negsuc place) = stop out_of_bounds

pub dict_has_bucket {ℓ κ} : {K : Type ℓ} {V : Type κ} → Dict K V → ℤ → Outcome Bool
dict_has_bucket d place = do
  b ← bucket_at d place
  elim b [ bucket_empty ↦ ok false | bucket_full k v ↦ ok true ]

-- an iterator without its pointer to the Dict, which is an argument of its functions
unfoldable pub dict_iter_new : ℕ
dict_iter_new = 0

-- the loop of `dict_iter_has`, which moves the iterator to the next full bucket
unfoldable pub iter_has_from {ℓ κ} :
    {K : Type ℓ} {V : Type κ} → Dict K V → ℕ → ℕ → Outcome (Bool × ℕ)
iter_has_from d zero i = ok (false, i)
iter_has_from d (suc rounds) i = do
  b ← at d.buckets i
  elim b [ bucket_empty ↦ iter_has_from d rounds (i + 1) | bucket_full k v ↦ ok (true, i) ]

unfoldable pub dict_iter_has {ℓ κ} : {K : Type ℓ} {V : Type κ} → Dict K V → ℕ → Outcome (Bool × ℕ)
dict_iter_has d i = iter_has_from d (d.alloc_size - i) i

unfoldable pub dict_iter_get_ptrs {ℓ κ} :
    {K : Type ℓ} {V : Type κ} → Dict K V → ℕ → Outcome (K × V × ℕ)
dict_iter_get_ptrs d i = do
  b ← at d.buckets i
  elim b [ bucket_empty ↦ stop assertion | bucket_full k v ↦ ok (k, v, i + 1) ]
