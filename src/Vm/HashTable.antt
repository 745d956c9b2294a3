-- ===== src/Vm/HashTable.antt =====
-- The hash table of vm/builtin/HashTable.c, behind Map and Set: open addressing with quadratic
-- probing and tombstones. An array is a list, read by `at` and written by `put`, which fail out of
-- bounds; a NULL array is `none`. uint64 sums and products wrap.
pub mod Query
pub mod View
pub mod Update
pub mod Effects
pub mod Removal
pub mod Moves
pub mod Rehash
pub mod Insertion
pub mod Methods
pub mod Writes
pub mod Members
pub mod Wrapping
pub mod Literals
pub mod IntegerKey
mod Tests
mod SetTests
use ripe.Prelude.{
  ℕ, zero, suc, ◌+◌, ◌-◌, ◌*◌, ◌%◌, ◌^◌, Bool, true, false, Option, none, some, List, ltb,
  if◌then◌else◌, replicate,
}
use ripe.Prelude.Int.{ℤ, pos, of_word}
use ripe.Prelude.Outcome.{Outcome, ok, stop, assertion, null_pointer, at, put, ◌>>=◌}
use ripe.Clib.Primes.{map_prime}
use ripe.Clib.Probing.{probe}
use ripe.Vm.Key.{Key}

pub data Bucket : Type 0 where
  empty was_full full : Bucket

pub record HashTable {ℓ} (K : Type ℓ) : Type ℓ where
  pub size : ℕ
  pub alloc_size : ℕ
  pub buckets : List Bucket
  pub keys : List K
  pub values : Option (List K)

-- the three new arrays of `rehash`
pub record Arrays {ℓ} (K : Type ℓ) : Type ℓ where
  pub new_buckets : List Bucket
  pub new_keys : List K
  pub new_values : Option (List K)

abbrev pub is_full : Bucket → Bool
is_full full = true
is_full empty = false
is_full was_full = false

-- a read of an array's pointer
pub deref {ℓ} : {A : Type ℓ} → Option A → Outcome A
deref none = stop null_pointer
deref (some a) = ok a

-- `first_empty` with `first_empty_place`: the first tombstone met
pub note_empty : Option ℕ → ℕ → Option ℕ
note_empty none place = some place
note_empty (some first) place = some first

pub empty_or : Option ℕ → ℕ → ℕ
empty_or none place = place
empty_or (some first) place = first

-- behind the loop of `query`
pub exhausted : Option ℕ → Outcome ℕ
exhausted none = stop assertion
exhausted (some first) = ok first

module _ {ℓ} {K : Type ℓ} ⦃key : Key K⦄ where
  -- the loop of `query`, with the rounds left and `idx`
  pub query_from : List Bucket → List K → ℕ → K → ℕ → ℕ → Option ℕ → Outcome ℕ
  query_from buckets keys size k zero idx first = exhausted first
  query_from buckets keys size k (suc rounds) idx first = do
    let place = probe (key.hash k) size idx
    bucket ← at buckets place
    elim bucket [
      | empty ↦ ok (empty_or first place)
      | was_full ↦ query_from buckets keys size k rounds (idx + 1) (note_empty first place)
      | full ↦ do
        other ← at keys place
        elim (key.equal k other) [
          | true ↦ ok place
          | false ↦ query_from buckets keys size k rounds (idx + 1) first
        ]
    ]

  pub query : List Bucket → List K → ℕ → K → Outcome ℕ
  query buckets keys size k = query_from buckets keys size k size 0 none

  -- `values[place] = v` through the array's pointer
  pub put_value : Option (List K) → ℕ → K → Outcome (Option (List K))
  put_value values place v = do vs ← deref values; vs' ← put vs place v; ok (some vs')

  -- `new_values[place] = ht->values[i]`, for a map
  pub copy_value : HashTable K → Bool → Option (List K) → ℕ → ℕ → Outcome (Option (List K))
  copy_value ht true new_values i place = do
    old ← deref ht.values
    v ← at old i
    put_value new_values place v
  copy_value ht false new_values i place = ok new_values

  -- the body of the loop of `rehash` for bucket `i`
  pub rehash_step : HashTable K → Bool → ℕ → ℕ → Arrays K → Outcome (Arrays K)
  rehash_step ht do_values new_size i new = do
    bucket ← at ht.buckets i
    elim bucket [
      | full ↦ do
        k ← at ht.keys i
        place ← query new.new_buckets new.new_keys new_size k
        bs ← put new.new_buckets place full
        ks ← put new.new_keys place k
        vs ← copy_value ht do_values new.new_values i place
        ok (record { new_buckets = bs; new_keys = ks; new_values = vs })
      | _ ↦ ok new
    ]

  pub rehash_from : HashTable K → Bool → ℕ → ℕ → ℕ → Arrays K → Outcome (Arrays K)
  rehash_from ht do_values new_size zero i new = ok new
  rehash_from ht do_values new_size (suc rounds) i new =
      rehash_step ht do_values new_size i new >>= rehash_from ht do_values new_size rounds (i + 1)

  pub rehash : HashTable K → Bool → Outcome (HashTable K)
  rehash ht do_values = do
    new_size ← map_prime (of_word ht.alloc_size)
    let vs : Option (List K) = if do_values then some (replicate new_size key.nil) else none
    new ← rehash_from ht do_values new_size ht.alloc_size 0 (record {
      new_buckets = replicate new_size empty;
      new_keys = replicate new_size key.nil;
      new_values = vs;
    })
    ok (record ht {
      alloc_size = new_size;
      buckets = new.new_buckets;
      keys = new.new_keys;
      values = if do_values then new.new_values else ht.values;
    })

  pub ht_query : HashTable K → K → Outcome Bool
  ht_query ht k = do
    place ← query ht.buckets ht.keys ht.alloc_size k
    bucket ← at ht.buckets place
    ok (is_full bucket)

  -- the value is what goes through the pointer `value`
  pub ht_query2 : HashTable K → K → Outcome (Option K)
  ht_query2 ht k = do
    place ← query ht.buckets ht.keys ht.alloc_size k
    bucket ← at ht.buckets place
    elim bucket [ full ↦ do vs ← deref ht.values; v ← at vs place; ok (some v) | _ ↦ ok none ]

  pub ht_remove : HashTable K → K → Outcome (HashTable K × Bool)
  ht_remove ht k = do
    place ← query ht.buckets ht.keys ht.alloc_size k
    bucket ← at ht.buckets place
    elim bucket [
      | full ↦ do
        bs ← put ht.buckets place was_full
        ks ← put ht.keys place key.nil
        ok (record ht { size = (ht.size + 2 ^ 64 - 1) % 2 ^ 64; buckets = bs; keys = ks }, true)
      | _ ↦ ok (ht, false)
    ]

  -- `buckets[place] = BUCKET_FULL; keys[place] = key`, and the value for a map
  pub fill : HashTable K → ℕ → K → Option K → Outcome (HashTable K)
  fill ht place k value = do
    bs ← put ht.buckets place full
    ks ← put ht.keys place k
    vs ← elim value [ none ↦ ok ht.values | some v ↦ put_value ht.values place v ]
    ok (record ht { buckets = bs; keys = ks; values = vs })

  -- the rest of `ht_set` and `ht_set2`, from `ht->size++` on
  pub add_key : HashTable K → ℕ → K → Option K → Bool → Outcome (HashTable K)
  add_key ht₀ place k value do_values =
      let ht : HashTable K = record ht₀ { size = (ht₀.size + 1) % 2 ^ 64 } in
      elim (ltb (ht.size * 2 % 2 ^ 64) ht.alloc_size) [
        | true ↦ fill ht place k value
        | false ↦ do
          ht' ← rehash ht do_values
          place' ← query ht'.buckets ht'.keys ht'.alloc_size k
          fill ht' place' k value
      ]

  pub ht_set : HashTable K → K → Outcome (HashTable K)
  ht_set ht k = do
    place ← query ht.buckets ht.keys ht.alloc_size k
    bucket ← at ht.buckets place
    elim bucket [ full ↦ ok ht | _ ↦ add_key ht place k none false ]

  pub ht_set2 : HashTable K → K → K → Outcome (HashTable K)
  ht_set2 ht k v = do
    place ← query ht.buckets ht.keys ht.alloc_size k
    bucket ← at ht.buckets place
    elim bucket [
      | full ↦ do vs ← put_value ht.values place v; ok (record ht { values = vs })
      | _ ↦ add_key ht place k (some v) true
    ]

  pub ht_init : ℤ → Outcome (HashTable K)
  ht_init items = do
    n ← map_prime items
    ok (record {
      size = 0;
      alloc_size = n;
      buckets = replicate n empty;
      keys = replicate n key.nil;
      values = none;
    })

  pub ht_init2 : ℤ → Outcome (HashTable K)
  ht_init2 items = do
    n ← map_prime items
    ok (record {
      size = 0;
      alloc_size = n;
      buckets = replicate n empty;
      keys = replicate n key.nil;
      values = some (replicate n key.nil);
    })

  pub ht_clear : HashTable K → Outcome (HashTable K)
  ht_clear ht = ht_init (pos 0)
