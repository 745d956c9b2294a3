-- ===== src/Vm/HashTable/Insertion.antt =====
-- `ht_set` and `ht_set2` behind their test: a new key, with or without an expansion of the table.
use ripe.Prelude.{
  ℕ, ◌+◌, ◌*◌, ◌%◌, ◌^◌, ◌≤◌, ◌<◌, ◌≡◌, refl, ◌≢◌, inl, inr, ap, ◌∙◌, true, false, arith, Option,
  none, some, if◌then◌else◌, Bool, Bool-cases, ltb, ltb→lt, ltb→le, set, length-set,
}
use ripe.Prelude.Outcome.{ok, ◌>>=◌, put-set, Returns}
use ripe.Clib.Primes.Prime.{IsPrime}
use ripe.Vm.Key.{Key}
use ripe.Vm.HashTable.{HashTable, Arrays, full, query, fill, add_key, rehash}
use ripe.Clib.Probing.{NoWrap}
use ripe.Vm.HashTable.Query.{bucket_at, IsReached, IsAbsent, IsTable, present, absent, query-Answer}
use ripe.Vm.HashTable.View.{listed, scan}
use ripe.Vm.HashTable.Update.{insert-IsTable}
use ripe.Vm.HashTable.Effects.{full_count, full_count-insert, scan-insert}
use ripe.Vm.HashTable.Moves.{HasValues, put_value-set, Moved}
use ripe.Vm.HashTable.Rehash.{rehashed, rehash-Moved, scan-rehash}

-- a larger prime leaves room for one key more
larger_load : (fc alloc n : ℕ) → IsPrime n → 2 * fc < alloc → alloc < n → 13 ≤ n → 2 * (fc + 1) < n
larger_load fc alloc n prime load lt least =
    let odd = prime.no_divisor 2 (omega arith) (omega arith) in omega arith

module _ {ℓ} {K : Type ℓ} ⦃key : Key K⦄ where
  -- `d` tells a map from a set
  abbrev pub value_of : Bool → K → Option K
  value_of d v = if d then some v else none

  abbrev pub filled_table : Bool → HashTable K → ℕ → K → K → HashTable K
  filled_table d ht place k v = record ht {
    buckets = set ht.buckets place full;
    keys = set ht.keys place k;
    values = if d then some (set (listed ht.values) place v) else ht.values;
  }

  fill_lem :
      (d : Bool) (ht : HashTable K) (place : ℕ) (k v : K)
      → IsTable ht.alloc_size ht.buckets ht.keys
      → HasValues d ht.alloc_size ht.values
      → place < ht.alloc_size
      → fill ht place k (value_of d v) ≡ ok (filled_table d ht place k v)
  unfolding fill
  fill_lem false ht place k v t values lt =
      rw (put-set ht.buckets place full (omega (arith, t.width_buckets)))
        (rw (put-set ht.keys place k (omega (arith, t.width_keys))))
  fill_lem true ht place k v t values lt =
      rw (put-set ht.buckets place full (omega (arith, t.width_buckets))) (
        rw (put-set ht.keys place k (omega (arith, t.width_keys)))
          (rw (put_value-set ht.alloc_size place ht.values v values lt)))

  -- what a table with the new key `k` is, beside the old one
  pub record Added (d : Bool) (ht : HashTable K) (k v : K) (ht' : HashTable K) : Type ℓ where
    pub table : IsTable ht'.alloc_size ht'.buckets ht'.keys
    pub values : HasValues d ht'.alloc_size ht'.values
    pub counted : full_count ht'.alloc_size ht'.buckets ≡ full_count ht.alloc_size ht.buckets + 1
    pub load : 2 * full_count ht'.alloc_size ht'.buckets < ht'.alloc_size
    pub members :
        (q : K)
        → scan ht'.buckets ht'.keys ht'.keys q 0 ht'.alloc_size
          ≡ (if key.equal q k then some k else scan ht.buckets ht.keys ht.keys q 0 ht.alloc_size)
    pub mapped :
        d ≡ true
        → (q : K)
        → scan ht'.buckets ht'.keys (listed ht'.values) q 0 ht'.alloc_size ≡ (
            if key.equal q k
            then some v
            else scan ht.buckets ht.keys (listed ht.values) q 0 ht.alloc_size)

  Added-fill :
      (d : Bool) (ht : HashTable K) (place : ℕ) (k v : K)
      (t : IsTable ht.alloc_size ht.buckets ht.keys)
      → HasValues d ht.alloc_size ht.values
      → place < ht.alloc_size
      → bucket_at ht.buckets place ≢ full
      → IsAbsent ht.alloc_size ht.buckets ht.keys k
      → IsReached ht.alloc_size ht.buckets (key.hash k) place
      → NoWrap (key.hash k)
      → 2 * (full_count ht.alloc_size ht.buckets + 1) < ht.alloc_size
      → Added d ht k v (filled_table d ht place k v)
  Added-fill d ht place k v t values lt free gone way fits load =
      let n = ht.alloc_size in
      let more = full_count-insert n ht.buckets ht.keys t place lt free in
      record {
        table = insert-IsTable n ht.buckets ht.keys t place lt k gone way fits;
        values = λ e. rw e (refl, length-set (listed ht.values) place v ∙ (values e).1);
        counted = more;
        load = omega arith;
        members =
            scan-insert n ht.buckets ht.keys t place lt k k ht.keys t.width_keys free gone way fits;
        mapped = λ e. rw e (
            scan-insert n ht.buckets ht.keys t place lt k v (listed ht.values) (values e).1 free
              gone way fits);
      }

  -- a table that `rehash` made, then filled
  Added-rehash :
      (d : Bool) (ht : HashTable K) (k v : K) (t : IsTable ht.alloc_size ht.buckets ht.keys)
      (values : HasValues d ht.alloc_size ht.values) (n : ℕ) (new : Arrays K) (ht' : HashTable K)
      → Moved ht d t values n ht.alloc_size new
      → Added d (rehashed ht d n new) k v ht'
      → Added d ht k v ht'
  Added-rehash d ht k v t values n new ht' m a = record {
    table = a.table;
    values = a.values;
    counted = a.counted ∙ ap (λ r. r + 1) m.counted;
    load = a.load;
    members = λ q.
        a.members q
        ∙ ap (λ o. if key.equal q k then some k else o)
            (scan-rehash ht d t values n new ht.keys new.new_keys m (λ j p c. c.same_key) q);
    mapped = λ e q.
        a.mapped e q
        ∙ ap (λ o. if key.equal q k then some v else o)
            (rw e (
              scan-rehash ht d t values n new (listed ht.values) (listed new.new_values) m
                (λ j p c. c.same_value e) q));
  }

  Moved-IsAbsent :
      (d : Bool) (ht : HashTable K) (k : K) (t : IsTable ht.alloc_size ht.buckets ht.keys)
      (values : HasValues d ht.alloc_size ht.values) (n : ℕ) (new : Arrays K)
      → Moved ht d t values n ht.alloc_size new
      → IsAbsent ht.alloc_size ht.buckets ht.keys k
      → IsAbsent n new.new_buckets new.new_keys k
  Moved-IsAbsent d ht k t values n new m gone p lp f =
      let (j, lj, c) = m.back p lp f in rw c.same_key (gone j lj c.old_filled)

  -- the expansion: `rehash`, a second `query`, and the write
  expand :
      (d : Bool) (ht : HashTable K) (k v : K)
      → IsTable ht.alloc_size ht.buckets ht.keys
      → HasValues d ht.alloc_size ht.values
      → IsAbsent ht.alloc_size ht.buckets ht.keys k
      → NoWrap (key.hash k)
      → 2 * full_count ht.alloc_size ht.buckets < ht.alloc_size
      → ht.alloc_size < 536870909
      → Returns
          (rehash ht d >>= λ ht'. query ht'.buckets ht'.keys ht'.alloc_size k >>= λ place.
            fill ht' place k (value_of d v))
          (λ r. Added d ht k v r × (r.size ≡ ht.size))
  expand d ht k v t values gone fits load more =
      let (n, new, run, larger, m) = rehash-Moved ht d t values (omega arith) more in
      let room = larger_load _ ht.alloc_size n m.table.prime load larger m.table.least in
      let ht' = rehashed ht d n new in
      let gone' = Moved-IsAbsent d ht k t values n new m gone in
      let values' : HasValues d n ht'.values = λ e. rw e (m.values e) in
      let (place, found, answer) =
        query-Answer n new.new_buckets new.new_keys m.table k fits (omega (arith, m.counted)) in
      elim answer [
        | present lt f same ↦ let differs = gone' place lt f in absurd (cc)
        | absent lt free _ way ↦ (
          filled_table d ht' place k v,
          rw run (rw found (fill_lem d ht' place k v m.table values' lt)),
          (
            Added-rehash d ht k v t values n new _ m (
                Added-fill d ht' place k v m.table values' lt free gone' way fits
                  (omega (arith, m.counted))),
            refl,
          ),
        )
      ]

  -- the count of keys plays no part
  Added-size :
      (d : Bool) (ht : HashTable K) (size : ℕ) (k v : K) (r : HashTable K)
      → Added d (record ht { size = size }) k v r
      → Added d ht k v r
  Added-size d ht size k v r a = record {
    table = a.table;
    values = a.values;
    counted = a.counted;
    load = a.load;
    members = a.members;
    mapped = a.mapped;
  }

  -- `add_key` adds the key and counts it, whether or not the table expands
  pub add_key-Added :
      (d : Bool) (ht : HashTable K) (place : ℕ) (k v : K)
      → IsTable ht.alloc_size ht.buckets ht.keys
      → HasValues d ht.alloc_size ht.values
      → place < ht.alloc_size
      → bucket_at ht.buckets place ≢ full
      → IsAbsent ht.alloc_size ht.buckets ht.keys k
      → IsReached ht.alloc_size ht.buckets (key.hash k) place
      → NoWrap (key.hash k)
      → 2 * ht.size < ht.alloc_size
      → full_count ht.alloc_size ht.buckets ≡ ht.size
      → 2 * (ht.size + 1) < 536870909
      → Returns
          (add_key ht place k (value_of d v) d)
          (λ r. Added d ht k v r × (r.size ≡ ht.size + 1))
  unfolding add_key
  add_key-Added d ht place k v t values lt free gone way fits load counted more =
      let ht₁ : HashTable K = record ht { size = (ht.size + 1) % 2 ^ 64 } in
      let size : (ht.size + 1) % 2 ^ 64 ≡ ht.size + 1 = omega arith in
      elim (Bool-cases (ltb ((ht.size + 1) % 2 ^ 64 * 2 % 2 ^ 64) ht.alloc_size)) [
        | inl room ↦
            let a =
              Added-fill d ht₁ place k v t values lt free gone way fits
                (omega (arith, ltb→lt _ _ room)) in
            (
              filled_table d ht₁ place k v,
              rw (room, add_key) (fill_lem d ht₁ place k v t values lt),
              (Added-size d ht _ k v _ a, size),
            )
        | inr tight ↦
            let (r, run, (a, kept)) =
              expand d ht₁ k v t values gone fits (omega arith) (omega (arith, ltb→le _ _ tight)) in
            (r, rw (tight, add_key) run, (Added-size d ht _ k v _ a, kept ∙ size))
      ]
