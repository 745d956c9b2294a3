-- ===== src/Vm/HashTable/Methods.antt =====
-- The public functions of the hash table against the abstract map and the abstract set.
use ripe.Prelude.{
  ℕ, ◌*◌, ◌≤◌, ◌<◌, ◌≡◌, refl, ◌≢◌, inl, inr, true, false, List, arith, none, some, if◌then◌else◌,
  Bool, replicate, length-replicate, get_or-replicate, is_some,
}
use ripe.Prelude.Int.{ℤ, pos, ◌<ℤ◌}
use ripe.Prelude.Outcome.{ok, at, at-get_or, Returns}
use ripe.Clib.Primes.Choice.{used_sizes-le, used_sizes-ge, map_prime_lem}
use ripe.Clib.Primes.Prime.{IsPrime}
use ripe.Vm.Key.{Key}
use ripe.Vm.HashTable.{HashTable, empty, full, deref, query, ht_query, ht_query2, ht_init, ht_init2}
use ripe.Clib.Probing.{NoWrap}
use ripe.Vm.HashTable.Query.{
  bucket_at, key_at, Bucket-cases, IsTable, Answer, present, absent, query-Answer,
}
use ripe.Vm.HashTable.View.{listed, scan, scan_iff, scan-absent, view, member, is_full-ne}
use ripe.Vm.HashTable.Effects.{full_count, empty-IsTable, full_count-empty}
use ripe.Vm.HashTable.Moves.{HasValues}

empty_place : (n i : ℕ) → bucket_at (replicate n empty) i ≢ full
empty_place n i f = let e = get_or-replicate n i empty in cc

module _ {ℓ} {K : Type ℓ} ⦃key : Key K⦄ where
  -- A well-formed table: `d` says whether it is a map, whose values are there, or a set.
  pub record IsValid (d : Bool) (ht : HashTable K) : Type ℓ where
    pub table : IsTable ht.alloc_size ht.buckets ht.keys
    pub values : HasValues d ht.alloc_size ht.values
    pub load : 2 * ht.size < ht.alloc_size
    pub counted : full_count ht.alloc_size ht.buckets ≡ ht.size

  -- `query` on a well-formed table
  pub valid_query :
      {d : Bool} {ht : HashTable K} (k : K)
      → IsValid d ht
      → NoWrap (key.hash k)
      → Returns
          (query ht.buckets ht.keys ht.alloc_size k)
          (Answer ht.alloc_size ht.buckets ht.keys k)
  valid_query {ht = ht} k v fits =
      query-Answer ht.alloc_size ht.buckets ht.keys v.table k fits
        (omega (arith, v.counted, v.load))

  pub read_bucket :
      {d : Bool} (ht : HashTable K) (place : ℕ)
      → IsValid d ht
      → place < ht.alloc_size
      → at ht.buckets place ≡ ok (bucket_at ht.buckets place)
  read_bucket ht place v lt =
      at-get_or ht.buckets place empty (omega (arith, v.table.width_buckets))

  -- On a well-formed set and for a key whose probes do not wrap, ht_query does not fail, and returns
  -- whether the set has an element equal to the key.
  pub ht_query-member :
      (ht : HashTable K) (k : K)
      → IsValid false ht
      → NoWrap (key.hash k)
      → ht_query ht k ≡ ok (is_some (member ht k))
  unfolding ht_query member
  ht_query-member ht k v fits =
      let (place, run, answer) = valid_query k v fits in
      elim answer [
        | present lt f same ↦ rw (run) (
            rw (read_bucket ht place v lt, f)
              (rw (
                scan_iff ht.alloc_size ht.buckets ht.keys v.table ht.keys k (key_at ht.keys place)
                  (place, record { below = lt; filled = f; same = same; value = refl }))))
        | absent lt free gone way ↦ rw run (
            rw (read_bucket ht place v lt, is_full-ne _ free)
              (rw (scan-absent ht.alloc_size ht.buckets ht.keys v.table ht.keys k gone)))
      ]

  -- On a well-formed map and for a key whose probes do not wrap, ht_query2 does not fail, and
  -- returns what the map holds under the key.
  pub ht_query2-view :
      (ht : HashTable K) (k : K)
      → IsValid true ht
      → NoWrap (key.hash k)
      → ht_query2 ht k ≡ ok (view ht k)
  unfolding ht_query2 view deref
  ht_query2-view ht k v fits =
      let (place, run, answer) = valid_query k v fits in
      let (stored, width) = v.values refl in
      let n = ht.alloc_size in
      elim answer [
        | present lt f same ↦
            let w = key_at (listed ht.values) place in
            rw run (
              rw (read_bucket ht place v lt, f)
                (rw stored (
                  rw (at-get_or (listed ht.values) place key.nil (omega arith)) (
                    rw (
                      scan_iff n ht.buckets ht.keys v.table (listed ht.values) k w
                        (place, record { below = lt; filled = f; same = same; value = refl }))))))
        | absent lt free gone way ↦
            let none_held = scan-absent n ht.buckets ht.keys v.table (listed ht.values) k gone in
            rw run (
              rw (read_bucket ht place v lt) (elim (Bucket-cases (bucket_at ht.buckets place)) [
                | inl e ↦ rw (e, none_held)
                | inr (inl e) ↦ rw (e, none_held)
                | inr (inr e) ↦ absurd (free e)
              ]))
      ]

  abbrev pub empty_table : Bool → ℕ → HashTable K
  empty_table d n = record {
    size = 0;
    alloc_size = n;
    buckets = replicate n empty;
    keys = replicate n key.nil;
    values = if d then some (replicate n key.nil) else none;
  }

  pub empty_table-IsValid :
      (d : Bool) (n : ℕ) → IsPrime n → 13 ≤ n → n ≤ 536870909 → IsValid d (empty_table d n)
  empty_table-IsValid d n prime least most = record {
    table = empty-IsTable n prime least most;
    values = λ e. rw e (refl, length-replicate n key.nil);
    load = omega arith;
    counted = full_count-empty n;
  }

  empty_table-scan :
      (n : ℕ) (vs : List K) (q : K)
      → IsTable {K = K} n (replicate n empty) (replicate n key.nil)
      → scan (replicate n empty) (replicate n key.nil) vs q 0 n ≡ none
  empty_table-scan n vs q t =
      scan-absent n (replicate n empty) (replicate n key.nil) t vs q
        (λ i l f. absurd (empty_place n i f))

  -- Where the table of sizes reaches, ht_init2 returns an empty well-formed map.
  pub ht_init2-IsValid :
      (items : ℤ)
      → items <ℤ pos 536870909
      → Returns
          (ht_init2 items)
          (λ ht. IsValid true ht × (ht.size ≡ 0) × ((q : K) → view ht q ≡ none))
  unfolding ht_init2 view
  ht_init2-IsValid items lt =
      let (n, run, c) = (map_prime_lem items).0 lt in
      let v =
        empty_table-IsValid true n c.prime (used_sizes-ge n c.entry) (used_sizes-le n c.entry) in
      (empty_table true n, rw run, (v, refl, λ q. empty_table-scan n _ q v.table))

  -- the table of a map, taken for a set
  pub ht_init2-member :
      (items : ℤ)
      → items <ℤ pos 536870909
      → Returns
          (ht_init2 items)
          (λ ht. IsValid false ht × (ht.size ≡ 0) × ((q : K) → member ht q ≡ none))
  unfolding ht_init2 member
  ht_init2-member items lt =
      let (n, run, c) = (map_prime_lem items).0 lt in
      let v =
        empty_table-IsValid true n c.prime (used_sizes-ge n c.entry) (used_sizes-le n c.entry) in
      let as_set : IsValid false (empty_table true n) = record {
        table = v.table;
        values = λ e. absurd (cc);
        load = v.load;
        counted = v.counted;
      } in
      (empty_table true n, rw run, (as_set, refl, λ q. empty_table-scan n _ q v.table))

  -- Where the table of sizes reaches, ht_init returns an empty well-formed set.
  pub ht_init-IsValid :
      (items : ℤ)
      → items <ℤ pos 536870909
      → Returns
          (ht_init items)
          (λ ht. IsValid false ht × (ht.size ≡ 0) × ((q : K) → member ht q ≡ none))
  unfolding ht_init member
  ht_init-IsValid items lt =
      let (n, run, c) = (map_prime_lem items).0 lt in
      let v =
        empty_table-IsValid false n c.prime (used_sizes-ge n c.entry) (used_sizes-le n c.entry) in
      (empty_table false n, rw run, (v, refl, λ q. empty_table-scan n _ q v.table))
