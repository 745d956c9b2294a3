-- ===== src/Vm/HashTable/Effects.antt =====
-- What the three writes do to the map and to the number of full buckets.
use ripe.Clib.Primes.Prime.{IsPrime}
use ripe.Prelude.{
  replicate, length-replicate, get_or-replicate, ◌≤◌, ℕ, ◌+◌, ◌<◌, ◌≡◌, ◌≢◌, inl, inr, sym, ◌∙◌,
  true, List, arith, some, if◌then◌else◌, length, set, Bool-cases, ℕ_discrete,
}
use ripe.Vm.Key.{Key}
use ripe.Vm.HashTable.{Bucket, empty, full, is_full}
use ripe.Clib.Probing.Count.{count, count_update, count-none}
use ripe.Clib.Probing.{NoWrap}
use ripe.Vm.HashTable.Query.{bucket_at, key_at, IsReached, IsAbsent, IsTable}
use ripe.Vm.HashTable.View.{HoldsAt, HoldsAt-value, Holds, scan, scan_iff, scan_ext, is_full-ne}
use ripe.Vm.HashTable.Update.{
  get_or-set_self, get_or-set_ne, bucket_self, bucket_ne, key_self, key_ne, insert-IsTable,
}

-- an array of empty buckets is a table, of any prime size
pub empty-IsTable {ℓ} :
    {K : Type ℓ} ⦃key : Key K⦄ (n : ℕ)
    → IsPrime n
    → 13 ≤ n
    → n ≤ 536870909
    → IsTable {K = K} n (replicate n empty) (replicate n key.nil)
empty-IsTable {K} ⦃key⦄ n prime least most = record {
  width_buckets = length-replicate n empty;
  width_keys = length-replicate n key.nil;
  prime = prime;
  least = least;
  most = most;
  reached = λ i l f. absurd (none_full i f);
  safe = λ i l f. absurd (none_full i f);
  unique = λ i j li lj fi fj same. absurd (none_full i fi);
}
  where
    none_full : (i : ℕ) → bucket_at (replicate n empty) i ≢ full
    none_full i f = let e = get_or-replicate n i empty in cc

abbrev pub full_count : ℕ → List Bucket → ℕ
full_count n bs = count (λ i. is_full (bucket_at bs i)) 0 n

pub full_count-empty : (n : ℕ) → full_count n (replicate n empty) ≡ 0
full_count-empty n = count-none _ 0 n (λ j. rw (get_or-replicate n j empty))

module _ {ℓ} {K : Type ℓ} ⦃key : Key K⦄ (n : ℕ) (bs : List Bucket) (ks : List K)
    (t : IsTable n bs ks) (place : ℕ) (lt : place < n) where
  pub HoldsAt-there :
      (b : Bucket) (k : K) (vs vs' : List K) (q v : K) (j : ℕ)
      → place ≢ j
      → key_at vs' j ≡ key_at vs j
      → HoldsAt n bs ks vs q v j
      → HoldsAt n (set bs place b) (set ks place k) vs' q v j
  HoldsAt-there b k vs vs' q v j ne e h = record {
    below = h.below;
    filled = rw (bucket_ne n bs ks t place lt b j ne) h.filled;
    same = rw (key_ne n bs ks t place lt k j ne) h.same;
    value = e ∙ h.value;
  }

  pub HoldsAt-back :
      (b : Bucket) (k : K) (vs vs' : List K) (q v : K) (j : ℕ)
      → place ≢ j
      → key_at vs' j ≡ key_at vs j
      → HoldsAt n (set bs place b) (set ks place k) vs' q v j
      → HoldsAt n bs ks vs q v j
  HoldsAt-back b k vs vs' q v j ne e h = record {
    below = h.below;
    filled = rw (bucket_ne n bs ks t place lt b j ne) at h.filled;
    same = rw (key_ne n bs ks t place lt k j ne) at h.same;
    value = rw e at h.value;
  }

  -- filling a free place with a new key
  module _ (k v : K) (vs : List K) (width : length vs ≡ n) (free : bucket_at bs place ≢ full)
      (gone : IsAbsent n bs ks k) (way : IsReached n bs (key.hash k) place)
      (fits : NoWrap (key.hash k)) where
    abbrev inserted : IsTable n (set bs place full) (set ks place k)
    inserted = insert-IsTable n bs ks t place lt k gone way fits

    insert_self :
        (q : K)
        → key.equal q k ≡ true
        → Holds n (set bs place full) (set ks place k) (set vs place v) q v
    insert_self q same = (
      place,
      record {
        below = lt;
        filled = bucket_self n bs ks t place lt full;
        same = rw (key_self n bs ks t place lt k) same;
        value = get_or-set_self vs place v key.nil (omega arith);
      },
    )

    pub scan-insert :
        (q : K)
        → scan (set bs place full) (set ks place k) (set vs place v) q 0 n
          ≡ (if key.equal q k then some v else scan bs ks vs q 0 n)
    scan-insert q = elim (Bool-cases (key.equal q k)) [
      | inl same ↦ rw same (
          scan_iff n (set bs place full) (set ks place k) inserted (set vs place v) q v
            (insert_self q same))
      | inr other ↦ rw other (
          scan_ext n n bs (set bs place full) ks (set ks place k) vs (set vs place v) q t inserted
            (λ w (j, h).
              let ne : place ≢ j = λ e. free (rw (← e) at h.filled) in
              (
                j,
                HoldsAt-there full k vs (set vs place v) q w j ne
                    (get_or-set_ne vs place j v key.nil (omega arith) ne) h,
              ))
            (λ w (j, h). elim (ℕ_discrete place j) [
              | yes e ↦ let same = rw (← e, key_self n bs ks t place lt k) at h.same in absurd (cc)
              | no ne ↦ (
                j,
                HoldsAt-back full k vs (set vs place v) q w j ne
                    (get_or-set_ne vs place j v key.nil (omega arith) ne) h,
              )
            ]))
    ]

  pub full_count-insert :
      bucket_at bs place ≢ full → full_count n (set bs place full) ≡ full_count n bs + 1
  full_count-insert free =
      count_update _ _ place 0 n (is_full-ne _ free) (rw (bucket_self n bs ks t place lt full))
        (λ j ne. rw (bucket_ne n bs ks t place lt full j (λ e. ne (sym e)))) (omega arith)
        (omega arith)

  -- a new value for the key of a full bucket
  module _ (k v : K) (vs : List K) (width : length vs ≡ n) (f : bucket_at bs place ≡ full)
      (same : key.equal k (key_at ks place) ≡ true) where
    pub scan-replace :
        (q : K)
        → scan bs ks (set vs place v) q 0 n
          ≡ (if key.equal q k then some v else scan bs ks vs q 0 n)
    scan-replace q = elim (Bool-cases (key.equal q k)) [
      | inl eq ↦ rw eq (
          scan_iff n bs ks t (set vs place v) q v (
            place,
            record {
              below = lt;
              filled = f;
              same = key.equal_trans _ _ _ eq same;
              value = get_or-set_self vs place v key.nil (omega arith);
            },
          ))
      | inr other ↦
          let apart : (j : ℕ) → key.equal q (key_at ks j) ≡ true → place ≢ j = λ j h e.
            let back = key.equal_symm _ _ same in
            let h' = rw (← e) at h in let both = key.equal_trans _ _ _ h' back in cc in
          let kept : (j : ℕ)
              → key.equal q (key_at ks j) ≡ true
              → key_at (set vs place v) j ≡ key_at vs j =
            λ j h. get_or-set_ne vs place j v key.nil (omega arith) (apart j h) in
          rw other (
            scan_ext n n bs bs ks ks vs (set vs place v) q t t
              (λ w (j, h). (j, HoldsAt-value n bs ks vs (set vs place v) q w j (kept j h.same) h))
              (λ w (j, h).
                (j, HoldsAt-value n bs ks (set vs place v) vs q w j (sym (kept j h.same)) h)))
    ]
