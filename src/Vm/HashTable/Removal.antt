-- ===== src/Vm/HashTable/Removal.antt =====
-- What `ht_remove` does to the table: a tombstone takes the place of the key.
use ripe.Prelude.{
  ℕ, ◌+◌, ◌<◌, ◌≡◌, ◌≢◌, inl, inr, sym, ◌∙◌, true, List, arith, none, if◌then◌else◌, set,
  length-set, Bool-cases,
}
use ripe.Vm.Key.{Key}
use ripe.Vm.HashTable.{Bucket, was_full, full}
use ripe.Clib.Probing.Count.{count_update}
use ripe.Vm.HashTable.Query.{bucket_at, key_at, IsAbsent, IsTable}
use ripe.Vm.HashTable.View.{scan, scan_ext, scan-absent}
use ripe.Vm.HashTable.Update.{IsReached-mono, bucket_self, bucket_ne, key_ne, not_emptied}
use ripe.Vm.HashTable.Effects.{full_count, HoldsAt-there, HoldsAt-back}

module _ {ℓ} {K : Type ℓ} ⦃key : Key K⦄ (n : ℕ) (bs : List Bucket) (ks : List K)
    (t : IsTable n bs ks) (place : ℕ) (lt : place < n) where
  abbrev cleared : List Bucket
  cleared = set bs place was_full

  abbrev wiped : List K
  wiped = set ks place key.nil

  -- a bucket that is still full is another one
  other_place : (i : ℕ) → bucket_at cleared i ≡ full → place ≢ i
  other_place i f e =
      let gone = bucket_self n bs ks t place lt was_full in let f' = rw (← e) at f in cc

  kept : (i : ℕ) → bucket_at cleared i ≡ full → bucket_at bs i ≡ full
  kept i f = rw (bucket_ne n bs ks t place lt was_full i (other_place i f)) at f

  kept_key : (i : ℕ) → bucket_at cleared i ≡ full → key_at wiped i ≡ key_at ks i
  kept_key i f = key_ne n bs ks t place lt key.nil i (other_place i f)

  pub remove-IsTable : IsTable n cleared wiped
  remove-IsTable = record {
    width_buckets = length-set bs place was_full ∙ t.width_buckets;
    width_keys = length-set ks place key.nil ∙ t.width_keys;
    prime = t.prime;
    least = t.least;
    most = t.most;
    reached = λ i l f. rw (kept_key i f) (
        IsReached-mono n bs cleared (key.hash (key_at ks i)) i
          (not_emptied n bs ks t place lt was_full (λ c. cc)) (t.reached i l (kept i f)));
    safe = λ i l f. rw (kept_key i f) (t.safe i l (kept i f));
    unique = λ i j li lj fi fj same.
        t.unique i j li lj (kept i fi) (kept j fj) (rw (kept_key i fi, kept_key j fj) at same);
  }

  pub full_count-remove : bucket_at bs place ≡ full → full_count n bs ≡ full_count n cleared + 1
  full_count-remove f =
      count_update _ _ place 0 n (rw (bucket_self n bs ks t place lt was_full)) (rw f)
        (λ j ne. rw (bucket_ne n bs ks t place lt was_full j (λ e. ne (sym e)))) (omega arith)
        (omega arith)

  module _ (k : K) (vs vs' : List K) (others : (j : ℕ) → place ≢ j → key_at vs' j ≡ key_at vs j)
      (f : bucket_at bs place ≡ full) (same : key.equal k (key_at ks place) ≡ true) where
    removed-IsAbsent : (q : K) → key.equal q k ≡ true → IsAbsent n cleared wiped q
    removed-IsAbsent q eq i l fi = elim (Bool-cases (key.equal q (key_at wiped i))) [
      | inr differs ↦ differs
      | inl held ↦
          let held' = rw (kept_key i fi) at held in
          let to_q = key.equal_symm _ _ (key.equal_trans _ _ _ eq same) in
          absurd (
            other_place i fi
              (t.unique place i lt l f (kept i fi) (key.equal_trans _ _ _ to_q held')))
    ]

    pub scan-remove :
        (q : K)
        → scan cleared wiped vs' q 0 n ≡ (if key.equal q k then none else scan bs ks vs q 0 n)
    scan-remove q = elim (Bool-cases (key.equal q k)) [
      | inl eq ↦ rw eq (scan-absent n cleared wiped remove-IsTable vs' q (removed-IsAbsent q eq))
      | inr other ↦ rw other (
          scan_ext n n bs cleared ks wiped vs vs' q t remove-IsTable
            (λ w (j, h).
              let ne : place ≢ j = λ e.
                let held = rw (← e) at h.same in
                let both = key.equal_trans _ _ _ held (key.equal_symm _ _ same) in cc in
              (
                j,
                HoldsAt-there n bs ks t place lt was_full key.nil vs vs' q w j ne (others j ne) h,
              ))
            (λ w (j, h).
              let ne = other_place j h.filled in
              (
                j,
                HoldsAt-back n bs ks t place lt was_full key.nil vs vs' q w j ne (others j ne) h,
              )))
    ]
