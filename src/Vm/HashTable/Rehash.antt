-- ===== src/Vm/HashTable/Rehash.antt =====
-- `rehash` moves every entry to a larger table, once each, and loses none.
use ripe.Prelude.{
  ℕ, zero, suc, ◌+◌, ◌*◌, ◌^◌, ◌≤◌, ◌<◌, ◌≡◌, refl, ◌≢◌, inl, inr, sym, subst, ◌∙◌, true, false,
  List, arith, none, some, if◌then◌else◌, Bool, replicate, length-replicate, get_or-replicate,
  lt→ltb,
}
use ripe.Prelude.Int.{pos, of_word}
use ripe.Prelude.Outcome.{ok, at-get_or, put-set, Returns}
use ripe.Clib.Primes.Choice.{IsChosen, used_sizes, used_sizes-le, used_sizes-ge, map_prime_lem}
use ripe.Vm.Key.{Key}
use ripe.Vm.HashTable.{HashTable, Arrays, empty, full, is_full, rehash_step, rehash_from, rehash}
use ripe.Clib.Probing.Count.{count-le, count_mono}
use ripe.Vm.HashTable.Query.{
  bucket_at, key_at, Bucket-cases, IsTable, present, absent, query-Answer,
}
use ripe.Vm.HashTable.View.{scan, scan_ext}
use ripe.Vm.HashTable.Effects.{full_count, empty-IsTable, full_count-empty}
use ripe.Vm.HashTable.Moves.{
  HasValues, copy_value-Copies, IsCopy, Moved, Moved-skip, moved, moved-Moved,
}

module _ {ℓ} {K : Type ℓ} ⦃key : Key K⦄ (ht : HashTable K) (do_values : Bool)
    (told : IsTable ht.alloc_size ht.buckets ht.keys)
    (old_values : HasValues do_values ht.alloc_size ht.values) (n : ℕ) where
  abbrev MovedTo : ℕ → Arrays K → Type ℓ
  MovedTo i new = Moved ht do_values told old_values n i new

  step_full :
      (i : ℕ) (new : Arrays K)
      → 2 * full_count ht.alloc_size ht.buckets < n
      → i < ht.alloc_size
      → bucket_at ht.buckets i ≡ full
      → MovedTo i new
      → Returns (rehash_step ht do_values n i new) (MovedTo (i + 1))
  unfolding rehash_step
  step_full i new room li f m =
      let k = key_at ht.keys i in
      let few =
        count_mono (λ j. is_full (bucket_at ht.buckets j)) 0 i ht.alloc_size (omega arith) in
      let (place, run, answer) =
        query-Answer n new.new_buckets new.new_keys m.table k (told.safe i li f)
          (omega (arith, m.counted)) in
      elim answer [
        | present lt fp same ↦
            let (j, lj, c) = m.back place lt fp in
            let e = told.unique i j li c.old_below f c.old_filled (rw c.same_key at same) in
            absurd (omega arith)
        | absent lt free gone way ↦
            let (vs, copied, c) =
              copy_value-Copies ht do_values n i place new.new_values old_values m.values li lt in
            (
              moved ht do_values told old_values n i new li f m place lt free gone way vs c,
              rw (at-get_or ht.buckets i empty (omega (arith, told.width_buckets)), f)
                  (rw (at-get_or ht.keys i key.nil (omega (arith, told.width_keys)), run)
                    (rw (put-set new.new_buckets place full (omega (arith, m.table.width_buckets)))
                      (rw (
                        put-set new.new_keys place k (omega (arith, m.table.width_keys)),
                        copied,
                      )))),
              moved-Moved ht do_values told old_values n i new li f m place lt free gone way vs c,
            )
      ]

  step_other :
      (i : ℕ) (new : Arrays K)
      → i < ht.alloc_size
      → bucket_at ht.buckets i ≢ full
      → MovedTo i new
      → Returns (rehash_step ht do_values n i new) (MovedTo (i + 1))
  unfolding rehash_step
  step_other i new li free m =
      let read = at-get_or ht.buckets i empty (omega (arith, told.width_buckets)) in
      let m' = Moved-skip ht do_values told old_values n i new free m in
      elim (Bucket-cases (bucket_at ht.buckets i)) [
        | inl e ↦ (new, rw (read, e), m')
        | inr (inl e) ↦ (new, rw (read, e), m')
        | inr (inr e) ↦ absurd (free e)
      ]

  rehash_from-Moved :
      (rounds i : ℕ) (new : Arrays K)
      → 2 * full_count ht.alloc_size ht.buckets < n
      → rounds + i ≡ ht.alloc_size
      → MovedTo i new
      → Returns (rehash_from ht do_values n rounds i new) (MovedTo ht.alloc_size)
  unfolding rehash_from
  rehash_from-Moved zero i new room e m =
      let e' : i ≡ ht.alloc_size = omega arith in (new, refl, subst (λ r. MovedTo r new) e' m)
  rehash_from-Moved (suc rounds) i new room e m =
      let li : i < ht.alloc_size = omega arith in
      let step : Returns (rehash_step ht do_values n i new) (MovedTo (i + 1)) =
        elim (Bucket-cases (bucket_at ht.buckets i)) [
          | inl b ↦ step_other i new li (λ f. cc) m
          | inr (inl b) ↦ step_other i new li (λ f. cc) m
          | inr (inr f) ↦ step_full i new room li f m
        ] in
      rw step.1 (rehash_from-Moved rounds (i + 1) step.0 room (omega arith) step.2)

module _ {ℓ} {K : Type ℓ} ⦃key : Key K⦄ where
  abbrev fresh : Bool → ℕ → Arrays K
  fresh do_values n = record {
    new_buckets = replicate n empty;
    new_keys = replicate n key.nil;
    new_values = if do_values then some (replicate n key.nil) else none;
  }

  fresh-HasValues :
      (do_values : Bool) (n : ℕ) → HasValues do_values n (fresh do_values n).new_values
  fresh-HasValues true n = λ _. (refl, length-replicate n key.nil)
  fresh-HasValues false n = λ c. cc

  -- the table that `rehash` leaves
  abbrev pub rehashed : HashTable K → Bool → ℕ → Arrays K → HashTable K
  rehashed ht do_values n new = record ht {
    alloc_size = n;
    buckets = new.new_buckets;
    keys = new.new_keys;
    values = if do_values then new.new_values else ht.values;
  }

  module _ (ht : HashTable K) (do_values : Bool) (told : IsTable ht.alloc_size ht.buckets ht.keys)
      (old_values : HasValues do_values ht.alloc_size ht.values) where
    fresh-Moved :
        (n : ℕ)
        → IsChosen (pos ht.alloc_size) used_sizes n
        → Moved ht do_values told old_values n 0 (fresh do_values n)
    fresh-Moved n c =
        let t = empty-IsTable n c.prime (used_sizes-ge n c.entry) (used_sizes-le n c.entry) in
        record {
          table = t;
          values = fresh-HasValues do_values n;
          counted =
              omega
                (arith, full_count-empty n, count-le (λ j. is_full (bucket_at ht.buckets j)) 0 0);
          there = λ j lj f. elim lj [ ];
          back = λ p l f. let e = get_or-replicate n p empty in absurd (cc);
        }

    -- `rehash` returns a larger table that holds a copy of each entry, and nothing else
    pub rehash-Moved :
        2 * full_count ht.alloc_size ht.buckets ≤ ht.alloc_size
        → ht.alloc_size < 536870909
        → (n : ℕ) × (new : Arrays K) × (rehash ht do_values ≡ ok (rehashed ht do_values n new))
          × (ht.alloc_size < n)
          × Moved ht do_values told old_values n ht.alloc_size new
    unfolding rehash
    rehash-Moved load more =
        let (n, chosen, c) = (map_prime_lem (pos ht.alloc_size)).0 (omega arith) in
        let signed : of_word ht.alloc_size ≡ pos ht.alloc_size =
          rw (lt→ltb ht.alloc_size (2 ^ 63) (omega arith)) in
        let larger : ht.alloc_size < n = omega (arith, c.above) in
        let (new, run, m) =
          rehash_from-Moved ht do_values told old_values n ht.alloc_size 0 (fresh do_values n)
            (omega arith) (omega arith) (fresh-Moved n c) in
        (n, new, rw (signed, chosen) (rw run), larger, m)

    -- the copies hold the same map
    pub scan-rehash :
        (n : ℕ) (new : Arrays K) (vs vs' : List K)
        → Moved ht do_values told old_values n ht.alloc_size new
        → ((j p : ℕ) → IsCopy ht do_values told old_values n new j p → key_at vs' p ≡ key_at vs j)
        → (q : K)
        → scan new.new_buckets new.new_keys vs' q 0 n ≡ scan ht.buckets ht.keys vs q 0 ht.alloc_size
    scan-rehash n new vs vs' m values q =
        scan_ext ht.alloc_size n ht.buckets new.new_buckets ht.keys new.new_keys vs vs' q told
          m.table
          (λ v (j, h).
            let (p, c) = m.there j h.below h.filled in
            (
              p,
              record {
                below = c.below;
                filled = c.filled;
                same = rw c.same_key h.same;
                value = values j p c ∙ h.value;
              },
            ))
          (λ v (p, h).
            let (j, lj, c) = m.back p h.below h.filled in
            (
              j,
              record {
                below = c.old_below;
                filled = c.old_filled;
                same = rw c.same_key at h.same;
                value = sym (values j p c) ∙ h.value;
              },
            ))
