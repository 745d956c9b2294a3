-- ===== src/Vm/HashTable/Writes.antt =====
-- `ht_set2` against the abstract map.
use ripe.Prelude.{
  ◌+◌, ◌*◌, ◌<◌, ◌≡◌, refl, inl, inr, sym, ap, ◌∙◌, true, arith, some, if◌then◌else◌, set,
  length-set, is_some,
}
use ripe.Prelude.Outcome.{Returns}
use ripe.Vm.Key.{Key}
use ripe.Vm.HashTable.{HashTable, ht_set2}
use ripe.Clib.Probing.{NoWrap}
use ripe.Vm.HashTable.Query.{bucket_at, key_at, Bucket-cases, present, absent}
use ripe.Vm.HashTable.View.{listed, scan_iff, scan-absent, view}
use ripe.Vm.HashTable.Effects.{scan-replace}
use ripe.Vm.HashTable.Moves.{put_value-set}
use ripe.Vm.HashTable.Insertion.{add_key-Added}
use ripe.Vm.HashTable.Methods.{IsValid, valid_query, read_bucket}

module _ {ℓ} {K : Type ℓ} ⦃key : Key K⦄ where
  -- For a key whose probes do not wrap, ht_set2 on a well-formed map that is not at its largest
  -- returns a well-formed map, which holds the value under the keys equal to the given one and what
  -- it held under all others, and counts one key more exactly if the map had no such key.
  pub ht_set2-view :
      (ht : HashTable K) (k v : K)
      → IsValid true ht
      → NoWrap (key.hash k)
      → 2 * (ht.size + 1) < 536870909
      → Returns (ht_set2 ht k v) (λ r.
        IsValid true r
        × (r.size ≡ (if is_some (view ht k) then ht.size else ht.size + 1))
        × ((q : K) → view r q ≡ (if key.equal q k then some v else view ht q)))
  unfolding ht_set2 view
  ht_set2-view ht k v valid fits more =
      let (place, run, answer) = valid_query k valid fits in
      let (stored, width) = valid.values refl in
      let n = ht.alloc_size in
      let t = valid.table in
      let vs = listed ht.values in
      elim answer [
        | present lt f same ↦
            let found =
              scan_iff n ht.buckets ht.keys t vs k (key_at vs place)
                (place, record { below = lt; filled = f; same = same; value = refl }) in
            (
              record ht { values = some (set vs place v) },
              rw run (
                  rw (read_bucket ht place valid lt, f)
                    (rw (put_value-set n place ht.values v valid.values lt))),
              (
                record {
                  table = t;
                  values = λ _. (refl, length-set vs place v ∙ width);
                  load = valid.load;
                  counted = valid.counted;
                },
                rw found,
                scan-replace n ht.buckets ht.keys t place lt k v vs width f same,
              ),
            )
        | absent lt free gone way ↦
            let (r, added, (a, size)) =
              add_key-Added true ht place k v t valid.values lt free gone way fits valid.load
                valid.counted more in
            (
              r,
              rw run (
                  rw (read_bucket ht place valid lt)
                    (elim (Bucket-cases (bucket_at ht.buckets place)) [
                      | inl e ↦ rw e added
                      | inr (inl e) ↦ rw e added
                      | inr (inr e) ↦ absurd (free e)
                    ])),
              (
                record {
                  table = a.table;
                  values = a.values;
                  load = omega (arith, a.load, a.counted, valid.counted);
                  counted = a.counted ∙ ap (λ c. c + 1) valid.counted ∙ sym size;
                },
                rw (scan-absent n ht.buckets ht.keys t vs k gone) size,
                a.mapped refl,
              ),
            )
      ]
