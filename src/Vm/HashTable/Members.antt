-- ===== src/Vm/HashTable/Members.antt =====
-- `ht_set` and `ht_remove` against the abstract set.
use ripe.Prelude.{
  ℕ, ◌+◌, ◌-◌, ◌*◌, ◌%◌, ◌^◌, ◌<◌, ◌≡◌, refl, inl, inr, sym, ap, ◌∙◌, true, false, List, arith,
  Option, none, some, if◌then◌else◌, Bool, Bool-cases, set, is_some, not, ◌&&◌, ◌||◌,
}
use ripe.Prelude.Outcome.{put-set, Returns}
use ripe.Vm.Key.{Key}
use ripe.Vm.HashTable.{HashTable, Bucket, was_full, ht_set, ht_remove}
use ripe.Clib.Probing.{NoWrap}
use ripe.Vm.HashTable.Query.{bucket_at, key_at, Bucket-cases, IsAbsent, present, absent}
use ripe.Vm.HashTable.View.{scan_iff, scan-absent, member}
use ripe.Vm.HashTable.Update.{get_or-set_ne}
use ripe.Vm.HashTable.Removal.{remove-IsTable, full_count-remove, scan-remove}
use ripe.Vm.HashTable.Insertion.{add_key-Added}
use ripe.Vm.HashTable.Methods.{IsValid, valid_query, read_bucket}

is_some-if {ℓ} :
    {A : Type ℓ} (b : Bool) (a : A) (o : Option A)
    → is_some (if b then some a else o) ≡ b || is_some o
is_some-if true a o = refl
is_some-if false a o = refl

is_some-unless {ℓ} :
    {A : Type ℓ} (b : Bool) (o : Option A) → is_some (if b then none else o) ≡ not b && is_some o
is_some-unless true o = refl
is_some-unless false o = refl

module _ {ℓ} {K : Type ℓ} ⦃key : Key K⦄ where
  IsAbsent-congr :
      (n : ℕ) (bs : List Bucket) (ks : List K) (k q : K)
      → key.equal q k ≡ true
      → IsAbsent n bs ks k
      → IsAbsent n bs ks q
  IsAbsent-congr n bs ks k q eq gone i lt f = elim (Bool-cases (key.equal q (key_at ks i))) [
    | inr differs ↦ differs
    | inl held ↦
        let differs = gone i lt f in
        let both = key.equal_trans _ _ _ (key.equal_symm _ _ eq) held in absurd (cc)
  ]

  -- For a key whose probes do not wrap, ht_set on a well-formed set that is not at its largest
  -- returns a well-formed set, which has an element equal to a key exactly if the key is equal to
  -- the given one or the old set had one, and counts one element more exactly if the old set had no
  -- equal element.
  pub ht_set-member :
      (ht : HashTable K) (k : K)
      → IsValid false ht
      → NoWrap (key.hash k)
      → 2 * (ht.size + 1) < 536870909
      → Returns (ht_set ht k) (λ r.
        IsValid false r
        × (r.size ≡ (if is_some (member ht k) then ht.size else ht.size + 1))
        × ((q : K) → is_some (member r q) ≡ key.equal q k || is_some (member ht q)))
  unfolding ht_set member
  ht_set-member ht k valid fits more =
      let (place, run, answer) = valid_query k valid fits in
      let n = ht.alloc_size in
      let t = valid.table in
      elim answer [
        | present lt f same ↦ (
          ht,
          rw run (rw (read_bucket ht place valid lt, f)),
          (
            valid,
            rw (
                scan_iff n ht.buckets ht.keys t ht.keys k (key_at ht.keys place)
                  (place, record { below = lt; filled = f; same = same; value = refl })),
            λ q. elim (Bool-cases (key.equal q k)) [
              | inr other ↦ rw other
              | inl eq ↦ rw (
                eq,
                scan_iff n ht.buckets ht.keys t ht.keys q (key_at ht.keys place) (
                  place,
                  record {
                    below = lt;
                    filled = f;
                    same = key.equal_trans _ _ _ eq same;
                    value = refl;
                  },
                ),
              )
            ],
          ),
        )
        | absent lt free gone way ↦
            let (r, added, (a, size)) =
              add_key-Added false ht place k k t valid.values lt free gone way fits valid.load
                valid.counted more in
            (
              r,
              rw run (
                  rw (read_bucket ht place valid lt)
                    (elim (Bucket-cases (bucket_at ht.buckets place)) [
                      | inl e ↦ rw e added
                      | inr (inl e) ↦ rw e added
                      | inr (inr e) ↦ absurd (free e)
                    ])),
              (
                record {
                  table = a.table;
                  values = a.values;
                  load = omega (arith, a.load, a.counted, valid.counted);
                  counted = a.counted ∙ ap (λ c. c + 1) valid.counted ∙ sym size;
                },
                rw (scan-absent n ht.buckets ht.keys t ht.keys k gone) size,
                λ q. rw (a.members q) (is_some-if (key.equal q k) k _),
              ),
            )
      ]

  -- For a key whose probes do not wrap, ht_remove on a well-formed set says whether the set had an
  -- element equal to the key, and returns a well-formed set without it: it has an element equal to a
  -- key exactly if the key is not equal to the given one and the old set had one, and it counts one
  -- less exactly if one was removed.
  pub ht_remove-member :
      (ht : HashTable K) (k : K)
      → IsValid false ht
      → NoWrap (key.hash k)
      → Returns (ht_remove ht k) (λ r.
        IsValid false r.0
        × (r.1 ≡ is_some (member ht k))
        × (r.0.size + (if is_some (member ht k) then 1 else 0) ≡ ht.size)
        × ((q : K) → is_some (member r.0 q) ≡ not (key.equal q k) && is_some (member ht q)))
  unfolding ht_remove member
  ht_remove-member ht k valid fits =
      let (place, run, answer) = valid_query k valid fits in
      let n = ht.alloc_size in
      let t = valid.table in
      elim answer [
        | present lt f same ↦
            let less = full_count-remove n ht.buckets ht.keys t place lt f in
            let found =
              scan_iff n ht.buckets ht.keys t ht.keys k (key_at ht.keys place)
                (place, record { below = lt; filled = f; same = same; value = refl }) in
            let size : (ht.size + 2 ^ 64 - 1) % 2 ^ 64 + 1 ≡ ht.size =
              omega (arith, less, valid.counted, valid.load, t.most) in
            (
              (
                record ht {
                  size = (ht.size + 2 ^ 64 - 1) % 2 ^ 64;
                  buckets = set ht.buckets place was_full;
                  keys = set ht.keys place key.nil;
                },
                true,
              ),
              rw run (
                  rw (read_bucket ht place valid lt, f)
                    (rw (put-set ht.buckets place was_full (omega (arith, t.width_buckets)))
                      (rw (put-set ht.keys place key.nil (omega (arith, t.width_keys)))))),
              (
                record {
                  table = remove-IsTable n ht.buckets ht.keys t place lt;
                  values = λ c. cc;
                  load = omega (arith, valid.load);
                  counted = omega (arith, less, valid.counted);
                },
                rw found,
                rw found size,
                λ q.
                    rw
                      (scan-remove n ht.buckets ht.keys t place lt k ht.keys
                        (set ht.keys place key.nil)
                        (λ j ne.
                          get_or-set_ne ht.keys place j key.nil key.nil
                            (omega (arith, t.width_keys)) ne)
                        f same q)
                      (is_some-unless (key.equal q k) _),
              ),
            )
        | absent lt free gone way ↦
            let none_held = scan-absent n ht.buckets ht.keys t ht.keys k gone in
            (
              (ht, false),
              rw run (
                  rw (read_bucket ht place valid lt)
                    (elim (Bucket-cases (bucket_at ht.buckets place)) [
                      | inl e ↦ rw e
                      | inr (inl e) ↦ rw e
                      | inr (inr e) ↦ absurd (free e)
                    ])),
              (
                valid,
                rw none_held,
                rw none_held (omega arith),
                λ q. elim (Bool-cases (key.equal q k)) [
                  | inr other ↦ rw other
                  | inl eq ↦ rw (
                    eq,
                    scan-absent n ht.buckets ht.keys t ht.keys q
                        (IsAbsent-congr n ht.buckets ht.keys k q eq gone),
                  )
                ],
              ),
            )
      ]
