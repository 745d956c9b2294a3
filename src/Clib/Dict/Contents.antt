-- ===== src/Clib/Dict/Contents.antt =====
-- What `dict_query` returns, by what the table holds.
use ripe.Prelude.{
  ℕ, ◌*◌, ◌≤◌, ◌<◌, ◌≡◌, inl, inr, sym, ◌∙◌, arith, Bool, true, false, Bool-cases, ltb, ltb→lt,
  ltb→le, Option, none, some, List, ℕ_discrete,
}
use ripe.Prelude.Outcome.{Returns}
use ripe.Clib.Probing.{probe, probe-lt, NoWrap}
use ripe.Clib.Dict.Key.{DictKey}
use ripe.Clib.Dict.{DictBucket, bucket_empty, bucket_full, Dict, dict_query}
use ripe.Clib.Dict.Search.{
  bucket, Other, Passed, IsTable, filled, vacant, occupied, search, Holds, HoldsAt,
  dict_query-vacant, dict_query-occupied,
}

pub clash : {b : Bool} → b ≡ true → b ≡ false → ⊥
clash e f = cc

pub both {ℓ} :
    {K : Type ℓ} ⦃key : DictKey K⦄ (q k l : K)
    → key.equal_func q k ≡ true
    → key.equal_func q l ≡ true
    → key.equal_func k l ≡ true
both ⦃key⦄ q k l e f = key.equal_trans k q l (key.equal_symm q k e) f

module _ {ℓ κ} {K : Type ℓ} {V : Type κ} ⦃key : DictKey K⦄ where
  pub bucket_full-injective :
      (k l : K) (v w : V) → ◌≡◌ {A = DictBucket K V} (bucket_full k v) (bucket_full l w) → v ≡ w
  bucket_full-injective k l v w e = cc

  pub full_empty : (k : K) (v : V) → ◌≡◌ {A = DictBucket K V} (bucket_full k v) bucket_empty → ⊥
  full_empty k v e = cc

  -- a bucket that is passed for `q` has no equal key
  pub entry-Other :
      (q k : K) (v : V) (b : DictBucket K V)
      → Other q b
      → b ≡ bucket_full k v
      → key.equal_func q k ≡ false
  entry-Other q k v b o e = rw e at o

  module _ (bs : List (DictBucket K V)) (n : ℕ) (t : IsTable bs n) where
    -- the probe for `q` that is at the entry, behind those that pass
    record Reaching (q k : K) (m j : ℕ) : Type 0 where
      round : ℕ
      behind : m ≤ round
      there : probe (key.hash_func q) n round ≡ j
      passed : (i : ℕ) → i < round → Other k (bucket bs (probe (key.hash_func q) n i))

    reaching :
        (q k : K) (v : V) (m j : ℕ) → HoldsAt bs n q v j k → Passed bs n q m → Reaching q k m j
    reaching q k v m j h p =
        let r = t.reached j k v h.below h.entry in
        let hash = key.equal-hash q k h.same in
        let there : probe (key.hash_func q) n r.round ≡ j = rw hash r.there in
        record {
          round = r.round;
          behind = elim (Bool-cases (ltb r.round m)) [
            | inl early ↦
                let other = p r.round (ltb→lt _ _ early) in
                absurd (clash h.same (entry-Other q k v _ other (rw there h.entry)))
            | inr late ↦ ltb→le _ _ late
          ];
          there = there;
          passed = λ i lt. rw hash (r.passed i lt);
        }

    -- an empty bucket at the end of the search
    vacant-absent :
        (q : K) (m : ℕ)
        → Passed bs n q m
        → bucket bs (probe (key.hash_func q) n m) ≡ bucket_empty
        → (v : V) → Holds bs n q v
        → ⊥
    vacant-absent q m p free v (j, k, h) =
        let r = reaching q k v m j h p in
        elim (ℕ_discrete m r.round) [
          | yes same ↦
              let at_end : bucket bs j ≡ bucket_empty = rw (← r.there, ← same) free in
              full_empty k v (sym h.entry ∙ at_end)
          | no other ↦ rw free at (r.passed m (omega (arith, r.behind)))
        ]

    -- an equal key at the end of the search
    occupied_unique :
        (q l : K) (w : V) (m : ℕ)
        → Passed bs n q m
        → bucket bs (probe (key.hash_func q) n m) ≡ bucket_full l w
        → key.equal_func q l ≡ true
        → (v : V) → Holds bs n q v
        → v ≡ w
    occupied_unique q l w m p entry same v (j, k, h) =
        let r = reaching q k v m j h p in
        elim (ℕ_discrete m r.round) [
          | yes last ↦
              let at_end : bucket bs j ≡ bucket_full l w = rw (← r.there, ← last) entry in
              bucket_full-injective k l v w (sym h.entry ∙ at_end)
          | no other ↦ absurd (
              clash (both q k l h.same same)
                (entry-Other k l w _ (r.passed m (omega (arith, r.behind))) entry))
        ]

  -- what an answer of `dict_query` says of the table
  abbrev pub Answers : List (DictBucket K V) → ℕ → K → Option V → Type (ℓ ⊔ κ)
  Answers bs n q none = (v : V) → Holds bs n q v → ⊥
  Answers bs n q (some w) = Holds bs n q w × ((v : V) → Holds bs n q v → v ≡ w)

  pub dict_query-Answers :
      (d : Dict K V) (q : K)
      → IsTable d.buckets d.alloc_size
      → NoWrap (key.hash_func q)
      → 2 * filled d.buckets d.alloc_size < d.alloc_size
      → Returns (dict_query d q) (Answers d.buckets d.alloc_size q)
  dict_query-Answers d q t fits load = elim (search d.buckets d.alloc_size q t fits load) [
    | vacant m lt p free ↦ (
      none,
      dict_query-vacant d m q t lt p free,
      vacant-absent d.buckets d.alloc_size t q m p free,
    )
    | occupied m k v lt p entry same ↦ (
      some v,
      dict_query-occupied d m q k v t lt p entry same,
      (
        (
          probe (key.hash_func q) d.alloc_size m,
          k,
          record {
            below = probe-lt (key.hash_func q) d.alloc_size m t.positive;
            entry = entry;
            same = same;
          },
        ),
        occupied_unique d.buckets d.alloc_size t q k v m p entry same,
      ),
    )
  ]
