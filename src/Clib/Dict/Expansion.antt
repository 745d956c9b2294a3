-- ===== src/Clib/Dict/Expansion.antt =====
-- The move of a Dict to a larger table.
use ripe.Prelude.{
  ℕ, zero, suc, ◌+◌, ◌*◌, ◌^◌, ◌≤◌, ◌<◌, ◌≡◌, inl, inr, refl, sym, ap, ◌∙◌, arith, true, false,
  Bool-cases, ltb, ltb→lt, ltb→le, List, length-replicate, replicate, get_or-replicate, ℕ_discrete,
}
use ripe.Prelude.Outcome.{at-get_or, Returns}
use ripe.Clib.Primes.Prime.{IsPrime}
use ripe.Clib.Probing.{probe}
use ripe.Clib.Probing.Count.{count, count-add_one, count-none, count_mono, count-le}
use ripe.Clib.Dict.Key.{DictKey}
use ripe.Clib.Dict.{DictBucket, bucket_empty, bucket_full, set_bucket, expand_from}
use ripe.Clib.Dict.Search.{bucket, full?, IsTable, filled, Holds, HoldsAt, bucket-cases}
use ripe.Clib.Dict.Contents.{clash, both, full_empty, entry-Other, bucket_full-injective}
use ripe.Clib.Dict.Insertion.{key-injective, set_bucket-Inserted}

pub filled_none {ℓ κ} :
    (K : Type ℓ) (V : Type κ) (n : ℕ)
    → count (λ j. full? {K = K} {V = V} (bucket (replicate n bucket_empty) j)) 0 n ≡ 0
filled_none K V n =
    count-none (λ j. full? {K = K} {V = V} (bucket (replicate n bucket_empty) j)) 0 n
      (λ j. ap full? (get_or-replicate n j bucket_empty))

module _ {ℓ κ} {K : Type ℓ} {V : Type κ} ⦃key : DictKey K⦄ where
  pub empty-IsTable :
      (n : ℕ)
      → IsPrime n
      → n ≤ 2 ^ 30
      → 0 < n
      → IsTable {K = K} {V = V} (replicate n bucket_empty) n
  empty-IsTable n prime le pos = record {
    width = length-replicate n bucket_empty;
    prime = prime;
    bounded = le;
    positive = pos;
    reached = λ j k v below entry.
        absurd (full_empty k v (sym entry ∙ get_or-replicate n j bucket_empty));
    fits = λ j k v below entry.
        absurd (full_empty k v (sym entry ∙ get_or-replicate n j bucket_empty));
  }

  module _ (old : List (DictBucket K V)) (n : ℕ) (t : IsTable old n) where
    -- two buckets with keys equal to one another are one
    places_unique :
        (q k l : K) (v w : V) (i j : ℕ) → HoldsAt old n q v i k → HoldsAt old n q w j l → i ≡ j
    places_unique q k l v w i j a b =
        let r = t.reached i k v a.below a.entry in
        let s = t.reached j l w b.below b.entry in
        let same = both q k l a.same b.same in
        let hash = key.equal-hash k l same in
        let s_there : probe (key.hash_func k) n s.round ≡ j = rw hash s.there in
        let r_there : probe (key.hash_func l) n r.round ≡ i = rw (← hash) r.there in
        elim (ℕ_discrete r.round s.round) [
          | yes e ↦ sym r.there ∙ rw e s_there
          | no ne ↦ elim (Bool-cases (ltb r.round s.round)) [
            | inl early ↦ absurd (
                clash (key.equal_symm k l same)
                  (entry-Other l k v _ (s.passed r.round (ltb→lt _ _ early)) (rw r_there a.entry)))
            | inr late ↦
                let le : s.round ≤ r.round = ltb→le _ _ late in
                absurd (
                  clash same
                    (entry-Other k l w _ (r.passed s.round (omega arith)) (rw s_there b.entry)))
          ]
        ]

    -- the buckets before `i` are moved
    pub record Moved (i size : ℕ) (new : List (DictBucket K V)) : Type (ℓ ⊔ κ) where
      pub table : IsTable new size
      pub counted : filled new size ≡ count (λ j. full? (bucket old j)) 0 i
      pub there :
          (q : K) (v : V) (j : ℕ) (k : K) → j < i → HoldsAt old n q v j k → Holds new size q v
      pub back :
          (q : K) (v : V) → Holds new size q v → (j : ℕ) × (k : K) × (j < i) × HoldsAt old n q v j k

    skip_empty :
        (i size : ℕ) (new : List (DictBucket K V))
        → Moved i size new
        → bucket old i ≡ bucket_empty
        → Moved (i + 1) size new
    skip_empty i size new m free = record {
      table = m.table;
      counted =
          m.counted
          ∙ (let e = count-add_one (λ j. full? (bucket old j)) i in
              let f : full? (bucket old i) ≡ false = ap full? free in ground (arith, e, f));
      there = λ q v j k lt h. elim (ℕ_discrete j i) [
        | yes e ↦ absurd (full_empty k v (sym h.entry ∙ rw e free))
        | no ne ↦ m.there q v j k (omega arith) h
      ];
      back = λ q v h. let (j, k, lt, h') = m.back q v h in (j, k, omega arith, h');
    }

    move_full :
        (i size : ℕ) (k : K) (v : V) (new : List (DictBucket K V))
        → i < n
        → Moved i size new
        → bucket old i ≡ bucket_full k v
        → 2 * count (λ j. full? (bucket old j)) 0 n < size
        → Returns (set_bucket k v new size) (Moved (i + 1) size)
    move_full i size k v new lt m entry room =
        let here : HoldsAt old n k v i k = record {
          below = lt;
          entry = entry;
          same = key.equal_refl k;
        } in
        let fresh : (w : V) → Holds new size k w → ⊥ = λ w h.
          let (j, l, early, h') = m.back k w h in
          let e = places_unique k k l v w i j here h' in omega arith in
        let few = count_mono (λ j. full? (bucket old j)) 0 i n (omega arith) in
        let (new', run, ins) =
          set_bucket-Inserted new size k v m.table (t.fits i k v lt entry)
            (omega (arith, m.counted, few)) fresh in
        (
          new',
          run,
          record {
            table = ins.table;
            counted =
                (let e = count-add_one (λ j. full? (bucket old j)) i in
                  let f : full? (bucket old i) ≡ true = ap full? entry in
                  let c = ins.more in let d = m.counted in ground (arith, e, f, c, d));
            there = λ q w j l before h. elim (ℕ_discrete j i) [
              | yes e ↦
                  let here' : bucket_full l w ≡ bucket_full k v = sym h.entry ∙ rw e entry in
                  let q_same : key.equal_func q k ≡ true =
                    rw (key-injective l k w v here') at h.same in
                  rw (bucket_full-injective l k w v here') (ins.new q q_same)
              | no ne ↦ ins.kept q w (m.there q w j l (omega arith) h)
            ];
            back = λ q w h. elim (ins.back q w h) [
              | inl (same, is_v) ↦
                  (i, k, omega arith, record { below = lt; entry = rw is_v entry; same = same })
              | inr before ↦ let (j, l, early, h') = m.back q w before in (j, l, omega arith, h')
            ];
          },
        )

    pub expand_from-Moved :
        (r i size : ℕ) (new : List (DictBucket K V))
        → i + r ≡ n
        → Moved i size new
        → 2 * count (λ j. full? (bucket old j)) 0 n < size
        → Returns (expand_from r i old size new) (Moved n size)
    unfolding expand_from
    expand_from-Moved zero i size new e m room =
        let done : i ≡ n = omega arith in (new, refl, rw done at m)
    expand_from-Moved (suc r) i size new e m room =
        let found = at-get_or old i bucket_empty (omega (arith, t.width)) in
        elim (bucket-cases (bucket old i)) [
          | inl free ↦
              let (new', run, m') =
                expand_from-Moved r (i + 1) size new (omega arith) (skip_empty i size new m free)
                  room in
              (new', rw (found, free, expand_from) run, m')
          | inr (k, v, entry) ↦
              let (new1, run1, m1) = move_full i size k v new (omega arith) m entry room in
              let (new2, run2, m2) = expand_from-Moved r (i + 1) size new1 (omega arith) m1 room in
              (new2, rw (found, entry, expand_from) (rw run1 run2), m2)
        ]

    pub start-Moved :
        (size : ℕ)
        → IsPrime size
        → size ≤ 2 ^ 30
        → 0 < size
        → Moved 0 size (replicate size bucket_empty)
    start-Moved size prime le pos = record {
      table = empty-IsTable size prime le pos;
      counted = omega (arith, filled_none K V size, count-le (λ j. full? (bucket old j)) 0 0);
      there = λ q v j k lt h. absurd (omega arith);
      back = λ q v (j, k, h).
          absurd (full_empty k v (sym h.entry ∙ get_or-replicate size j bucket_empty));
    }
