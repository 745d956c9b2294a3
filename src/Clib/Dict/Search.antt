-- ===== src/Clib/Dict/Search.antt =====
-- What a Dict holds, and that `dict_query` finds it.
use ripe.Prelude.{
  ℕ, zero, suc, ◌+◌, ◌*◌, ◌-◌, ◌^◌, ◌≤◌, ◌<◌, ◌≡◌, ◌⊎◌, inl, inr, refl, ◌∙◌, arith, Bool, true,
  false, Bool-cases, none, some, List, length, get_or, ℕ_discrete,
}
use ripe.Prelude.Outcome.{ok, at, at-get_or}
use ripe.Clib.Primes.Prime.{IsPrime}
use ripe.Clib.Probing.{probe, probe-lt, half_full, NoWrap}
use ripe.Clib.Probing.Count.{count}
use ripe.Clib.Dict.Key.{DictKey}
use ripe.Clib.Dict.{DictBucket, bucket_empty, bucket_full, Dict, find_from, dict_query}

-- a bucket of the table
abbrev pub bucket {ℓ κ} : {K : Type ℓ} {V : Type κ} → List (DictBucket K V) → ℕ → DictBucket K V
bucket bs j = get_or bs j bucket_empty

abbrev pub full? {ℓ κ} : {K : Type ℓ} {V : Type κ} → DictBucket K V → Bool
full? bucket_empty = false
full? (bucket_full k v) = true

pub bucket-cases {ℓ κ} :
    {K : Type ℓ} {V : Type κ} (b : DictBucket K V)
    → (b ≡ bucket_empty) ⊎ ((k : K) × (v : V) × (b ≡ bucket_full k v))
bucket-cases bucket_empty = inl refl
bucket-cases (bucket_full k v) = inr (k, v, refl)

module _ {ℓ κ} {K : Type ℓ} {V : Type κ} ⦃key : DictKey K⦄ where
  -- a bucket whose key is not equal to `q`
  abbrev pub Other : K → DictBucket K V → Type 0
  Other q bucket_empty = ⊥
  Other q (bucket_full k v) = key.equal_func q k ≡ false

  -- the `m` first probes for `q` meet other keys
  abbrev pub Passed : List (DictBucket K V) → ℕ → K → ℕ → Type 0
  Passed bs n q m = (i : ℕ) → i < m → Other q (bucket bs (probe (key.hash_func q) n i))

  -- a probe for `k` reaches its bucket
  pub record Reached (bs : List (DictBucket K V)) (n : ℕ) (k : K) (j : ℕ) : Type 0 where
    pub round : ℕ
    pub in_time : round < n
    pub there : probe (key.hash_func k) n round ≡ j
    pub passed : Passed bs n k round

  pub record IsTable (bs : List (DictBucket K V)) (n : ℕ) : Type (ℓ ⊔ κ) where
    pub width : length bs ≡ n
    pub prime : IsPrime n
    pub bounded : n ≤ 2 ^ 30
    pub positive : 0 < n
    pub reached : (j : ℕ) (k : K) (v : V) → j < n → bucket bs j ≡ bucket_full k v → Reached bs n k j
    pub fits :
        (j : ℕ) (k : K) (v : V) → j < n → bucket bs j ≡ bucket_full k v → NoWrap (key.hash_func k)

  -- the number of full buckets
  abbrev pub filled : List (DictBucket K V) → ℕ → ℕ
  filled bs n = count (λ j. full? (bucket bs j)) 0 n

  -- what the search for `q` meets
  pub data Search (bs : List (DictBucket K V)) (n : ℕ) (q : K) : Type (ℓ ⊔ κ) where
    vacant :
        (m : ℕ)
        → m < n
        → Passed bs n q m
        → bucket bs (probe (key.hash_func q) n m) ≡ bucket_empty
        → Search bs n q
    occupied :
        (m : ℕ) (k : K) (v : V)
        → m < n
        → Passed bs n q m
        → bucket bs (probe (key.hash_func q) n m) ≡ bucket_full k v
        → key.equal_func q k ≡ true
        → Search bs n q

  Passed-suc :
      (bs : List (DictBucket K V)) (n m : ℕ) (q : K)
      → Passed bs n q m
      → Other q (bucket bs (probe (key.hash_func q) n m))
      → Passed bs n q (suc m)
  Passed-suc bs n m q p o i lt = elim (ℕ_discrete i m) [
    | yes e ↦ rw e o
    | no ne ↦ p i (omega arith)
  ]

  -- the search from probe `m` on, which ends, since not all probes meet full buckets
  meets :
      (bs : List (DictBucket K V)) (n : ℕ) (q : K) (r m : ℕ)
      → m + r ≡ n
      → Passed bs n q m
      → ((p : Passed bs n q n) → ⊥)
      → Search bs n q
  meets bs n q zero m e p all = absurd (all (λ i lt. p i (omega arith)))
  meets bs n q (suc r) m e p all = elim (bucket-cases (bucket bs (probe (key.hash_func q) n m))) [
    | inl free ↦ vacant m (omega arith) p free
    | inr (k, v, taken) ↦ elim (Bool-cases (key.equal_func q k)) [
      | inl same ↦ occupied m k v (omega arith) p taken same
      | inr differs ↦
          meets bs n q r (suc m) (omega arith) (Passed-suc bs n m q p (rw taken differs)) all
    ]
  ]

  Other-full : (q : K) (b : DictBucket K V) → Other q b → full? b ≡ true
  Other-full q bucket_empty o = absurd o
  Other-full q (bucket_full k v) o = refl

  -- In a table of which less than half is full, the search for a key whose probes do not wrap ends.
  pub search :
      (bs : List (DictBucket K V)) (n : ℕ) (q : K)
      → IsTable bs n
      → NoWrap (key.hash_func q)
      → 2 * filled bs n < n
      → Search bs n q
  search bs n q t fits load =
      meets bs n q n 0 (omega arith) (λ i lt. absurd (omega arith))
        (λ p.
          let half =
            half_full (key.hash_func q) n (λ j. full? (bucket bs j)) t.prime t.bounded fits
              (λ j lt. Other-full q _ (p j lt)) in
          absurd (omega arith))

  -- The table holds `v` under the key `q`.
  pub record HoldsAt (bs : List (DictBucket K V)) (n : ℕ) (q : K) (v : V) (j : ℕ) (k : K)
      : Type (ℓ ⊔ κ) where
    pub below : j < n
    pub entry : bucket bs j ≡ bucket_full k v
    pub same : key.equal_func q k ≡ true

  abbrev pub Holds : List (DictBucket K V) → ℕ → K → V → Type (ℓ ⊔ κ)
  Holds bs n q v = (j : ℕ) × (k : K) × HoldsAt bs n q v j k

  pub Other-entry :
      (q : K) (b : DictBucket K V)
      → Other q b
      → (k : K) × (v : V) × (b ≡ bucket_full k v) × (key.equal_func q k ≡ false)
  Other-entry q bucket_empty o = absurd o
  Other-entry q (bucket_full k v) o = (k, v, refl, o)

  -- what a probe reads
  pub probed :
      (bs : List (DictBucket K V)) (n idx : ℕ) (q : K)
      → IsTable bs n
      → at bs (probe (key.hash_func q) n idx) ≡ ok (bucket bs (probe (key.hash_func q) n idx))
  probed bs n idx q t =
      at-get_or bs (probe (key.hash_func q) n idx) bucket_empty
        (omega (arith, probe-lt (key.hash_func q) n idx t.positive, t.width))

  find_from-Other :
      (bs : List (DictBucket K V)) (n f idx : ℕ) (q : K)
      → IsTable bs n
      → Other q (bucket bs (probe (key.hash_func q) n idx))
      → find_from q bs n (suc f) idx ≡ find_from q bs n f (idx + 1)
  unfolding find_from
  find_from-Other bs n f idx q t o =
      let (k, v, entry, differs) = Other-entry q _ o in
      rw (probed bs n idx q t, entry, find_from) (rw differs refl)

  -- the loop of `dict_query` over the probes that are passed
  find_from-Passed :
      (bs : List (DictBucket K V)) (n f idx r m : ℕ) (q : K)
      → IsTable bs n
      → Passed bs n q m
      → idx + f ≡ m + r
      → idx ≤ m
      → find_from q bs n f idx ≡ find_from q bs n r m
  find_from-Passed bs n zero idx r m q t p e le =
      let same : idx ≡ m = omega arith in
      let none_left : r ≡ zero = omega arith in rw (same, none_left) refl
  find_from-Passed bs n (suc f) idx r m q t p e le = elim (ℕ_discrete idx m) [
    | yes same ↦ let left : suc f ≡ r = omega arith in rw (same, left) refl
    | no other ↦
        find_from-Other bs n f idx q t (p idx (omega arith))
        ∙ find_from-Passed bs n f (idx + 1) r m q t p (omega arith) (omega arith)
  ]

  -- The search decides what `dict_query` returns.
  pub dict_query-vacant :
      (d : Dict K V) (m : ℕ) (q : K)
      → IsTable d.buckets d.alloc_size
      → m < d.alloc_size
      → Passed d.buckets d.alloc_size q m
      → bucket d.buckets (probe (key.hash_func q) d.alloc_size m) ≡ bucket_empty
      → dict_query d q ≡ ok none
  unfolding dict_query find_from
  dict_query-vacant d m q t lt p free =
      find_from-Passed d.buckets d.alloc_size d.alloc_size 0 (suc (d.alloc_size - suc m)) m q t p
        (omega arith) (omega arith)
      ∙ rw (probed d.buckets d.alloc_size m q t, free, find_from) refl

  pub dict_query-occupied :
      (d : Dict K V) (m : ℕ) (q k : K) (v : V)
      → IsTable d.buckets d.alloc_size
      → m < d.alloc_size
      → Passed d.buckets d.alloc_size q m
      → bucket d.buckets (probe (key.hash_func q) d.alloc_size m) ≡ bucket_full k v
      → key.equal_func q k ≡ true
      → dict_query d q ≡ ok (some v)
  unfolding dict_query find_from
  dict_query-occupied d m q k v t lt p entry same =
      find_from-Passed d.buckets d.alloc_size d.alloc_size 0 (suc (d.alloc_size - suc m)) m q t p
        (omega arith) (omega arith)
      ∙ rw (probed d.buckets d.alloc_size m q t, entry, find_from) (rw same refl)
