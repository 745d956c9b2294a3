-- ===== src/Vm/HashTable/Query.antt =====
-- What `query` finds: the place of the key, or a place to put it.
use ripe.Prelude.{
  ℕ, zero, suc, ◌+◌, ◌*◌, ◌≤◌, ◌<◌, ◌≡◌, refl, subst, ◌≢◌, ◌⊎◌, inl, inr, sym, true, false, Option,
  none, some, List, arith, length, get_or, dec_lt, Bool-cases,
}
use ripe.Prelude.Outcome.{at-get_or, Returns}
use ripe.Clib.Primes.Prime.{IsPrime}
use ripe.Vm.Key.{Key}
use ripe.Vm.HashTable.{
  Bucket, empty, was_full, full, is_full, note_empty, empty_or, exhausted, query_from, query,
}
use ripe.Clib.Probing.Count.{count}
use ripe.Clib.Probing.{probe, probe-lt, NoWrap, half_full}

abbrev pub bucket_at : List Bucket → ℕ → Bucket
bucket_at bs i = get_or bs i empty

pub Bucket-cases : (b : Bucket) → (b ≡ empty) ⊎ (b ≡ was_full) ⊎ (b ≡ full)
Bucket-cases empty = inl refl
Bucket-cases was_full = inr (inl refl)
Bucket-cases full = inr (inr refl)

-- `place` is a probe from the hash `h`, and no probe before it is empty
abbrev pub IsReached : ℕ → List Bucket → ℕ → ℕ → Type 0
IsReached n bs h place =
    (idx : ℕ) × (idx < n)
    × (probe h n idx ≡ place)
    × ((j : ℕ) → j < idx → bucket_at bs (probe h n j) ≢ empty)

module _ {ℓ} {K : Type ℓ} ⦃key : Key K⦄ where
  abbrev pub key_at : List K → ℕ → K
  key_at ks i = get_or ks i key.nil

  abbrev pub IsAbsent : ℕ → List Bucket → List K → K → Type 0
  IsAbsent n bs ks k = (i : ℕ) → i < n → bucket_at bs i ≡ full → key.equal k (key_at ks i) ≡ false

  pub record IsTable (n : ℕ) (bs : List Bucket) (ks : List K) : Type 0 where
    pub width_buckets : length bs ≡ n
    pub width_keys : length ks ≡ n
    pub prime : IsPrime n
    pub least : 13 ≤ n
    pub most : n ≤ 536870909
    pub reached :
        (i : ℕ) → i < n → bucket_at bs i ≡ full → IsReached n bs (key.hash (key_at ks i)) i
    pub safe : (i : ℕ) → i < n → bucket_at bs i ≡ full → NoWrap (key.hash (key_at ks i))
    pub unique :
        (i j : ℕ)
        → i < n
        → j < n
        → bucket_at bs i ≡ full
        → bucket_at bs j ≡ full
        → key.equal (key_at ks i) (key_at ks j) ≡ true
        → i ≡ j

  pub data Answer (n : ℕ) (bs : List Bucket) (ks : List K) (k : K) (place : ℕ) : Type 0 where
    present :
        place < n
        → bucket_at bs place ≡ full
        → key.equal k (key_at ks place) ≡ true
        → Answer n bs ks k place
    absent :
        place < n
        → bucket_at bs place ≢ full
        → IsAbsent n bs ks k
        → IsReached n bs (key.hash k) place
        → Answer n bs ks k place

  module _ (n : ℕ) (bs : List Bucket) (ks : List K) (t : IsTable n bs ks) (k : K) where
    abbrev place_of : ℕ → ℕ
    place_of idx = probe (key.hash k) n idx

    -- the probes before `idx` are not empty, and hold other keys
    abbrev Passed : ℕ → Type 0
    Passed idx =
        (j : ℕ)
        → j < idx
        → (bucket_at bs (place_of j) ≢ empty)
          × (bucket_at bs (place_of j) ≡ full → key.equal k (key_at ks (place_of j)) ≡ false)

    -- what `first_empty` says of the probes before `idx`
    abbrev Noted : Option ℕ → ℕ → Type 0
    Noted none idx = (j : ℕ) → j < idx → bucket_at bs (place_of j) ≡ full
    Noted (some first) idx =
        (j : ℕ) × (j < idx) × (place_of j ≡ first) × (bucket_at bs first ≡ was_full)

    not-Passed :
        (idx i : ℕ)
        → Passed idx
        → (n ≤ idx) ⊎ (bucket_at bs (place_of idx) ≡ empty)
        → bucket_at bs i ≡ full
        → key.equal k (key_at ks i) ≡ true
        → ¬ (IsReached n bs (key.hash k) i)
    not-Passed idx i passed last f eq (idx', lt, here, before) = elim (dec_lt idx' idx) [
      | yes earlier ↦ let q = rw here at (passed idx' earlier) in cc (q.1 f)
      | no later ↦ elim last [
        | inl all ↦ absurd (omega arith)
        | inr stopped ↦ elim (dec_lt idx idx') [
          | yes l ↦ before idx l stopped
          | no l ↦
              let same : idx ≡ idx' = omega arith in
              let e : bucket_at bs i ≡ empty = rw (← here, ← same) stopped in cc
        ]
      ]
    ]

    IsAbsent-of_probes :
        (idx : ℕ)
        → Passed idx
        → (n ≤ idx) ⊎ (bucket_at bs (place_of idx) ≡ empty)
        → IsAbsent n bs ks k
    IsAbsent-of_probes idx passed last i lt f = elim (Bool-cases (key.equal k (key_at ks i))) [
      | inr differs ↦ differs
      | inl eq ↦
          let same = key.hash-equal k (key_at ks i) eq in
          absurd (
            not-Passed idx i passed last f eq
              (subst (λ h. IsReached n bs h i) (sym same) (t.reached i lt f)))
    ]

    Passed-suc :
        (idx : ℕ)
        → Passed idx
        → bucket_at bs (place_of idx) ≢ empty
        → (bucket_at bs (place_of idx) ≡ full → key.equal k (key_at ks (place_of idx)) ≡ false)
        → Passed (idx + 1)
    Passed-suc idx passed some_key other j lt = elim (dec_lt j idx) [
      | yes l ↦ passed j l
      | no l ↦ let e : j ≡ idx = omega arith in rw e (some_key, other)
    ]

    Noted-full :
        (first : Option ℕ) (idx : ℕ)
        → Noted first idx
        → bucket_at bs (place_of idx) ≡ full
        → Noted first (idx + 1)
    Noted-full none idx noted f = λ j lt. elim (dec_lt j idx) [
      | yes l ↦ noted j l
      | no l ↦ let e : j ≡ idx = omega arith in rw e f
    ]
    Noted-full (some first) idx (j, lt, here, b) f = (j, omega arith, here, b)

    Noted-was_full :
        (first : Option ℕ) (idx : ℕ)
        → Noted first idx
        → bucket_at bs (place_of idx) ≡ was_full
        → Noted (note_empty first (place_of idx)) (idx + 1)
    unfolding note_empty
    Noted-was_full none idx noted b = (idx, omega arith, refl, b)
    Noted-was_full (some first) idx (j, lt, here, b') b = (j, omega arith, here, b')

    -- a noted tombstone is a place for the key
    Answer-first :
        (first idx : ℕ)
        → idx ≤ n
        → Passed idx
        → Noted (some first) idx
        → IsAbsent n bs ks k
        → Answer n bs ks k first
    Answer-first first idx le passed (j, lt, here, b) gone =
        absent (rw (← here) (probe-lt (key.hash k) n j (omega (arith, t.least)))) (λ f. cc) gone
          (j, omega arith, here, λ i l. (passed i (omega arith)).0)

    Answer-empty :
        (first : Option ℕ) (idx : ℕ)
        → idx < n
        → Passed idx
        → Noted first idx
        → bucket_at bs (place_of idx) ≡ empty
        → Answer n bs ks k (empty_or first (place_of idx))
    unfolding empty_or
    Answer-empty none idx lt passed noted b =
        absent (probe-lt (key.hash k) n idx (omega (arith, t.least))) (λ f. cc)
          (IsAbsent-of_probes idx passed (inr b)) (idx, lt, refl, λ j l. (passed j l).0)
    Answer-empty (some first) idx lt passed noted b =
        Answer-first first idx (omega arith) passed noted (IsAbsent-of_probes idx passed (inr b))

    query_from-Answer :
        (rounds idx : ℕ) (first : Option ℕ)
        → rounds + idx ≡ n
        → Passed idx
        → Noted first idx
        → ¬ ((j : ℕ) → j < n → bucket_at bs (place_of j) ≡ full)
        → Returns (query_from bs ks n k rounds idx first) (Answer n bs ks k)
    unfolding query_from exhausted
    query_from-Answer zero idx none e passed noted room =
        absurd (room (λ j lt. noted j (omega arith)))
    query_from-Answer zero idx (some first) e passed noted room = (
      first,
      refl,
      Answer-first first idx (omega arith) passed noted
          (IsAbsent-of_probes idx passed (inl (omega arith))),
    )
    query_from-Answer (suc rounds) idx first e passed noted room =
        let place = place_of idx in
        let lt : place < n = probe-lt (key.hash k) n idx (omega (arith, t.least)) in
        let b = at-get_or bs place empty (omega (arith, t.width_buckets)) in
        let o = at-get_or ks place key.nil (omega (arith, t.width_keys)) in
        elim (Bucket-cases (bucket_at bs place)) [
          | inl stopped ↦ (
            empty_or first place,
            rw (b, stopped),
            Answer-empty first idx (omega arith) passed noted stopped,
          )
          | inr (inl gone) ↦
              rw (b, gone)
                (query_from-Answer rounds (idx + 1) (note_empty first place) (omega arith)
                  (Passed-suc idx passed (λ c. cc) (λ c. cc)) (Noted-was_full first idx noted gone)
                  room)
          | inr (inr f) ↦ elim (Bool-cases (key.equal k (key_at ks place))) [
            | inl same ↦ (place, rw (b, f, o, same), present lt f same)
            | inr other ↦
                rw (b, f, o, other)
                  (query_from-Answer rounds (idx + 1) first (omega arith)
                    (Passed-suc idx passed (λ c. cc) (λ c. other)) (Noted-full first idx noted f)
                    room)
          ]
        ]

    -- `query` returns if fewer than half of the buckets are full and no probe of the key wraps:
    -- the place of the key if the table has it, else a free place that its probes reach.
    pub query-Answer :
        NoWrap (key.hash k)
        → 2 * count (λ i. is_full (bucket_at bs i)) 0 n < n
        → Returns (query bs ks n k) (Answer n bs ks k)
    unfolding query
    query-Answer fits load =
        query_from-Answer n 0 none (omega arith) (λ j lt. absurd (omega arith))
          (λ j lt. absurd (omega arith))
          (λ all. absurd (
            omega (
              arith,
              half_full (key.hash k) n (λ i. is_full (bucket_at bs i)) t.prime
                  (omega (arith, t.most)) fits (λ j lt. rw (all j lt)),
            )))
