-- ===== src/Clib/Dict/Repetition.antt =====
-- `set` in a table of 13 buckets in which only one key was set, again and again.
use ripe.Prelude.{
  ℕ, zero, suc, ◌+◌, ◌-◌, ◌*◌, ◌%◌, ◌≤◌, ◌<◌, ◌≡◌, ◌≢◌, inl, inr, refl, sym, ◌∙◌, arith, true, ◌==◌,
  ==→eq, ==_self, Bool-cases, ltb, ltb→lt, ltb→le, List, length, length-set, get_or-set, set,
  ℕ_discrete, if◌then◌else◌,
}
use ripe.Prelude.Outcome.{ok, stop, assertion, at, at-get_or, put-set, Returns}
use ripe.Clib.Primes.Prime.{sizes-AllPrime}
use ripe.Clib.Probing.{probe, probe-lt, probe_lem, probe_differ, NoWrap}
use ripe.Clib.Dict.Key.{DictKey}
use ripe.Clib.Dict.{DictBucket, bucket_empty, bucket_full, set_from}
use ripe.Clib.Dict.Search.{bucket}

mirrored_squares : (h j : ℕ) → j < 6 → (h + (7 + j) * (7 + j)) % 13 ≡ (h + (6 - j) * (6 - j)) % 13
mirrored_squares h zero lt = omega arith
mirrored_squares h (suc zero) lt = omega arith
mirrored_squares h (suc (suc zero)) lt = omega arith
mirrored_squares h (suc (suc (suc zero))) lt = omega arith
mirrored_squares h (suc (suc (suc (suc zero)))) lt = omega arith
mirrored_squares h (suc (suc (suc (suc (suc zero))))) lt = omega arith
mirrored_squares h (suc (suc (suc (suc (suc (suc j)))))) lt = absurd (omega arith)

module _ {ℓ} {K : Type ℓ} ⦃key : DictKey K⦄ (k : K) where
  abbrev pub place : ℕ → ℕ
  place i = probe (key.hash_func k) 13 i

  pub place-lt : (i : ℕ) → place i < 13
  place-lt i = probe-lt (key.hash_func k) 13 i (omega arith)

  -- the probes from the eighth on repeat the first seven
  mirrored : NoWrap (key.hash_func k) → (i : ℕ) → 6 < i → i < 13 → place i ≡ place (13 - i)
  mirrored fits i late early =
      let j = i - 7 in
      let this : 7 + j ≡ i = omega arith in
      let that : 6 - j ≡ 13 - i = omega arith in
      let same : (key.hash_func k + i * i) % 13 ≡ (key.hash_func k + (13 - i) * (13 - i)) % 13 =
        rw (this, that) at (mirrored_squares (key.hash_func k) j (omega arith)) in
      probe_lem (key.hash_func k) 13 i (omega arith) fits early
      ∙ same
      ∙ sym (probe_lem (key.hash_func k) 13 (13 - i) (omega arith) fits (omega arith))

  module _ {κ} {V : Type κ} where
    abbrev IsOwn : DictBucket K V → Type 0
    IsOwn bucket_empty = ⊥
    IsOwn (bucket_full l w) = key.equal_func k l ≡ true

    pub own-entry :
        (b : DictBucket K V)
        → IsOwn b
        → (l : K) × (w : V) × (b ≡ bucket_full l w) × (key.equal_func k l ≡ true)
    own-entry bucket_empty o = absurd o
    own-entry (bucket_full l w) o = (l, w, refl, o)

    -- In a table of 13 buckets the key fills its `m` first probes, and nothing else is full.
    pub record Repeated (bs : List (DictBucket K V)) (m : ℕ) : Type (ℓ ⊔ κ) where
      pub width : length bs ≡ 13
      pub own : (i : ℕ) → i < m → IsOwn (bucket bs (place i))
      pub free : (j : ℕ) → ((i : ℕ) → i < m → place i ≢ j) → bucket bs j ≡ bucket_empty

    pub read :
        (bs : List (DictBucket K V)) (i : ℕ)
        → length bs ≡ 13
        → at bs (place i) ≡ ok (bucket bs (place i))
    read bs i w = at-get_or bs (place i) bucket_empty (omega (arith, place-lt i))

    written :
        (bs : List (DictBucket K V)) (i j : ℕ) (b : DictBucket K V)
        → length bs ≡ 13
        → bucket (set bs (place i) b) j ≡ (if place i == j then b else bucket bs j)
    written bs i j b w = get_or-set bs (place i) j b bucket_empty (omega (arith, place-lt i))

    -- a bucket of the key's own is written at one of its probes
    set-IsOwn :
        (bs : List (DictBucket K V)) (i j : ℕ) (l : K) (w : V)
        → length bs ≡ 13
        → key.equal_func k l ≡ true
        → IsOwn (bucket bs j)
        → IsOwn (bucket (set bs (place i) (bucket_full l w)) j)
    set-IsOwn bs i j l w width same o = elim (Bool-cases (place i == j)) [
      | inl here ↦ rw (written bs i j (bucket_full l w) width, here) same
      | inr apart ↦ rw (written bs i j (bucket_full l w) width, apart) o
    ]

    update-Repeated :
        (bs : List (DictBucket K V)) (i m : ℕ) (l : K) (w : V)
        → Repeated bs m
        → i < m
        → key.equal_func k l ≡ true
        → Repeated (set bs (place i) (bucket_full l w)) m
    update-Repeated bs i m l w h lt same = record {
      width = length-set bs (place i) (bucket_full l w) ∙ h.width;
      own = λ j early. set-IsOwn bs i (place j) l w h.width same (h.own j early);
      free = λ j apart.
          written bs i j (bucket_full l w) h.width ∙ (elim (Bool-cases (place i == j)) [
            | inl here ↦ absurd (apart i lt (==→eq (place i) j here))
            | inr other ↦ rw other (h.free j apart)
          ]);
    }

    fill-Repeated :
        (bs : List (DictBucket K V)) (m : ℕ) (v : V)
        → Repeated bs m
        → Repeated (set bs (place m) (bucket_full k v)) (m + 1)
    fill-Repeated bs m v h = record {
      width = length-set bs (place m) (bucket_full k v) ∙ h.width;
      own = λ j early. elim (ℕ_discrete j m) [
        | yes e ↦
            rw (e, written bs m (place m) (bucket_full k v) h.width, ==_self (place m))
              (key.equal_refl k)
        | no ne ↦ set-IsOwn bs m (place j) k v h.width (key.equal_refl k) (h.own j (omega arith))
      ];
      free = λ j apart.
          written bs m j (bucket_full k v) h.width ∙ (elim (Bool-cases (place m == j)) [
            | inl here ↦ absurd (apart m (omega arith) (==→eq (place m) j here))
            | inr other ↦ rw other (h.free j (λ i early. apart i (omega arith)))
          ]);
    }

    -- the loop of `set` with an empty bucket at probe `m`
    pub set_from-Repeated :
        NoWrap (key.hash_func k)
        → (bs : List (DictBucket K V)) (v : V) (r idx m : ℕ) → Repeated bs m
        → idx ≤ m
        → m < 7
        → idx + r ≡ 13
        → Returns (set_from k v 13 r idx bs) (λ bs'. Repeated bs' (m + 1))
    unfolding set_from
    set_from-Repeated fits bs v zero idx m h le few e = absurd (omega arith)
    set_from-Repeated fits bs v (suc r) idx m h le few e = elim (ℕ_discrete idx m) [
      | yes same ↦
          let empty : bucket bs (place idx) ≡ bucket_empty = h.free (place idx) (λ i early.
            rw same (
              probe_differ (key.hash_func k) 13 i m (sizes-AllPrime.0) (omega arith) fits early
                (omega arith))) in
          (
            set bs (place idx) (bucket_full k v),
            rw (read bs idx h.width, empty, set_from)
                (put-set bs (place idx) (bucket_full k v) (omega (arith, place-lt idx, h.width))),
            rw same (fill-Repeated bs m v h),
          )
      | no other ↦
          let (l, w, entry, own) = own-entry _ (h.own idx (omega arith)) in
          let (bs', run, h') =
            set_from-Repeated fits (set bs (place idx) (bucket_full l v)) v r (idx + 1) m
              (update-Repeated bs idx m l v h (omega arith) own) (omega arith) few (omega arith) in
          (
            bs',
            rw (read bs idx h.width, entry, set_from)
                (rw own (
                  rw
                    (put-set bs (place idx) (bucket_full l v)
                      (omega (arith, place-lt idx, h.width)))
                    run)),
            h',
          )
    ]

    all-IsOwn :
        NoWrap (key.hash_func k)
        → (bs : List (DictBucket K V)) (i : ℕ) → Repeated bs 7
        → i < 13
        → IsOwn (bucket bs (place i))
    all-IsOwn fits bs i h lt = elim (Bool-cases (ltb i 7)) [
      | inl early ↦ h.own i (ltb→lt i 7 early)
      | inr late ↦
          let le : 7 ≤ i = ltb→le i 7 late in
          rw (mirrored fits i (omega arith) lt) (h.own (13 - i) (omega arith))
    ]

    again :
        NoWrap (key.hash_func k)
        → (bs : List (DictBucket K V)) (i : ℕ) (l : K) (w : V) → Repeated bs 7
        → key.equal_func k l ≡ true
        → i < 13
        → Repeated (set bs (place i) (bucket_full l w)) 7
    again fits bs i l w h same lt = elim (Bool-cases (ltb i 7)) [
      | inl early ↦ update-Repeated bs i 7 l w h (ltb→lt i 7 early) same
      | inr late ↦
          let le : 7 ≤ i = ltb→le i 7 late in
          rw (mirrored fits i (omega arith) lt)
            (update-Repeated bs (13 - i) 7 l w h (omega arith) same)
    ]

    -- and without any
    pub set_from-stop :
        NoWrap (key.hash_func k)
        → (bs : List (DictBucket K V)) (v : V) (r idx : ℕ) → Repeated bs 7
        → idx + r ≡ 13
        → set_from k v 13 r idx bs ≡ stop assertion
    unfolding set_from
    set_from-stop fits bs v zero idx h e = refl
    set_from-stop fits bs v (suc r) idx h e =
        let (l, w, entry, own) = own-entry _ (all-IsOwn fits bs idx h (omega arith)) in
        rw (read bs idx h.width, entry, set_from)
          (rw own (
            rw (put-set bs (place idx) (bucket_full l v) (omega (arith, place-lt idx, h.width))) (
              set_from-stop fits (set bs (place idx) (bucket_full l v)) v r (idx + 1)
                (again fits bs idx l v h own (omega arith)) (omega arith))))
