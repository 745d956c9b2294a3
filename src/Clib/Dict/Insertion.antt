-- ===== src/Clib/Dict/Insertion.antt =====
-- `set` of a key that the table does not hold.
use ripe.Prelude.{
  ℕ, zero, suc, ◌+◌, ◌-◌, ◌*◌, ◌≤◌, ◌<◌, ◌≡◌, ◌≢◌, ◌⊎◌, inl, inr, refl, sym, ap, ◌∙◌, arith, true,
  ◌==◌, ==→eq, ==_self, Bool-cases, List, length-set, get_or-set, set, ℕ_discrete,
}
use ripe.Prelude.Outcome.{ok, put-set, Returns}
use ripe.Clib.Probing.{probe, probe-lt, NoWrap}
use ripe.Clib.Probing.Count.{count_update}
use ripe.Clib.Dict.Key.{DictKey}
use ripe.Clib.Dict.{DictBucket, bucket_empty, bucket_full, set_from, set_bucket}
use ripe.Clib.Dict.Search.{
  bucket, full?, Other, Passed, Reached, IsTable, filled, vacant, occupied, search, Holds,
  Other-entry, probed,
}
use ripe.Clib.Dict.Contents.{full_empty, bucket_full-injective}

module _ {ℓ κ} {K : Type ℓ} {V : Type κ} ⦃key : DictKey K⦄ where
  pub key-injective :
      (l k : K) (w v : V) → ◌≡◌ {A = DictBucket K V} (bucket_full l w) (bucket_full k v) → l ≡ k
  key-injective l k w v e = cc

  set_from-Other :
      (bs : List (DictBucket K V)) (n f idx : ℕ) (k : K) (v : V)
      → IsTable bs n
      → Other k (bucket bs (probe (key.hash_func k) n idx))
      → set_from k v n (suc f) idx bs ≡ set_from k v n f (idx + 1) bs
  unfolding set_from
  set_from-Other bs n f idx k v t o =
      let (l, w, entry, differs) = Other-entry k _ o in
      rw (probed bs n idx k t, entry, set_from) (rw differs refl)

  -- the loop of `set` over the probes that are passed
  set_from-Passed :
      (bs : List (DictBucket K V)) (n f idx r m : ℕ) (k : K) (v : V)
      → IsTable bs n
      → Passed bs n k m
      → idx + f ≡ m + r
      → idx ≤ m
      → set_from k v n f idx bs ≡ set_from k v n r m bs
  set_from-Passed bs n zero idx r m k v t p e le =
      let same : idx ≡ m = omega arith in
      let none_left : r ≡ zero = omega arith in rw (same, none_left) refl
  set_from-Passed bs n (suc f) idx r m k v t p e le = elim (ℕ_discrete idx m) [
    | yes same ↦ let left : suc f ≡ r = omega arith in rw (same, left) refl
    | no other ↦
        set_from-Other bs n f idx k v t (p idx (omega arith))
        ∙ set_from-Passed bs n f (idx + 1) r m k v t p (omega arith) (omega arith)
  ]

  set_bucket-vacant :
      (bs : List (DictBucket K V)) (n m : ℕ) (k : K) (v : V)
      → IsTable bs n
      → m < n
      → Passed bs n k m
      → bucket bs (probe (key.hash_func k) n m) ≡ bucket_empty
      → set_bucket k v bs n ≡ ok (set bs (probe (key.hash_func k) n m) (bucket_full k v))
  unfolding set_bucket set_from
  set_bucket-vacant bs n m k v t lt p free =
      set_from-Passed bs n n 0 (suc (n - suc m)) m k v t p (omega arith) (omega arith)
      ∙ rw (probed bs n m k t, free, set_from)
          (put-set bs (probe (key.hash_func k) n m) (bucket_full k v)
            (omega (arith, probe-lt (key.hash_func k) n m t.positive, t.width)))

  -- what `set` makes of a table that does not hold `k`
  pub record Inserted (bs : List (DictBucket K V)) (n : ℕ) (k : K) (v : V)
      (bs' : List (DictBucket K V)) : Type (ℓ ⊔ κ) where
    pub table : IsTable bs' n
    pub more : filled bs' n ≡ filled bs n + 1
    pub new : (q : K) → key.equal_func q k ≡ true → Holds bs' n q v
    pub kept : (q : K) (w : V) → Holds bs n q w → Holds bs' n q w
    pub back :
        (q : K) (w : V) → Holds bs' n q w → ((key.equal_func q k ≡ true) × (w ≡ v)) ⊎ Holds bs n q w

  -- one empty bucket that is filled
  module _ (bs : List (DictBucket K V)) (n m : ℕ) (k : K) (v : V) (t : IsTable bs n) (lt : m < n)
      (no_wrap : NoWrap (key.hash_func k)) (p : Passed bs n k m)
      (free : bucket bs (probe (key.hash_func k) n m) ≡ bucket_empty) where
    abbrev place : ℕ
    place = probe (key.hash_func k) n m

    abbrev after : List (DictBucket K V)
    after = set bs place (bucket_full k v)

    place-lt : place < n
    place-lt = probe-lt (key.hash_func k) n m t.positive

    after-place : bucket after place ≡ bucket_full k v
    after-place =
        get_or-set bs place place (bucket_full k v) bucket_empty (omega (arith, place-lt, t.width))
        ∙ rw (==_self place) refl

    after-other : (j : ℕ) → place ≢ j → bucket after j ≡ bucket bs j
    after-other j ne =
        get_or-set bs place j (bucket_full k v) bucket_empty (omega (arith, place-lt, t.width))
        ∙ (elim (Bool-cases (place == j)) [
          | inl e ↦ absurd (ne (==→eq place j e))
          | inr e ↦ rw e refl
        ])

    -- a bucket with another key is not the one that is filled
    after-passed : (q : K) (j : ℕ) → Other q (bucket bs j) → Other q (bucket after j)
    after-passed q j o =
        let apart : place ≢ j = λ e. rw (← e, free) at o in rw (after-other j apart) o

    after-Reached : (q : K) (j : ℕ) → Reached bs n q j → Reached after n q j
    after-Reached q j r = record {
      round = r.round;
      in_time = r.in_time;
      there = r.there;
      passed = λ i early. after-passed q _ (r.passed i early);
    }

    after-IsTable : IsTable after n
    after-IsTable = record {
      width = length-set bs place (bucket_full k v) ∙ t.width;
      prime = t.prime;
      bounded = t.bounded;
      positive = t.positive;
      reached = λ j l w below entry. elim (ℕ_discrete place j) [
        | yes same ↦
            let filled_here : bucket_full l w ≡ bucket_full k v =
              sym entry ∙ rw (← same) after-place in
            let here : Reached after n k j = record {
              round = m;
              in_time = lt;
              there = same;
              passed = λ i early. after-passed k _ (p i early);
            } in
            rw (key-injective l k w v filled_here) here
        | no apart ↦ after-Reached l j (t.reached j l w below (sym (after-other j apart) ∙ entry))
      ];
      fits = λ j l w below entry. elim (ℕ_discrete place j) [
        | yes same ↦
            let filled_here : bucket_full l w ≡ bucket_full k v =
              sym entry ∙ rw (← same) after-place in
            rw (key-injective l k w v filled_here) no_wrap
        | no apart ↦ t.fits j l w below (sym (after-other j apart) ∙ entry)
      ];
    }

    after-Inserted : Inserted bs n k v after
    after-Inserted = record {
      table = after-IsTable;
      more =
          count_update (λ j. full? (bucket bs j)) (λ j. full? (bucket after j)) place 0 n
            (ap full? free) (ap full? after-place)
            (λ j ne. ap full? (sym (after-other j (λ e. ne (sym e))))) (omega arith)
            (omega (arith, place-lt));
      new = λ q same. (place, k, record { below = place-lt; entry = after-place; same = same });
      kept = λ q w (j, l, h).
          let apart : place ≢ j = λ e. full_empty l w (sym h.entry ∙ rw (← e) free) in
          (j, l, record { below = h.below; entry = after-other j apart ∙ h.entry; same = h.same });
      back = λ q w (j, l, h). elim (ℕ_discrete place j) [
        | yes e ↦
            let filled_here : bucket_full l w ≡ bucket_full k v =
              sym h.entry ∙ rw (← e) after-place in
            inl (
              rw (key-injective l k w v filled_here) at h.same,
              bucket_full-injective l k w v filled_here,
            )
        | no apart ↦ inr (
          j,
          l,
          record { below = h.below; entry = sym (after-other j apart) ∙ h.entry; same = h.same },
        )
      ];
    }

  pub set_bucket-Inserted :
      (bs : List (DictBucket K V)) (n : ℕ) (k : K) (v : V)
      → IsTable bs n
      → NoWrap (key.hash_func k)
      → 2 * filled bs n < n
      → ((w : V) → Holds bs n k w → ⊥)
      → Returns (set_bucket k v bs n) (Inserted bs n k v)
  set_bucket-Inserted bs n k v t no_wrap load fresh = elim (search bs n k t no_wrap load) [
    | vacant m lt p free ↦ (
      set bs (probe (key.hash_func k) n m) (bucket_full k v),
      set_bucket-vacant bs n m k v t lt p free,
      after-Inserted bs n m k v t lt no_wrap p free,
    )
    | occupied m l w lt p entry same ↦ absurd (
        fresh w (
          probe (key.hash_func k) n m,
          l,
          record { below = probe-lt (key.hash_func k) n m t.positive; entry = entry; same = same },
        ))
  ]
