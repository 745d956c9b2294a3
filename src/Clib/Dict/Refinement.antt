-- ===== src/Clib/Dict/Refinement.antt =====
-- `dict_set` of a key that is not there, as an update of what `dict_query` returns.
use ripe.Prelude.{
  ℕ, ◌+◌, ◌*◌, ◌%◌, ◌^◌, ◌<◌, ◌≡◌, ◌⊎◌, inl, inr, refl, sym, ap, ◌∙◌, arith, true, Bool-cases, leb,
  lt→ltb, if◌then◌else◌, Option, none, some, List, replicate, get_or-replicate,
}
use ripe.Prelude.Int.{pos, of_word}
use ripe.Prelude.Outcome.{ok, Returns, ok-injective}
use ripe.Clib.Primes.Choice.{used_sizes-le, used_sizes-ge, map_prime_lem}
use ripe.Clib.Probing.{NoWrap}
use ripe.Clib.Dict.Key.{DictKey}
use ripe.Clib.Dict.{
  DictBucket, bucket_empty, Dict, dict_init, dict_query, set_again, dict_expand, dict_set,
}
use ripe.Clib.Dict.Search.{IsTable, filled, Holds}
use ripe.Clib.Dict.Contents.{full_empty, clash, Answers, dict_query-Answers}
use ripe.Clib.Dict.Insertion.{set_bucket-Inserted}
use ripe.Clib.Dict.Expansion.{filled_none, empty-IsTable, start-Moved, expand_from-Moved}

signed_small : (w : ℕ) → w < 2 ^ 63 → of_word (w % 2 ^ 64) ≡ pos w
signed_small w lt =
    let same : w % 2 ^ 64 ≡ w = omega arith in rw (same, lt→ltb w (2 ^ 63) (omega arith)) refl

module _ {ℓ κ} {K : Type ℓ} {V : Type κ} ⦃key : DictKey K⦄ where
  -- A Dict in which no key was set twice and no probe for a key that it holds wraps: less than half of
  -- the buckets are full, and `size` is their number.
  pub record IsDict (d : Dict K V) : Type (ℓ ⊔ κ) where
    pub table : IsTable d.buckets d.alloc_size
    pub counted : filled d.buckets d.alloc_size ≡ d.size
    pub load : 2 * d.size < d.alloc_size

  -- what `dict_expand` makes of a Dict
  record Expanded (d e : Dict K V) : Type (ℓ ⊔ κ) where
    table : IsTable e.buckets e.alloc_size
    counted : filled e.buckets e.alloc_size ≡ d.size
    same_size : e.size ≡ d.size
    room : 2 * (d.size + 1) < e.alloc_size
    there : (q : K) (v : V) → Holds d.buckets d.alloc_size q v → Holds e.buckets e.alloc_size q v
    back : (q : K) (v : V) → Holds e.buckets e.alloc_size q v → Holds d.buckets d.alloc_size q v

  dict_expand-Expanded :
      (d : Dict K V)
      → IsDict d
      → 2 * (d.size + 1) < 536870909
      → Returns (dict_expand d) (Expanded d)
  unfolding dict_expand
  dict_expand-Expanded d h small =
      let twice : (d.size + 1) * 2 % 2 ^ 64 ≡ 2 * (d.size + 1) = omega arith in
      elim (Bool-cases (leb d.alloc_size ((d.size + 1) * 2 % 2 ^ 64))) [
        | inr roomy ↦
            let lt : 2 * (d.size + 1) < d.alloc_size = ground (arith, twice, roomy) in
            (
              d,
              rw (roomy, dict_expand) refl,
              record {
                table = h.table;
                counted = h.counted;
                same_size = refl;
                room = lt;
                there = λ q v held. held;
                back = λ q v held. held;
              },
            )
        | inl crowded ↦
            let (n, chosen, c) = (map_prime_lem (pos (2 * (d.size + 1)))).0 (omega arith) in
            let signed : of_word (2 * (d.size + 1) % 2 ^ 64) ≡ pos (2 * (d.size + 1)) =
              signed_small (2 * (d.size + 1)) (omega arith) in
            let above : 2 * (d.size + 1) < n = omega (arith, c.above) in
            let bound = used_sizes-le n c.entry in
            let start =
              start-Moved d.buckets d.alloc_size h.table n c.prime (omega (arith, bound))
                (omega (arith, above)) in
            let (new, run, m) =
              expand_from-Moved d.buckets d.alloc_size h.table d.alloc_size 0 n _ (omega arith)
                start (omega (arith, h.counted, above)) in
            (
              record d { alloc_size = n; buckets = new },
              rw (crowded, dict_expand) (rw (signed, chosen) (rw run refl)),
              record {
                table = m.table;
                counted = m.counted ∙ h.counted;
                same_size = refl;
                room = above;
                there = λ q v (j, k, held). m.there q v j k held.below held;
                back = λ q v held. let (j, k, lt, held') = m.back q v held in (j, k, held');
              },
            )
      ]

  nothing :
      (bs : List (DictBucket K V)) (n : ℕ) (q : K) (o : Option V)
      → Answers bs n q o
      → ((w : V) → Holds bs n q w → ⊥)
      → o ≡ none
  nothing bs n q none a empty = refl
  nothing bs n q (some w) a empty = absurd (empty w a.0)

  found :
      (bs : List (DictBucket K V)) (n : ℕ) (q : K) (o : Option V) (w : V)
      → Answers bs n q o
      → Holds bs n q w
      → o ≡ some w
  found bs n q none w a held = absurd (a w held)
  found bs n q (some x) w a held = ap some (sym (a.1 w held))

  -- the answers of a table with one key more
  answers :
      (q k : K) (v : V) (d : Dict K V) (bs : List (DictBucket K V)) (n : ℕ) (o o' : Option V)
      → Answers d.buckets d.alloc_size q o
      → Answers bs n q o'
      → (key.equal_func q k ≡ true → Holds bs n q v)
      → ((w : V) → Holds d.buckets d.alloc_size q w → Holds bs n q w)
      → ((w : V)
          → Holds bs n q w
          → ((key.equal_func q k ≡ true) × (w ≡ v)) ⊎ Holds d.buckets d.alloc_size q w)
      → o' ≡ (if key.equal_func q k then some v else o)
  answers q k v d bs n o none a a' new kept back = elim (Bool-cases (key.equal_func q k)) [
    | inl same ↦ absurd (a' v (new same))
    | inr differs ↦
        rw differs (sym (nothing d.buckets d.alloc_size q o a (λ w held. a' w (kept w held))))
  ]
  answers q k v d bs n o (some w) a a' new kept back = elim (Bool-cases (key.equal_func q k)) [
    | inl same ↦ rw same (ap some (sym (a'.1 v (new same))))
    | inr differs ↦ elim (back w a'.0) [
      | inl there ↦ absurd (clash there.0 differs)
      | inr held ↦ rw differs (sym (found d.buckets d.alloc_size q o w a held))
    ]
  ]

  -- In a Dict in which no key was set twice and no probe for a key that it holds wraps: dict_set of a
  -- key that dict_query does not find and whose probes do not wrap returns such a Dict with its size
  -- counted, whether or not it moves to a larger table. In it, dict_query of any key whose probes do
  -- not wrap finds the new value if the key is equal to the one that was set, and what it found before
  -- otherwise. The size is below the largest that map_prime has a table for.
  pub dict_set-fresh :
      (d : Dict K V) (k : K) (v : V)
      → IsDict d
      → NoWrap (key.hash_func k)
      → dict_query d k ≡ ok none
      → 2 * (d.size + 1) < 536870909
      → Returns (dict_set d k v) (λ r.
        IsDict r
        × (r.size ≡ d.size + 1)
        × ((q : K)
            → NoWrap (key.hash_func q)
            → Returns
                (dict_query d q)
                (λ o. dict_query r q ≡ ok (if key.equal_func q k then some v else o))))
  unfolding dict_set set_again
  dict_set-fresh d k v h fits absent small =
      let load : 2 * filled d.buckets d.alloc_size < d.alloc_size =
        omega (arith, h.load, h.counted) in
      let missing : (w : V) → Holds d.buckets d.alloc_size k w → ⊥ =
        (let (o, run, a) = dict_query-Answers d k h.table fits load in
          let none_there : o ≡ none = ok-injective (sym run ∙ absent) in rw none_there at a) in
      let (e, run1, x) = dict_expand-Expanded d h small in
      let (bs, run2, ins) =
        set_bucket-Inserted e.buckets e.alloc_size k v x.table fits
          (omega (arith, x.counted, x.room)) (λ w held. missing w (x.back k w held)) in
      let size : (e.size + 1) % 2 ^ 64 ≡ d.size + 1 = omega (arith, x.same_size) in
      let r = record e { size = (e.size + 1) % 2 ^ 64; buckets = bs } in
      let full_now : filled bs e.alloc_size ≡ d.size + 1 = omega (arith, ins.more, x.counted) in
      (
        r,
        rw (absent, run1, run2) refl,
        (
          record {
            table = ins.table;
            counted = full_now ∙ sym size;
            load = omega (arith, x.room, size);
          },
          size,
          λ q q_fits.
              let (o, run, a) = dict_query-Answers d q h.table q_fits load in
              let (o', run', a') =
                dict_query-Answers r q ins.table q_fits (omega (arith, full_now, x.room)) in
              (
                o,
                run,
                run'
                    ∙ ap ok (
                        answers q k v d bs e.alloc_size o o' a a' (ins.new q)
                          (λ w held. ins.kept q w (x.there q w held))
                          (λ w held. elim (ins.back q w held) [
                            | inl now ↦ inl now
                            | inr before ↦ inr (x.back q w before)
                          ])),
              ),
        ),
      )

  -- A new Dict holds nothing.
  pub dict_init-IsDict :
      Returns dict_init
        (λ d. IsDict d × ((q : K) → NoWrap (key.hash_func q) → dict_query d q ≡ ok none))
  unfolding dict_init
  dict_init-IsDict =
      let (n, chosen, c) = (map_prime_lem (pos 0)).0 (omega arith) in
      let bound = used_sizes-le n c.entry in
      let many = used_sizes-ge n c.entry in
      let bs : List (DictBucket K V) = replicate n bucket_empty in
      let d : Dict K V = record { size = 0; alloc_size = n; buckets = bs } in
      let table : IsTable bs n =
        empty-IsTable n c.prime (omega (arith, bound)) (omega (arith, many)) in
      let empty = filled_none K V n in
      (
        d,
        rw chosen refl,
        (
          record { table = table; counted = empty; load = omega (arith, many) },
          λ q fits.
              let (o, run, a) = dict_query-Answers d q table fits (omega (arith, empty, many)) in
              run
              ∙ ap ok (
                  nothing bs n q o a (λ v (j, k, h).
                    full_empty k v (sym h.entry ∙ get_or-replicate n j bucket_empty))),
        ),
      )

  pub dict_query_returns :
      (d : Dict K V) (q : K)
      → IsDict d
      → NoWrap (key.hash_func q)
      → (o : Option V) × (dict_query d q ≡ ok o)
  dict_query_returns d q h fits =
      let (o, run, a) = dict_query-Answers d q h.table fits (omega (arith, h.load, h.counted)) in
      (o, run)
