-- ===== src/Clib/Dict/Iteration.antt =====
-- The iteration over a Dict, which visits the full buckets in order.
use ripe.Prelude.{
  ℕ, zero, suc, ◌+◌, ◌-◌, ◌≤◌, ◌<◌, ◌≡◌, refl, ap, ◌∙◌, arith, Bool, true, false, List, [], ◌∷◌,
  drop, length, inl, inr,
}
use ripe.Prelude.Outcome.{ok, at-get_or, Returns}
use ripe.Prelude.Prefixes.{drop_end}
use ripe.Clib.Dict.{
  DictBucket, bucket_empty, bucket_full, Dict, iter_has_from, dict_iter_has, dict_iter_get_ptrs,
}
use ripe.Clib.Dict.Search.{bucket, bucket-cases}

module _ {ℓ κ} {K : Type ℓ} {V : Type κ} where
  -- the keys and values of the full buckets
  abbrev pub entries : List (DictBucket K V) → List (K × V)
  entries [] = []
  entries (bucket_empty ∷ bs) = entries bs
  entries (bucket_full k v ∷ bs) = (k, v) ∷ entries bs

  drop-bucket :
      (bs : List (DictBucket K V)) (i : ℕ)
      → i < length bs
      → drop i bs ≡ bucket bs i ∷ drop (i + 1) bs
  drop-bucket [] i lt = absurd (omega arith)
  drop-bucket (b ∷ bs) zero lt = refl
  drop-bucket (b ∷ bs) (suc i) lt =
      let next : suc i + 1 ≡ suc (i + 1) = omega arith in rw next (drop-bucket bs i (omega arith))

  -- where `dict_iter_has` moves the iterator from `i`
  pub data Next (bs : List (DictBucket K V)) (i : ℕ) : Bool × ℕ → Type (ℓ ⊔ κ) where
    ended : (j : ℕ) → entries (drop i bs) ≡ [] → Next bs i (false, j)
    moved :
        (j : ℕ) (k : K) (v : V)
        → i ≤ j
        → j < length bs
        → bucket bs j ≡ bucket_full k v
        → entries (drop i bs) ≡ (k, v) ∷ entries (drop (j + 1) bs)
        → Next bs i (true, j)

  Next_skip :
      (bs : List (DictBucket K V)) (i : ℕ) (r : Bool × ℕ)
      → i < length bs
      → bucket bs i ≡ bucket_empty
      → Next bs (i + 1) r
      → Next bs i r
  Next_skip bs i _ lt free (ended j none_left) =
      ended j (ap entries (drop-bucket bs i lt) ∙ rw free none_left)
  Next_skip bs i _ lt free (moved j k v le below entry rest) =
      moved j k v (omega arith) below entry (ap entries (drop-bucket bs i lt) ∙ rw free rest)

  iter_has_from-Next :
      (d : Dict K V) (r i : ℕ)
      → length d.buckets ≡ d.alloc_size
      → i + r ≡ d.alloc_size
      → Returns (iter_has_from d r i) (Next d.buckets i)
  unfolding iter_has_from
  iter_has_from-Next d zero i w e =
      ((false, i), refl, ended i (ap entries (drop_end i d.buckets (omega arith))))
  iter_has_from-Next d (suc r) i w e =
      let lt : i < length d.buckets = omega arith in
      let found = at-get_or d.buckets i bucket_empty lt in
      elim (bucket-cases (bucket d.buckets i)) [
        | inl free ↦
            let (b, run, next) = iter_has_from-Next d r (i + 1) w (omega arith) in
            (b, rw (found, free, iter_has_from) run, Next_skip d.buckets i b lt free next)
        | inr (k, v, entry) ↦ (
          (true, i),
          rw (found, entry, iter_has_from) refl,
          moved i k v (omega arith) lt entry
              (ap entries (drop-bucket d.buckets i lt) ∙ rw entry refl),
        )
      ]

  pub dict_iter_has-Next :
      (d : Dict K V) (i : ℕ)
      → length d.buckets ≡ d.alloc_size
      → i ≤ d.alloc_size
      → Returns (dict_iter_has d i) (Next d.buckets i)
  unfolding dict_iter_has
  dict_iter_has-Next d i w le = iter_has_from-Next d (d.alloc_size - i) i w (omega arith)

  -- where the iterator stands at a full bucket
  pub dict_iter_get_ptrs-bucket :
      (d : Dict K V) (j : ℕ) (k : K) (v : V)
      → j < length d.buckets
      → bucket d.buckets j ≡ bucket_full k v
      → dict_iter_get_ptrs d j ≡ ok (k, v, j + 1)
  unfolding dict_iter_get_ptrs
  dict_iter_get_ptrs-bucket d j k v below entry =
      rw (at-get_or d.buckets j bucket_empty below, entry, dict_iter_get_ptrs) refl
