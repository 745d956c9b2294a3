-- ===== src/Vm/HashTable/Moves.antt =====
-- One step of the loop of `rehash`: the entry of a full bucket moves to the new arrays.
use ripe.Prelude.{
  ℕ, ◌+◌, ◌<◌, ◌≡◌, refl, ◌≢◌, sym, ap, subst, ◌∙◌, true, false, List, arith, Option, some, length,
  set, length-set, Bool, ℕ_discrete, dec_lt,
}
use ripe.Prelude.Outcome.{ok, at-get_or, put-set, Returns}
use native.Mathlib.Nat.{add-zero}
use ripe.Vm.Key.{Key}
use ripe.Vm.HashTable.{HashTable, Arrays, full, is_full, deref, put_value, copy_value}
use ripe.Clib.Probing.Count.{count, count-add_one}
use ripe.Vm.HashTable.Query.{bucket_at, key_at, IsReached, IsAbsent, IsTable}
use ripe.Vm.HashTable.View.{listed, is_full-ne}
use ripe.Vm.HashTable.Update.{
  get_or-set_self, get_or-set_ne, bucket_self, bucket_ne, key_self, key_ne, insert-IsTable,
}
use ripe.Vm.HashTable.Effects.{full_count, full_count-insert}

module _ {ℓ} {K : Type ℓ} ⦃key : Key K⦄ where
  -- a map has an array of values, as wide as the table
  abbrev pub HasValues : Bool → ℕ → Option (List K) → Type ℓ
  HasValues do_values n vs = do_values ≡ true → (vs ≡ some (listed vs)) × (length (listed vs) ≡ n)

  pub put_value-set :
      (n place : ℕ) (vs : Option (List K)) (v : K)
      → HasValues true n vs
      → place < n
      → put_value vs place v ≡ ok (some (set (listed vs) place v))
  unfolding put_value deref
  put_value-set n place vs v h lt =
      let (e, width) = h refl in rw e (rw (put-set (listed vs) place v (omega arith)))

  -- the value that `copy_value` has put at `place`, and nowhere else
  pub record Copies (ht : HashTable K) (do_values : Bool) (n i place : ℕ) (vs vs' : Option (List K))
      : Type ℓ where
    pub fits : HasValues do_values n vs'
    pub here : do_values ≡ true → key_at (listed vs') place ≡ key_at (listed ht.values) i
    pub others : (p : ℕ) → place ≢ p → key_at (listed vs') p ≡ key_at (listed vs) p

  pub copy_value-Copies :
      (ht : HashTable K) (do_values : Bool) (n i place : ℕ) (vs : Option (List K))
      → HasValues do_values ht.alloc_size ht.values
      → HasValues do_values n vs
      → i < ht.alloc_size
      → place < n
      → Returns (copy_value ht do_values vs i place) (Copies ht do_values n i place vs)
  unfolding copy_value deref
  copy_value-Copies ht false n i place vs old new li lp =
      (vs, refl, record { fits = λ c. cc; here = λ c. cc; others = λ p ne. refl })
  copy_value-Copies ht true n i place vs old new li lp =
      let (e, width) = old refl in
      let v = key_at (listed ht.values) i in
      let width' = (new refl).1 in
      (
        some (set (listed vs) place v),
        rw e (
            rw (at-get_or (listed ht.values) i key.nil (omega arith))
              (put_value-set n place vs v new lp)),
        record {
          fits = λ _. (refl, length-set (listed vs) place v ∙ width');
          here = λ _. get_or-set_self (listed vs) place v key.nil (omega arith);
          others = λ p ne. get_or-set_ne (listed vs) place p v key.nil (omega arith) ne;
        },
      )

module _ {ℓ} {K : Type ℓ} ⦃key : Key K⦄ (ht : HashTable K) (do_values : Bool)
    (told : IsTable ht.alloc_size ht.buckets ht.keys)
    (old_values : HasValues do_values ht.alloc_size ht.values) (n : ℕ) where
  abbrev old_full : ℕ → Bool
  old_full j = is_full (bucket_at ht.buckets j)

  -- bucket `p` of the new arrays holds what bucket `j` of the old table holds
  pub record IsCopy (new : Arrays K) (j p : ℕ) : Type ℓ where
    pub below : p < n
    pub old_below : j < ht.alloc_size
    pub old_filled : bucket_at ht.buckets j ≡ full
    pub filled : bucket_at new.new_buckets p ≡ full
    pub same_key : key_at new.new_keys p ≡ key_at ht.keys j
    pub same_value :
        do_values ≡ true → key_at (listed new.new_values) p ≡ key_at (listed ht.values) j

  -- the buckets before `i` have been moved
  pub record Moved (i : ℕ) (new : Arrays K) : Type ℓ where
    pub table : IsTable n new.new_buckets new.new_keys
    pub values : HasValues do_values n new.new_values
    pub counted : full_count n new.new_buckets ≡ count old_full 0 i
    pub there : (j : ℕ) → j < i → bucket_at ht.buckets j ≡ full → (p : ℕ) × IsCopy new j p
    pub back :
        (p : ℕ) → p < n → bucket_at new.new_buckets p ≡ full → (j : ℕ) × (j < i) × IsCopy new j p

  pub Moved-skip :
      (i : ℕ) (new : Arrays K) → bucket_at ht.buckets i ≢ full → Moved i new → Moved (i + 1) new
  Moved-skip i new free m = record {
    table = m.table;
    values = m.values;
    counted = rw (count-add_one, is_full-ne _ free) (m.counted ∙ sym (add-zero _));
    there = λ j lj f. elim (dec_lt j i) [
      | yes l ↦ m.there j l f
      | no l ↦ let e : j ≡ i = omega arith in absurd (free (rw e at f))
    ];
    back = λ p l f. let (j, lj, c) = m.back p l f in (j, omega arith, c);
  }

  -- bucket `i` moves to the free place `place`
  module _ (i : ℕ) (new : Arrays K) (li : i < ht.alloc_size) (f : bucket_at ht.buckets i ≡ full)
      (m : Moved i new) (place : ℕ) (lp : place < n) (free : bucket_at new.new_buckets place ≢ full)
      (gone : IsAbsent n new.new_buckets new.new_keys (key_at ht.keys i))
      (way : IsReached n new.new_buckets (key.hash (key_at ht.keys i)) place) (vs : Option (List K))
      (c : Copies ht do_values n i place new.new_values vs) where
    abbrev pub moved : Arrays K
    moved = record {
      new_buckets = set new.new_buckets place full;
      new_keys = set new.new_keys place (key_at ht.keys i);
      new_values = vs;
    }

    IsCopy-new : IsCopy moved i place
    IsCopy-new = record {
      below = lp;
      old_below = li;
      old_filled = f;
      filled = bucket_self n new.new_buckets new.new_keys m.table place lp full;
      same_key = key_self n new.new_buckets new.new_keys m.table place lp (key_at ht.keys i);
      same_value = c.here;
    }

    IsCopy-kept : (j p : ℕ) → IsCopy new j p → IsCopy moved j p
    IsCopy-kept j p h =
        let ne : place ≢ p = λ e. free (rw (← e) at h.filled) in
        record {
          below = h.below;
          old_below = h.old_below;
          old_filled = h.old_filled;
          filled =
              rw (bucket_ne n new.new_buckets new.new_keys m.table place lp full p ne) h.filled;
          same_key =
              key_ne n new.new_buckets new.new_keys m.table place lp (key_at ht.keys i) p ne
              ∙ h.same_key;
          same_value = λ d. c.others p ne ∙ h.same_value d;
        }

    moved_back :
        (p : ℕ)
        → p < n
        → bucket_at moved.new_buckets p ≡ full
        → (j : ℕ) × (j < i + 1) × IsCopy moved j p
    moved_back p l fp = elim (ℕ_discrete place p) [
      | yes e ↦ (i, omega arith, subst (λ r. IsCopy moved i r) e IsCopy-new)
      | no ne ↦
          let old =
            rw (bucket_ne n new.new_buckets new.new_keys m.table place lp full p ne) at fp in
          let (j, lj, h) = m.back p l old in (j, omega arith, IsCopy-kept j p h)
    ]

    moved_there : (j : ℕ) → j < i + 1 → bucket_at ht.buckets j ≡ full → (p : ℕ) × IsCopy moved j p
    moved_there j lj fj = elim (dec_lt j i) [
      | yes l ↦ let (p, h) = m.there j l fj in (p, IsCopy-kept j p h)
      | no l ↦
          let e : i ≡ j = omega arith in (place, subst (λ r. IsCopy moved r place) e IsCopy-new)
    ]

    pub moved-Moved : Moved (i + 1) moved
    moved-Moved = record {
      table =
          insert-IsTable n new.new_buckets new.new_keys m.table place lp (key_at ht.keys i) gone way
            (told.safe i li f);
      values = c.fits;
      counted =
          rw (count-add_one, f)
            (full_count-insert n new.new_buckets new.new_keys m.table place lp free
              ∙ ap (λ r. r + 1) m.counted);
      there = moved_there;
      back = moved_back;
    }
