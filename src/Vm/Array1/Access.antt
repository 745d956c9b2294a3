-- ===== src/Vm/Array1/Access.antt =====
-- Reads and writes of an array at an index of Ripe, and the making of an array from given values.
use ripe.Prelude.{
  ℕ, zero, suc, ◌+◌, ◌*◌, ◌%◌, ◌^◌, ◌≤◌, ◌<◌, ◌≡◌, ◌⊎◌, inl, inr, refl, sym, ap, ◌∙◌, arith, List,
  [], ◌∷◌, ◌++◌, length, take, set, get_or, replicate, length-set, length-replicate, lt→ltb, ltb,
  true,
}
use ripe.Prelude.Int.{ℤ}
use ripe.Prelude.Outcome.{stop, raised, at, at-get_or, put-set, Returns}
use ripe.Vm.Index.Bounds.{Names, util_index-cases}
use ripe.Vm.Array1.{Array1, array1_index, array1_index_set, copy_from, array1_to_val}
use ripe.Vm.Array1.Elements.{elements, IsArray}
use ripe.Prelude.Prefixes.{at-take, take-set, take-suc-set, take-suc}

module _ {ℓ} {V : Type ℓ} where
  -- On an array whose cells are allocated, array1_index and array1_index_set both raise if the index
  -- names no element; else they read and replace the element that it names, and nothing else.
  pub array1_index-elements :
      (a : Array1 V) (idx : ℤ) (v : V)
      → IsArray a
      → ((array1_index a idx ≡ stop raised)
          × (array1_index_set a idx v ≡ stop raised)
          × ((k : ℕ) → ¬ (Names a.size idx k)))
        ⊎ ((k : ℕ) × Names a.size idx k
            × (array1_index a idx ≡ at (elements a) k)
            × Returns
                (array1_index_set a idx v)
                (λ r. IsArray r × (elements r ≡ set (elements a) k v)))
  unfolding array1_index array1_index_set
  array1_index-elements a idx v valid =
      let signed : ltb a.size (2 ^ 63) ≡ true =
        lt→ltb _ _ (omega (arith, valid.used, valid.small)) in
      elim (util_index-cases a.size idx (omega (arith, valid.used, valid.small))) [
        | inl (e, bad) ↦ inl (rw (signed, e) refl, rw (signed, e) refl, bad)
        | inr (k, e, names) ↦
            let inside : k < length a.cells = omega (arith, names.0, valid.used, valid.allocated) in
            inr (
              k,
              names,
              rw (signed, e) (sym (at-take a.size k a.cells names.0)),
              (
                record a { cells = set a.cells k v },
                rw (signed, e, put-set a.cells k v inside) refl,
                (
                  record {
                    used = valid.used;
                    allocated = omega (arith, valid.allocated, length-set a.cells k v);
                    small = valid.small;
                  },
                  take-set a.size k a.cells v,
                ),
              ),
            )
      ]

module _ {ℓ} {V : Type ℓ} (junk : V) where
  copy_from-take :
      (given : List V) (n rounds i : ℕ) (block : List V)
      → i + rounds ≡ n
      → n ≤ length given
      → n ≤ length block
      → take i block ≡ take i given
      → Returns
          (copy_from junk given rounds i block)
          (λ b. (length b ≡ length block) × (take n b ≡ take n given))
  unfolding copy_from
  copy_from-take given n zero i block e wide room same =
      let here : i ≡ n = omega arith in (block, refl, (refl, rw here at same))
  copy_from-take given n (suc rounds) i block e wide room same =
      let v = get_or given i junk in
      let next : i + 1 ≡ suc i = omega arith in
      let same' : take (i + 1) (set block i v) ≡ take (i + 1) given = rw next (
        take-suc-set i block v (omega arith)
        ∙ ap (λ xs. xs ++ v ∷ []) same
        ∙ sym (take-suc i given junk (omega arith))) in
      let (b, run, (width, taken)) =
        copy_from-take given n rounds (i + 1) (set block i v) (omega arith) wide
          (omega (arith, length-set block i v)) same' in
      (
        b,
        rw (at-get_or given i junk (omega arith), put-set block i v (omega arith)) run,
        (width ∙ length-set block i v, taken),
      )

  -- For n values, of which there are fewer than 2 ^ 60 and all are given, array1_to_val returns an
  -- array whose cells are allocated and whose elements are the first n values.
  pub array1_to_val-elements :
      (n : ℕ) (given : List V)
      → n ≤ length given
      → n < 2 ^ 60
      → Returns (array1_to_val junk n given) (λ r. IsArray r × (elements r ≡ take n given))
  unfolding array1_to_val
  array1_to_val-elements n given wide small =
      let start = replicate (n * 2 % 2 ^ 64) junk in
      let size = length-replicate (n * 2 % 2 ^ 64) junk in
      let (b, run, (width, taken)) =
        copy_from-take given n n 0 start (omega arith) wide (omega (arith, size)) refl in
      (
        record { size = n; alloc_size = n * 2 % 2 ^ 64; cells = b },
        rw run refl,
        (
          record {
            used = omega arith;
            allocated = omega (arith, width, size);
            small = omega arith;
          },
          taken,
        ),
      )
