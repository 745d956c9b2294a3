-- ===== src/Clib/Structs/Elements.antt =====
-- The operations of the simple array on the list of its elements.
use ripe.Prelude.{
  ℕ, suc, ◌+◌, ◌-◌, ◌*◌, ◌%◌, ◌^◌, ◌≤◌, ◌<◌, ◌≡◌, refl, sym, ap, ◌∙◌, arith, Bool-cases, inl, inr,
  ltb, lt→ltb, ltb→lt, ltb→le, List, [], ◌∷◌, ◌++◌, length, take, set, length-set, length-append,
}
use ripe.Prelude.Int.{pos}
use ripe.Prelude.Outcome.{ok, at, put-set, Returns}
use ripe.Prelude.Prefixes.{
  resize, take-append, take-suc-set, take-take, take-length, length-take, at-take, at-append,
  length-resize,
}
use ripe.Clib.Structs.{SArray, sarray_pop, sarray_get_ptr, sarray_expand, sarray_append_ptr}

module _ {ℓ} {V : Type ℓ} where
  abbrev pub elements : SArray V → List V
  elements arr = take arr.size arr.cells

  pub record IsSArray (arr : SArray V) : Type 0 where
    pub used : arr.size ≤ arr.alloc_size
    pub allocated : arr.alloc_size ≤ length arr.cells
    pub some_cells : 0 < arr.alloc_size

  read :
      (a : SArray V) (xs : List V) (x : V)
      → IsSArray a
      → elements a ≡ xs ++ x ∷ []
      → (a.size ≡ suc (length xs)) × (at a.cells (length xs) ≡ ok x)
  read a xs x v e =
      let size : a.size ≡ suc (length xs) = omega (
        arith,
        length-take a.size a.cells (omega (arith, v.used, v.allocated)),
        ap length e,
        length-append xs (x ∷ []),
      ) in
      (
        size,
        sym (at-take a.size (length xs) a.cells (omega arith))
            ∙ ap (λ t. at t (length xs)) e
            ∙ at-append xs x [],
      )

  -- the elements below the last one
  below_last :
      (a : SArray V) (xs : List V) (x : V)
      → IsSArray a
      → elements a ≡ xs ++ x ∷ []
      → take (length xs) a.cells ≡ xs
  below_last a xs x v e =
      let size = (read a xs x v e).0 in
      sym (take-take (length xs) a.size a.cells (omega arith))
      ∙ ap (take (length xs)) e
      ∙ take-length xs (x ∷ [])

  pub sarray_pop-elements :
      (a : SArray V) (xs : List V) (x : V)
      → IsSArray a
      → elements a ≡ xs ++ x ∷ []
      → Returns (sarray_pop a) (λ r. IsSArray r × (elements r ≡ xs))
  unfolding sarray_pop
  sarray_pop-elements a xs x v e =
      let size = (read a xs x v e).0 in
      let less : a.size - 1 ≡ length xs = omega arith in
      (
        record a { size = a.size - 1 },
        rw (lt→ltb 0 a.size (omega arith)) refl,
        (
          record {
            used = omega (arith, v.used);
            allocated = v.allocated;
            some_cells = v.some_cells;
          },
          rw less (below_last a xs x v e),
        ),
      )

  pub sarray_get_ptr_lem :
      (a : SArray V) (i : ℕ) → i < a.size → sarray_get_ptr a (pos i) ≡ at a.cells i
  unfolding sarray_get_ptr
  sarray_get_ptr_lem a i lt = rw (lt→ltb i a.size lt)

module _ {ℓ} {V : Type ℓ} (junk : V) where
  -- an array of the same elements with room for one more
  record HasRoom (a r : SArray V) : Type ℓ where
    same_size : r.size ≡ a.size
    room : r.size < r.alloc_size
    allocated : r.alloc_size ≤ length r.cells
    kept : take a.size r.cells ≡ take a.size a.cells

  sarray_expand-HasRoom :
      (a : SArray V) → IsSArray a → a.size < 2 ^ 30 → Returns (sarray_expand junk a) (HasRoom a)
  unfolding sarray_expand
  sarray_expand-HasRoom a v small =
      let some = lt→ltb 0 a.alloc_size v.some_cells in
      elim (Bool-cases (ltb a.size a.alloc_size)) [
        | inl less ↦ (
          a,
          rw (some, less) refl,
          record { same_size = refl; room = ltb→lt _ _ less; allocated = v.allocated; kept = refl },
        )
        | inr more ↦
            let exact : a.alloc_size ≡ a.size = omega (arith, v.used, ltb→le _ _ more) in
            let doubled : a.alloc_size * 2 % 2 ^ 32 ≡ a.alloc_size * 2 = omega arith in
            (
              record a {
                alloc_size = a.alloc_size * 2;
                cells = resize junk (a.alloc_size * 2) a.cells;
              },
              rw (some, doubled, more) refl,
              record {
                same_size = refl;
                room = omega (arith, v.some_cells);
                allocated = length-resize junk (a.alloc_size * 2) a.cells;
                kept =
                    take-append a.size (a.alloc_size * 2) a.cells _ (omega arith)
                      (omega (arith, v.used, v.allocated));
              },
            )
      ]

  -- On an array whose cells are allocated, of fewer than 2 ^ 30 elements, sarray_append_ptr does not
  -- fail and returns such an array, with the pointer behind the elements, whether or not it grows.
  pub sarray_append_ptr-elements :
      (a : SArray V) (v : V)
      → IsSArray a
      → a.size < 2 ^ 30
      → Returns (sarray_append_ptr junk a v) (λ r. IsSArray r × (elements r ≡ elements a ++ v ∷ []))
  unfolding sarray_append_ptr
  sarray_append_ptr-elements a x v small =
      let (r, run, h) = sarray_expand-HasRoom a v small in
      let inside : r.size < length r.cells = omega (arith, h.room, h.allocated) in
      let next : (r.size + 1) % 2 ^ 32 ≡ suc a.size = omega (arith, h.same_size) in
      let here : r.size ≡ a.size = h.same_size in
      (
        record r { cells = set r.cells r.size x; size = suc a.size },
        rw (run, put-set r.cells r.size x inside, next) refl,
        (
          record {
            used = omega (arith, h.room, h.same_size);
            allocated = omega (arith, h.allocated, length-set r.cells r.size x);
            some_cells = omega (arith, h.room);
          },
          rw here (
              take-suc-set a.size r.cells x (omega (arith, h.same_size, inside))
              ∙ ap (λ xs. xs ++ x ∷ []) h.kept),
        ),
      )
