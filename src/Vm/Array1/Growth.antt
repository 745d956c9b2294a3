-- ===== src/Vm/Array1/Growth.antt =====
-- array1_push and array1_pop on the elements, whatever they do to the allocation.
use ripe.Prelude.{
  ℕ, suc, ◌+◌, ◌-◌, ◌*◌, ◌/◌, ◌%◌, ◌^◌, ◌≤◌, ◌<◌, ◌≡◌, refl, sym, ap, ◌∙◌, arith, List, [], ◌∷◌,
  ◌++◌, length, take, set, get_or, replicate, length-set, length-replicate, le→ltb, ltb, ◌==◌,
  Bool-cases, true, false, inl, inr, ltb→lt, ltb→le, if◌then◌else◌,
}
use ripe.Prelude.Outcome.{stop, raised, out_of_bounds, put, at-get_or, put-set, Returns}
use ripe.Vm.Array1.{Array1, array1_new, array1_push, array1_pop, grow, shrink}
use ripe.Vm.Array1.Elements.{elements, IsArray}
use ripe.Prelude.Prefixes.{take-append, take-suc-set, take-suc, length-resize}

module _ {ℓ} {V : Type ℓ} (junk : V) where
  -- an array of the same elements with room for one more
  record HasRoom (a r : Array1 V) : Type ℓ where
    size : r.size ≡ a.size
    room : a.size ≤ r.alloc_size
    allocated : r.alloc_size ≤ length r.cells
    small : r.alloc_size < 2 ^ 62
    kept : (n : ℕ) → n < a.size → take n r.cells ≡ take n a.cells

  grow-HasRoom :
      (a : Array1 V)
      → a.alloc_size < a.size
      → a.size ≤ a.alloc_size + 1
      → a.alloc_size ≤ length a.cells
      → a.size < 2 ^ 61
      → HasRoom a (grow junk a)
  unfolding grow
  grow-HasRoom a less more block small = elim (Bool-cases (a.alloc_size * 2 % 2 ^ 64 == 0)) [
    | inl z ↦ rw z (record {
      size = refl;
      room = ground arith;
      allocated = omega arith;
      small = omega arith;
      kept = λ n lt. let e : n ≡ 0 = ground arith in rw e refl;
    })
    | inr p ↦ rw p (record {
      size = refl;
      room = ground arith;
      allocated = length-resize junk (a.alloc_size * 2 % 2 ^ 64) a.cells;
      small = omega arith;
      kept =
          λ n lt. take-append n (a.alloc_size * 2 % 2 ^ 64) a.cells _ (ground arith) (omega arith);
    })
  ]

  -- the array in which `array1_push` writes
  abbrev target : Array1 V → Array1 V
  target a =
      if ltb a.alloc_size (suc a.size)
      then grow junk (record a { size = suc a.size })
      else record a { size = suc a.size }

  target-HasRoom :
      (a : Array1 V)
      → IsArray a
      → a.size < 2 ^ 60
      → HasRoom (record a { size = suc a.size }) (target a)
  target-HasRoom a valid small = elim (Bool-cases (ltb a.alloc_size (suc a.size))) [
    | inl less ↦ rw less (
        grow-HasRoom (record a { size = suc a.size }) (ltb→lt _ _ less) (omega (arith, valid.used))
          valid.allocated (omega arith))
    | inr more ↦ rw more (record {
      size = refl;
      room = ltb→le _ _ more;
      allocated = valid.allocated;
      small = valid.small;
      kept = λ n lt. refl;
    })
  ]

  -- array1_push on an array whose cells are allocated, of fewer than 2 ^ 60 elements, does not fail:
  -- it returns such an array with the value behind the elements, whether or not it had to grow.
  pub array1_push-elements :
      (a : Array1 V) (v : V)
      → IsArray a
      → a.size < 2 ^ 60
      → Returns (array1_push junk a v) (λ r. IsArray r × (elements r ≡ elements a ++ v ∷ []))
  unfolding array1_push
  array1_push-elements a v valid small =
      let h = target-HasRoom a valid small in
      let t = target a in
      let inside : a.size < length t.cells = omega (arith, h.room, h.allocated) in
      let next : (a.size + 1) % 2 ^ 64 ≡ suc a.size = omega arith in
      let back : (suc a.size + 2 ^ 64 - 1) % 2 ^ 64 ≡ a.size = omega arith in
      let done = record t { cells = set t.cells a.size v } in
      (
        done,
        rw (next, back, put-set t.cells a.size v inside) refl,
        (
          record {
            used = omega (arith, h.size, h.room);
            allocated = omega (arith, h.allocated, length-set t.cells a.size v);
            small = h.small;
          },
          ap (λ n. take n done.cells) h.size
              ∙ take-suc-set a.size t.cells v inside
              ∙ ap (λ xs. xs ++ v ∷ []) (h.kept a.size (omega arith)),
        ),
      )

  -- what `array1_pop` leaves, its size apart
  abbrev rest : Array1 V → ℕ → Array1 V
  rest a n = if ltb (n * 4 % 2 ^ 64) a.alloc_size then shrink junk a else a

  -- the first `n` elements of `a` are still there
  record Keeps (n : ℕ) (a r : Array1 V) : Type ℓ where
    used : n ≤ r.alloc_size
    allocated : r.alloc_size ≤ length r.cells
    small : r.alloc_size < 2 ^ 62
    kept : take n r.cells ≡ take n a.cells

  shrink-Keeps :
      (a : Array1 V) (n : ℕ)
      → IsArray a
      → n < a.size
      → n * 4 < a.alloc_size
      → Keeps n a (shrink junk a)
  unfolding shrink
  shrink-Keeps a n valid lt few = elim (Bool-cases (ltb (a.alloc_size / 2) 2)) [
    | inl low ↦ rw low (record {
      used = ground arith;
      allocated = length-resize junk 2 a.cells;
      small = omega arith;
      kept = take-append n 2 a.cells _ (ground arith) (omega (arith, valid.used, valid.allocated));
    })
    | inr high ↦ rw high (record {
      used = omega arith;
      allocated = length-resize junk (a.alloc_size / 2) a.cells;
      small = omega (arith, valid.small);
      kept =
          take-append n (a.alloc_size / 2) a.cells _ (omega arith)
            (omega (arith, valid.used, valid.allocated));
    })
  ]

  rest-Keeps : (a : Array1 V) (n : ℕ) → IsArray a → n < a.size → Keeps n a (rest a n)
  rest-Keeps a n valid lt = elim (Bool-cases (ltb (n * 4 % 2 ^ 64) a.alloc_size)) [
    | inl few ↦
        rw few (shrink-Keeps a n valid lt (omega (arith, ltb→lt _ _ few, valid.used, valid.small)))
    | inr many ↦ rw many (record {
      used = omega (arith, valid.used);
      allocated = valid.allocated;
      small = valid.small;
      kept = refl;
    })
  ]

  popped :
      (a : Array1 V) (n : ℕ)
      → a.size ≡ suc n
      → IsArray a
      → Returns (array1_pop junk a) (λ r. IsArray r.0 × (elements a ≡ elements r.0 ++ r.1 ∷ []))
  unfolding array1_pop
  popped a n e valid =
      let h = rest-Keeps a n valid (omega arith) in
      let inside : n < length a.cells = omega (arith, valid.used, valid.allocated) in
      let some_left : (a.size == 0) ≡ false = ground arith in
      let back : (a.size + 2 ^ 64 - 1) % 2 ^ 64 ≡ n = omega (arith, valid.used, valid.small) in
      (
        (record (rest a n) { size = n }, get_or a.cells n junk),
        rw (some_left, back, at-get_or a.cells n junk inside) refl,
        (
          record { used = h.used; allocated = h.allocated; small = h.small },
          ap (λ k. take k a.cells) e
              ∙ take-suc n a.cells junk inside
              ∙ ap (λ xs. xs ++ get_or a.cells n junk ∷ []) (sym h.kept),
        ),
      )

  -- On an array whose cells are allocated, array1_pop raises if there is no element; else it takes
  -- off the last element and returns it, and leaves an array whose cells are allocated, whether or
  -- not it shrinks.
  pub array1_pop-elements :
      (a : Array1 V)
      → IsArray a
      → (a.size ≡ 0 → array1_pop junk a ≡ stop raised)
        × (0 < a.size
            → Returns
                (array1_pop junk a)
                (λ r. IsArray r.0 × (elements a ≡ elements r.0 ++ r.1 ∷ [])))
  unfolding array1_pop
  array1_pop-elements a valid = (
    λ e. let none_left : (a.size == 0) ≡ true = ground arith in rw none_left refl,
    λ some_left. popped a (a.size - 1) (omega arith) valid,
  )

  put_end : (xs : List V) (v : V) → put xs (length xs) v ≡ stop out_of_bounds
  unfolding put
  put_end [] v = refl
  put_end (x ∷ xs) v = rw (put_end xs v) refl

  -- An array of at least one and fewer than 2 ^ 61 elements as array1_new makes it claims twice the
  -- cells that it has: array1_push does not grow it, and writes behind its last cell.
  pub array1_new-array1_push :
      (n : ℕ) (v : V)
      → 0 < n
      → n < 2 ^ 61
      → array1_push junk (array1_new junk n) v ≡ stop out_of_bounds
  unfolding array1_push array1_new
  array1_new-array1_push n v some_left small =
      let next : (n + 1) % 2 ^ 64 ≡ suc n = omega arith in
      let back : (suc n + 2 ^ 64 - 1) % 2 ^ 64 ≡ n = omega arith in
      let room : ltb (n * 2 % 2 ^ 64) (suc n) ≡ false = le→ltb _ _ (omega arith) in
      let behind : put (replicate n junk) n v ≡ stop out_of_bounds =
        rw (length-replicate n junk) at (put_end (replicate n junk) v) in
      rw (next, back, room, behind) refl
