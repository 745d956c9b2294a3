-- ===== src/Clib/Array/Elements.antt =====
-- The operations of the array on the list of its elements.
use native.Mathlib.Nat as Nat
use ripe.Prelude.{
  ℕ, zero, suc, ◌+◌, ◌-◌, ◌*◌, ◌/◌, ◌%◌, ◌^◌, ◌≤◌, ◌<◌, ◌≡◌, refl, sym, ap, ◌∙◌, arith, Bool-cases,
  inl, inr, ltb, lt→ltb, le→ltb, le→leb, ltb→lt, ltb→le, List, [], ◌∷◌, ◌++◌, length, take, drop,
  set, length-set, length-append,
}
use ripe.Prelude.Int.{ℤ, pos, negsuc}
use ripe.Prelude.Outcome.{ok, stop, assertion, at, put, put-set, Returns, ◌>>=◌}
use ripe.Prelude.Prefixes.{
  resize, take-append, take-suc-set, length-take, at-take, take-set, length-resize,
}
use ripe.Clib.Array.{
  Array, array_get2, array_set2, move_up, next_size, array_expand, array_append2, array_prepend,
}

module _ {ℓ} {V : Type ℓ} where
  abbrev pub elements : Array V → List V
  elements arr = take arr.size arr.cells

  -- an array whose cells are there, and which can grow
  pub record IsArray (arr : Array V) : Type 0 where
    pub used : arr.size ≤ arr.alloc_size
    pub allocated : arr.alloc_size ≤ length arr.cells
    pub some_cells : 0 < arr.alloc_size
    pub some_bytes : 0 < arr.el_size
    pub few_bytes : arr.el_size ≤ 64

doubles : (n : ℕ) → 0 < n → n < 2 ^ 31 → next_size n ≡ n * 2
unfolding next_size
doubles n low high = ground arith

mod-lt : (n : ℕ) → n < 2 ^ 32 → n % 2 ^ 32 ≡ n
mod-lt n lt = omega arith

module _ {ℓ} {V : Type ℓ} (junk : V) where
  -- an array of the same elements with room for one more
  record HasRoom (a r : Array V) : Type ℓ where
    same_size : r.size ≡ a.size
    same_el : r.el_size ≡ a.el_size
    room : r.size < r.alloc_size
    allocated : r.alloc_size ≤ length r.cells
    kept : take a.size r.cells ≡ take a.size a.cells

  array_expand-HasRoom :
      (a : Array V) → IsArray a → a.size < 2 ^ 24 → Returns (array_expand junk a) (HasRoom a)
  unfolding array_expand
  array_expand-HasRoom a v small =
      let bytes = lt→ltb 0 a.el_size v.some_bytes in
      elim (Bool-cases (ltb a.size a.alloc_size)) [
        | inl less ↦ (
          a,
          rw (bytes, less) refl,
          record {
            same_size = refl;
            same_el = refl;
            room = ltb→lt _ _ less;
            allocated = v.allocated;
            kept = refl;
          },
        )
        | inr more ↦
            let exact : a.alloc_size ≡ a.size = omega (arith, v.used, ltb→le _ _ more) in
            let doubled : next_size a.alloc_size ≡ a.alloc_size * 2 =
              doubles a.alloc_size v.some_cells (omega arith) in
            let few : a.el_size * (a.alloc_size * 2) ≤ 64 * 2 ^ 25 =
              Nat.mul-le-mul {n₁ = a.el_size} {m₁ = a.alloc_size * 2} {n₂ = 64} {m₂ = 2 ^ 25}
                v.few_bytes (omega arith) in
            let room : a.el_size * (a.alloc_size * 2) % 2 ^ 32 / a.el_size ≡ a.alloc_size * 2 =
              ap (λ t. t / a.el_size) (mod-lt _ (omega arith))
              ∙ Nat.mul-div_cancel_left (a.alloc_size * 2) v.some_bytes in
            (
              record a {
                alloc_size = a.alloc_size * 2;
                cells = resize junk (a.alloc_size * 2) a.cells;
              },
              rw (bytes, doubled, more, room) refl,
              record {
                same_size = refl;
                same_el = refl;
                room = omega (arith, v.some_cells);
                allocated = length-resize junk (a.alloc_size * 2) a.cells;
                kept =
                    take-append a.size (a.alloc_size * 2) a.cells _ (omega arith)
                      (omega (arith, v.used, v.allocated));
              },
            )
      ]

  appended :
      (a r : Array V) (el : V)
      → IsArray a
      → HasRoom a r
      → a.size < 2 ^ 24
      → Returns
          (do
            cells ← put r.cells r.size el
            ok (record r { cells = cells; size = (r.size + 1) % 2 ^ 32 }))
          (λ t. IsArray t × (elements t ≡ elements a ++ el ∷ []))
  appended a r el v h small =
      let inside : r.size < length r.cells = omega (arith, h.room, h.allocated) in
      let next : (r.size + 1) % 2 ^ 32 ≡ suc a.size = omega (arith, h.same_size) in
      let here : r.size ≡ a.size = h.same_size in
      (
        record r { cells = set r.cells r.size el; size = suc a.size },
        rw (put-set r.cells r.size el inside, next) refl,
        (
          record {
            used = omega (arith, h.room, h.same_size);
            allocated = omega (arith, h.allocated, length-set r.cells r.size el);
            some_cells = omega (arith, h.room);
            some_bytes = rw h.same_el v.some_bytes;
            few_bytes = rw h.same_el v.few_bytes;
          },
          rw here (
              take-suc-set a.size r.cells el (omega (arith, h.same_size, inside))
              ∙ ap (λ xs. xs ++ el ∷ []) h.kept),
        ),
      )

  length-drop : (n : ℕ) (xs : List V) → length (drop n xs) ≡ length xs - n
  length-drop zero xs = omega arith
  length-drop (suc n) [] = omega arith
  length-drop (suc n) (x ∷ xs) = omega (arith, length-drop n xs)

  -- the cells behind `move_up` and the write of the first one
  record Moved (n : ℕ) (xs : List V) (el : V) (moved : List V) : Type ℓ where
    cells : List V
    written : put moved 0 el ≡ ok cells
    width : length cells ≡ length xs
    shifted : take (suc n) cells ≡ el ∷ take n xs

  move_up-Moved :
      (n : ℕ) (xs : List V) (el : V) → n < length xs → Returns (move_up xs n) (Moved n xs el)
  unfolding move_up put
  move_up-Moved n [] el h = absurd (omega arith)
  move_up-Moved n (x ∷ xs) el h =
      let tail = take n (x ∷ xs) ++ drop (n + 1) (x ∷ xs) in
      let e = length-append (take n (x ∷ xs)) (drop (n + 1) (x ∷ xs)) in
      (
        x ∷ tail,
        rw (lt→ltb n (suc (length xs)) h) refl,
        record {
          cells = el ∷ tail;
          written = refl;
          width =
              omega (arith, e, length-take n (x ∷ xs) (omega arith), length-drop (n + 1) (x ∷ xs));
          shifted = ap (λ t. el ∷ t) (take-append n n (x ∷ xs) _ (omega arith) (omega arith));
        },
      )

  -- On an array of fewer than 2 ^ 24 elements of 1 to 64 bytes, whose cells are allocated,
  -- array_append2 and array_prepend do not fail and return such an array, with the element behind
  -- and before the others, whether or not they had to grow.
  pub array_grow-elements :
      (a : Array V) (el : V)
      → IsArray a
      → a.size < 2 ^ 24
      → Returns (array_append2 junk a el) (λ r. IsArray r × (elements r ≡ elements a ++ el ∷ []))
        × Returns (array_prepend junk a el) (λ r. IsArray r × (elements r ≡ el ∷ elements a))
  unfolding array_append2 array_prepend
  array_grow-elements a el v small =
      let (r, run, h) = array_expand-HasRoom a v small in
      let (t, run', ht) = appended a r el v h small in
      let (m, move, q) = move_up-Moved r.size r.cells el (omega (arith, h.room, h.allocated)) in
      let next : (r.size + 1) % 2 ^ 32 ≡ suc a.size = omega (arith, h.same_size) in
      let here : r.size ≡ a.size = h.same_size in
      (
        (t, rw (le→leb _ _ v.few_bytes, lt→ltb _ _ v.some_cells, run, lt→ltb _ _ h.room) run', ht),
        (
          record r { cells = q.cells; size = suc a.size },
          rw (run, move, q.written, next) refl,
          (
            record {
              used = omega (arith, h.room, h.same_size);
              allocated = omega (arith, h.allocated, q.width);
              some_cells = omega (arith, h.room);
              some_bytes = rw h.same_el v.some_bytes;
              few_bytes = rw h.same_el v.few_bytes;
            },
            rw here at q.shifted ∙ ap (λ xs. el ∷ xs) h.kept,
          ),
        ),
      )

module _ {ℓ} {V : Type ℓ} where
  outside :
      (a : Array V) (i : ℤ) (src : V)
      → ((k : ℕ) → i ≡ pos k → a.size ≤ k)
      → (array_get2 a i ≡ stop assertion) × (array_set2 a src i ≡ stop assertion)
  unfolding array_get2 array_set2
  outside a (pos i) src out = let far = le→ltb i a.size (out i refl) in (rw far refl, rw far refl)
  outside a (negsuc i) src out = (refl, refl)

  -- On an array whose cells are allocated, array_get2 and array_set2 read and replace the element at
  -- an index below the size, and nothing else; for every other index an assertion of both fails.
  pub array_get2-elements :
      (a : Array V) (i : ℤ) (src : V)
      → IsArray a
      → ((k : ℕ)
          → k < a.size
          → (array_get2 a (pos k) ≡ at (elements a) k)
            × Returns
                (array_set2 a src (pos k))
                (λ r. IsArray r × (elements r ≡ set (elements a) k src)))
        × (((k : ℕ) → i ≡ pos k → a.size ≤ k)
            → (array_get2 a i ≡ stop assertion) × (array_set2 a src i ≡ stop assertion))
  unfolding array_get2 array_set2
  array_get2-elements a i src v = (
    λ k lt.
        let inside : k < length a.cells = omega (arith, v.used, v.allocated) in
        (
          rw (lt→ltb k a.size lt) (sym (at-take a.size k a.cells lt)),
          (
            record a { cells = set a.cells k src },
            rw (lt→ltb k a.size lt, put-set a.cells k src inside) refl,
            (
              record {
                used = v.used;
                allocated = omega (arith, v.allocated, length-set a.cells k src);
                some_cells = v.some_cells;
                some_bytes = v.some_bytes;
                few_bytes = v.few_bytes;
              },
              take-set a.size k a.cells src,
            ),
          ),
        ),
    outside a i src,
  )
