-- ===== src/Lang/Stacker/Unwinding.antt =====
-- What break and continue find, and that a push and a pop match.
use ripe.Prelude.{
  ℕ, zero, suc, ◌-◌, ◌^◌, ◌≤◌, ◌<◌, ◌≡◌, refl, ◌∙◌, arith, false, ◌==◌, Bool-cases, inl, inr,
  get_or,
}
use ripe.Prelude.Int.{ℤ, pos, negsuc}
use ripe.Prelude.Outcome.{ok, stop, thrown, at-get_or, Returns, Returns_bind, ◌>>=◌}
use ripe.Clib.Structs.{sarray_get_ptr}
use ripe.Clib.Structs.Elements.{
  elements, IsSArray, sarray_get_ptr_lem, sarray_append_ptr-elements, sarray_pop-elements,
}
use ripe.Lang.Stacker.{
  StackerType, StackerElement, is_boundary, Stacker, stacker_push, stacker_pop, unwind_loop,
  stacker_unwind, stacker_break, stacker_continue,
}

module _ {ℓ} {Label : Type ℓ} (junk : StackerElement Label) (s : Stacker Label) where
  -- the element `j` below the top of the lowest `cur` ones
  abbrev pub below : ℕ → ℕ → StackerElement Label
  below cur j = get_or s.cells (cur - 1 - j) junk

  -- there are `num` elements on top of the lowest `cur`, and all are loops
  abbrev pub Encloses : ℕ → ℕ → Type 0
  Encloses cur num = (num ≤ cur) × ((j : ℕ) → j < num → is_boundary (below cur j).type ≡ false)

  -- the loop that is named by a number, the innermost first
  abbrev pub Names : ℤ → ℕ → Type 0
  Names num k = (num ≡ pos (suc k)) × Encloses s.size (suc k)

  Encloses-suc :
      (cur num : ℕ)
      → is_boundary (below (suc cur) 0).type ≡ false
      → Encloses cur num
      → Encloses (suc cur) (suc num)
  Encloses-suc cur num top (le, inner) = (omega arith, all)
    where
      all : (j : ℕ) → j < suc num → is_boundary (below (suc cur) j).type ≡ false
      all zero lt = top
      all (suc j) lt =
          let e : suc cur - 1 - suc j ≡ cur - 1 - j = omega arith in rw e (inner j (omega arith))

  module _ (valid : IsSArray s) where
    top_at : (cur : ℕ) → cur < s.size → sarray_get_ptr s (pos cur) ≡ ok (below (suc cur) 0)
    top_at cur lt =
        let e : suc cur - 1 - 0 ≡ cur = omega arith in
        rw (sarray_get_ptr_lem s cur lt, e)
          (at-get_or s.cells cur junk (omega (arith, valid.used, valid.allocated)))

    step :
        (cur num : ℕ) {el : StackerElement Label}
        → sarray_get_ptr s (pos cur) ≡ ok el
        → is_boundary el.type ≡ false
        → 0 < num
        → unwind_loop s (suc cur) (suc num) ≡ unwind_loop s cur (suc num - 1)
    unfolding unwind_loop
    step cur num here passed more =
        let again : (suc num - 1 == 0) ≡ false = ground arith in ground arith

    unwind_loop-Encloses :
        (cur num : ℕ)
        → cur ≤ s.size
        → Encloses cur (suc num)
        → unwind_loop s cur (suc num) ≡ ok (below cur num)
    unfolding unwind_loop
    unwind_loop-Encloses zero num le (few, inner) = absurd (omega arith)
    unwind_loop-Encloses (suc cur) zero le (few, inner) =
        ground (arith, top_at cur le, inner 0 (omega arith))
    unwind_loop-Encloses (suc cur) (suc num) le (few, inner) =
        let less : suc (suc num) - 1 ≡ suc num = omega arith in
        let e : suc cur - 1 - suc num ≡ cur - 1 - num = omega arith in
        step cur (suc num) (top_at cur le) (inner 0 (omega arith)) (omega arith)
        ∙ rw (less, e)
            (unwind_loop-Encloses cur num (omega arith) (
              omega arith,
              λ j lt.
                  let e' : suc cur - 1 - suc j ≡ cur - 1 - j = omega arith in
                  rw e' at (inner (suc j) (omega arith)),
            ))

    unwind_loop-thrown :
        (cur num : ℕ)
        → cur ≤ s.size
        → ¬ (Encloses cur (suc num))
        → unwind_loop s cur (suc num) ≡ stop thrown
    unfolding unwind_loop
    unwind_loop-thrown zero num le none_such = refl
    unwind_loop-thrown (suc cur) zero le none_such =
        elim (Bool-cases (is_boundary (below (suc cur) 0).type)) [
          | inl boundary ↦ ground (arith, top_at cur le)
          | inr passed ↦
              absurd
                (none_such (Encloses-suc cur 0 passed (omega arith, λ j lt. absurd (omega arith))))
        ]
    unwind_loop-thrown (suc cur) (suc num) le none_such =
        let less : suc (suc num) - 1 ≡ suc num = omega arith in
        elim (Bool-cases (is_boundary (below (suc cur) 0).type)) [
          | inl boundary ↦ ground (arith, top_at cur le)
          | inr passed ↦
              step cur (suc num) (top_at cur le) passed (omega arith)
              ∙ rw less (
                  unwind_loop-thrown cur num (omega arith)
                    (λ e. none_such (Encloses-suc cur (suc num) passed e)))
        ]

    stacker_unwind-thrown :
        (num : ℤ) → ((k : ℕ) → ¬ (Names num k)) → stacker_unwind s num ≡ stop thrown
    unfolding stacker_unwind
    stacker_unwind-thrown (negsuc n) nothing = refl
    stacker_unwind-thrown (pos zero) nothing = refl
    stacker_unwind-thrown (pos (suc k)) nothing =
        unwind_loop-thrown s.size k (omega arith) (λ e. nothing k (refl, e))

    -- On a stack whose cells are allocated, stacker_break and stacker_continue return the labels of
    -- the loop that the number names, counted from 1 for the innermost, and throw if there are not
    -- so many elements on the stack or one of them down to that one is a try, catch or finally.
    pub stacker_break_lem :
        (num : ℤ)
        → ((k : ℕ)
            → Names num k
            → (stacker_break s num ≡ ok (below s.size k).break_label)
              × (stacker_continue s num ≡ ok (below s.size k).continue_label))
          × (((k : ℕ) → ¬ (Names num k))
              → (stacker_break s num ≡ stop thrown) × (stacker_continue s num ≡ stop thrown))
    unfolding stacker_break stacker_continue stacker_unwind
    stacker_break_lem num = (
      λ k (e, inner).
          let found = unwind_loop-Encloses s.size k (omega arith) inner in
          (rw (e, found) refl, rw (e, found) refl),
      λ nothing. let lost = stacker_unwind-thrown num nothing in (rw lost, rw lost),
    )

    -- What a push puts on a stack of fewer than 2 ^ 30 elements, the next pop takes off, and the
    -- elements below it stay.
    pub stacker_push-stacker_pop :
        (type : StackerType) (break_label continue_label : Label)
        → s.size < 2 ^ 30
        → Returns
            (stacker_push junk s type break_label continue_label >>= stacker_pop)
            (λ r. IsSArray r × (elements r ≡ elements s))
    unfolding stacker_push stacker_pop
    stacker_push-stacker_pop type b c small =
        let el : StackerElement Label = record {
          type = type;
          break_label = b;
          continue_label = c;
        } in
        Returns_bind _ _ (sarray_append_ptr-elements junk s el valid small)
          (λ t (v, e). sarray_pop-elements t (elements s) el v e)
