-- ===== src/Lang/Stacker/Tests.antt =====
-- Runs of break and continue, and the theorems at a concrete stack.
use ripe.Prelude.{ℕ, ◌≡◌, refl, arith, [], ◌∷◌}
use ripe.Prelude.Int.{pos}
use ripe.Prelude.Outcome.{Outcome, ok, stop, thrown, at, put, ◌>>=◌}
use ripe.Clib.Structs.{
  SArray, sarray_init, sarray_pop, sarray_get_ptr, sarray_expand, sarray_append_ptr,
}
use ripe.Clib.Structs.Elements.{IsSArray}
use ripe.Lang.Stacker.{
  StackerElement, loop, for_loop, try_block, stacker_init, stacker_push, stacker_pop, unwind_loop,
  stacker_unwind, stacker_break, stacker_continue,
}
use ripe.Lang.Stacker.Unwinding.{below, Names, stacker_break_lem}

program : Unit {0}
unfolding sarray_init sarray_pop sarray_get_ptr sarray_expand sarray_append_ptr at put stacker_init
    stacker_push stacker_pop unwind_loop stacker_unwind stacker_break stacker_continue
program = tt

abbrev nothing : StackerElement ℕ
nothing = record { type = loop; break_label = 0; continue_label = 0 }

-- a try around a loop around a for
abbrev nested : Outcome (SArray (StackerElement ℕ))
nested = do
  a ← stacker_push nothing (stacker_init nothing) try_block 0 0
  b ← stacker_push nothing a loop 1 2
  stacker_push nothing b for_loop 3 4

break_inner : (nested >>= λ s. stacker_break s (pos 1)) ≡ ok 3
unfolding program
break_inner = refl

continue_outer : (nested >>= λ s. stacker_continue s (pos 2)) ≡ ok 2
unfolding program
continue_outer = refl

break_try : (nested >>= λ s. stacker_break s (pos 3)) ≡ stop thrown
unfolding program
break_try = refl

break_zero : (nested >>= λ s. stacker_break s (pos 0)) ≡ stop thrown
unfolding program
break_zero = refl

abbrev two : SArray (StackerElement ℕ)
two = record {
  cells =
      record { type = try_block; break_label = 0; continue_label = 0 }
      ∷ record { type = loop; break_label = 1; continue_label = 2 }
      ∷ [];
  size = 2;
  alloc_size = 2;
}

two-IsSArray : IsSArray two
two-IsSArray = record { used = omega arith; allocated = omega arith; some_cells = omega arith }

stacker_break_lem_example :
    ((k : ℕ)
      → Names nothing two (pos 1) k
      → (stacker_break two (pos 1) ≡ ok (below nothing two 2 k).break_label)
        × (stacker_continue two (pos 1) ≡ ok (below nothing two 2 k).continue_label))
    × (((k : ℕ) → ¬ (Names nothing two (pos 1) k))
        → (stacker_break two (pos 1) ≡ stop thrown) × (stacker_continue two (pos 1) ≡ stop thrown))
stacker_break_lem_example = stacker_break_lem nothing two two-IsSArray (pos 1)
