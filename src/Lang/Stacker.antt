-- ===== src/Lang/Stacker.antt =====
-- The stack of enclosing loops and exception blocks of lang/stacker.c, by which the code generator
-- finds the labels of break and continue.
pub mod Unwinding
mod Tests
use ripe.Prelude.{ℕ, zero, suc, ◌-◌, Bool, true, false, ◌==◌, if◌then◌else◌, List}
use ripe.Prelude.Int.{ℤ, pos, negsuc}
use ripe.Prelude.Outcome.{Outcome, ok, stop, thrown, ◌>>=◌}
use ripe.Clib.Structs.{SArray, sarray_init, sarray_append_ptr, sarray_get_ptr, sarray_pop}

-- STACKER_LOOP, STACKER_FOR, STACKER_TRY, STACKER_FINALLY, STACKER_CATCH
pub data StackerType : Type 0 where
  loop for_loop try_block finally_block catch_block : StackerType

pub record StackerElement {ℓ} (Label : Type ℓ) : Type ℓ where
  pub type : StackerType
  pub break_label : Label
  pub continue_label : Label

-- the test for try, catch and finally
abbrev pub is_boundary : StackerType → Bool
is_boundary loop = false
is_boundary for_loop = false
is_boundary try_block = true
is_boundary finally_block = true
is_boundary catch_block = true

abbrev pub Stacker {ℓ} : Type ℓ → Type ℓ
Stacker Label = SArray (StackerElement Label)

module _ {ℓ} {Label : Type ℓ} where
  pub stacker_init : StackerElement Label → Stacker Label
  stacker_init junk = sarray_init junk

  pub stacker_push :
      StackerElement Label → Stacker Label → StackerType → Label → Label → Outcome (Stacker Label)
  stacker_push junk stacker type break_label continue_label =
      sarray_append_ptr junk stacker
        (record { type = type; break_label = break_label; continue_label = continue_label })

  pub stacker_pop : Stacker Label → Outcome (Stacker Label)
  stacker_pop stacker = sarray_pop stacker

  pub stacker_size : Stacker Label → ℕ
  stacker_size stacker = stacker.size

  -- the loop of `stacker_unwind`, from `cur` on
  pub unwind_loop : Stacker Label → ℕ → ℕ → Outcome (StackerElement Label)
  unwind_loop stacker zero num = stop thrown
  unwind_loop stacker (suc cur) num = do
    el ← sarray_get_ptr stacker (pos cur)
    elim (is_boundary el.type) [
      | true ↦ stop thrown
      | false ↦ elim (num - 1 == 0) [ true ↦ ok el | false ↦ unwind_loop stacker cur (num - 1) ]
    ]

  pub stacker_unwind : Stacker Label → ℤ → Outcome (StackerElement Label)
  stacker_unwind stacker (negsuc n) = stop thrown
  stacker_unwind stacker (pos zero) = stop thrown
  stacker_unwind stacker (pos (suc n)) = unwind_loop stacker stacker.size (suc n)

  pub stacker_break : Stacker Label → ℤ → Outcome Label
  stacker_break stacker num = do el ← stacker_unwind stacker num; ok el.break_label

  pub stacker_continue : Stacker Label → ℤ → Outcome Label
  stacker_continue stacker num = do el ← stacker_unwind stacker num; ok el.continue_label
