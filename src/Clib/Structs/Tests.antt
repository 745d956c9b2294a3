-- ===== src/Clib/Structs/Tests.antt =====
-- Runs of simple arrays of numbers, and the theorem at a concrete array.
use ripe.Prelude.{ℕ, ◌≡◌, refl, List, [], ◌∷◌}
use ripe.Prelude.Int.{pos}
use ripe.Prelude.Outcome.{Outcome, ok, at, put, ◌>>=◌}
use ripe.Clib.Structs.{
  sarray_init, sarray_pop, sarray_get_ptr, sarray_pop_ptr, sarray_expand, sarray_append_ptr,
}
use ripe.Clib.Structs.Elements.{elements}

program : Unit {0}
unfolding sarray_init sarray_pop sarray_get_ptr sarray_pop_ptr sarray_expand sarray_append_ptr at
    put
program = tt

abbrev session : Outcome (List ℕ × ℕ × ℕ)
session = do
  a ← sarray_append_ptr 0 (sarray_init 0) 1
  b ← sarray_append_ptr 0 a 2
  c ← sarray_append_ptr 0 b 3
  (d, v) ← sarray_pop_ptr c
  w ← sarray_get_ptr d (pos 1)
  ok (elements d, v, w)

session_lem : session ≡ ok (1 ∷ 2 ∷ [], 3, 2)
unfolding program
session_lem = refl
