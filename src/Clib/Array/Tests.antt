-- ===== src/Clib/Array/Tests.antt =====
-- Runs of arrays of numbers, and the theorem at a concrete array.
use ripe.Prelude.{ℕ, ◌≡◌, refl, arith, List, [], ◌∷◌, ◌++◌}
use ripe.Prelude.Int.{pos}
use ripe.Prelude.Outcome.{Outcome, ok, at, put, Returns, ◌>>=◌}
use ripe.Clib.Array.{
  Array, array_init2, array_get2, array_set2, array_clear, move_up, next_size, array_expand,
  array_append2, array_prepend,
}
use ripe.Clib.Array.Elements.{elements, IsArray, array_grow-elements}

program : Unit {0}
unfolding array_init2 array_get2 array_set2 array_clear move_up next_size array_expand array_append2
    array_prepend at put
program = tt

abbrev session : Outcome (List ℕ × ℕ × ℕ)
session = do
  a ← array_append2 0 (array_init2 0 8) 1
  b ← array_append2 0 a 2
  c ← array_prepend 0 b 3
  d ← array_set2 c 9 (pos 1)
  v ← array_get2 d (pos 2)
  ok (elements d, d.alloc_size, v)

session_lem : session ≡ ok (3 ∷ 9 ∷ 2 ∷ [], 4, 2)
unfolding program
session_lem = refl

abbrev two : Array ℕ
two = record { cells = 1 ∷ 2 ∷ []; size = 2; alloc_size = 2; el_size = 8 }

two-IsArray : IsArray two
two-IsArray = record {
  used = omega arith;
  allocated = omega arith;
  some_cells = omega arith;
  some_bytes = omega arith;
  few_bytes = omega arith;
}

array_grow-elements_example :
    Returns (array_append2 0 two 7) (λ r. IsArray r × (elements r ≡ elements two ++ 7 ∷ []))
    × Returns (array_prepend 0 two 7) (λ r. IsArray r × (elements r ≡ 7 ∷ elements two))
array_grow-elements_example = array_grow-elements 0 two 7 two-IsArray (omega arith)
