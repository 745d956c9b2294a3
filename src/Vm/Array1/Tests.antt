-- ===== src/Vm/Array1/Tests.antt =====
-- Runs of arrays of numbers, and the theorems at concrete arrays.
use ripe.Prelude.{ℕ, ◌<◌, ◌≡◌, ◌⊎◌, refl, arith, List, [], ◌∷◌, ◌++◌, set}
use ripe.Prelude.Int.{pos, negsuc}
use ripe.Prelude.Outcome.{Outcome, ok, stop, raised, out_of_bounds, at, put, Returns, ◌>>=◌}
use ripe.Vm.Index.{util_index}
use ripe.Vm.Index.Bounds.{Names}
use ripe.Vm.Array1.{
  Array1, copy_from, array1_to_val, array1_new, array1_index, array1_index_set, shrink, array1_pop,
  grow, array1_push,
}
use ripe.Vm.Array1.Elements.{elements, IsArray}
use ripe.Vm.Array1.Growth.{array1_push-elements, array1_pop-elements, array1_new-array1_push}
use ripe.Vm.Array1.Access.{array1_index-elements}

program : Unit {0}
unfolding util_index copy_from array1_to_val array1_new array1_index array1_index_set shrink
    array1_pop grow array1_push at put
program = tt

abbrev three : Array1 ℕ
three = record { size = 3; alloc_size = 3; cells = 10 ∷ 20 ∷ 30 ∷ [] }

three-IsArray : IsArray three
three-IsArray = record { used = omega arith; allocated = omega arith; small = omega arith }

abbrev session : Outcome (List ℕ × ℕ × ℕ)
session = do
  a ← array1_to_val 0 2 (1 ∷ 2 ∷ [])
  b ← array1_push 0 a 3
  c ← array1_push 0 b 4
  d ← array1_push 0 c 5
  (e, v) ← array1_pop 0 d
  f ← array1_index_set e (negsuc 0) 9
  w ← array1_index f (pos 4)
  ok (elements f, v, w)

session_lem : session ≡ ok (1 ∷ 2 ∷ 3 ∷ 9 ∷ [], 5, 9)
unfolding program
session_lem = refl

array1_push-elements_example :
    Returns (array1_push 0 three 40) (λ r. IsArray r × (elements r ≡ elements three ++ 40 ∷ []))
array1_push-elements_example = array1_push-elements 0 three 40 three-IsArray (omega arith)

array1_pop-elements_example :
    (three.size ≡ 0 → array1_pop 0 three ≡ stop raised)
    × (0 < three.size
        → Returns
            (array1_pop 0 three)
            (λ r. IsArray r.0 × (elements three ≡ elements r.0 ++ r.1 ∷ [])))
array1_pop-elements_example = array1_pop-elements 0 three three-IsArray

array1_new-array1_push_example : array1_push {V = ℕ} 0 (array1_new 0 4) 7 ≡ stop out_of_bounds
array1_new-array1_push_example = array1_new-array1_push {V = ℕ} 0 4 7 (omega arith) (omega arith)

array1_index-elements_example :
    ((array1_index three (pos 2) ≡ stop raised)
      × (array1_index_set three (pos 2) 21 ≡ stop raised)
      × ((k : ℕ) → ¬ (Names 3 (pos 2) k)))
    ⊎ ((k : ℕ) × Names 3 (pos 2) k
        × (array1_index three (pos 2) ≡ at (elements three) k)
        × Returns
            (array1_index_set three (pos 2) 21)
            (λ r. IsArray r × (elements r ≡ set (elements three) k 21)))
array1_index-elements_example = array1_index-elements three (pos 2) 21 three-IsArray
