-- ===== src/Vm/Grid/Tests.antt =====
-- Places in small grids, and the theorems at concrete sizes.
use ripe.Prelude.{ℕ, suc, ◌*◌, ◌/◌, ◌%◌, ◌<◌, ◌≡◌, ◌≢◌, refl, arith}
use ripe.Prelude.Int.{pos, negsuc}
use ripe.Prelude.Outcome.{ok, stop, raised}
use ripe.Vm.Grid.{Array2, array2_index, array3_index}
use ripe.Vm.Grid.Plane.{array2_index_lem}
use ripe.Vm.Grid.Space.{grid, array3_index_lem}

abbrev plane : Array2
plane = record { size_x = 3; size_y = 4 }

second_row : array2_index plane (pos 2) (pos 1) ≡ ok (pos 4)
unfolding array2_index
second_row = refl

no_column : array2_index plane (pos 2) (pos 5) ≡ stop raised
unfolding array2_index
no_column = refl

-- the first coordinate is the fastest
next_to : (array3_index (grid 3 4 5) 1 1 1 ≡ ok 0) × (array3_index (grid 3 4 5) 2 1 1 ≡ ok 1)
unfolding array3_index
next_to = (refl, refl)

array2_index_lem_example :
    ((i j : ℕ)
      → i < 3
      → j < 4
      → (place : ℕ) × (array2_index plane (pos (suc i)) (pos (suc j)) ≡ ok (pos place))
        × (place < 3 * 4)
        × (place / 4 ≡ i)
        × (place % 4 ≡ j))
    × (((i j : ℕ) → i < 3 → j < 4 → pos 2 ≡ pos (suc i) → negsuc 0 ≢ pos (suc j))
        → array2_index plane (pos 2) (negsuc 0) ≡ stop raised)
array2_index_lem_example =
    array2_index_lem 3 4 (pos 2) (negsuc 0) (omega arith) (omega arith) (omega arith)

array3_index_lem_example :
    ((i j k : ℕ)
      → i < 3
      → j < 4
      → k < 5
      → (place : ℕ) × (array3_index (grid 3 4 5) (suc i) (suc j) (suc k) ≡ ok place)
        × (place < 3 * 4 * 5)
        × (place % 3 ≡ i)
        × (place / 3 % 4 ≡ j)
        × (place / 3 / 4 ≡ k))
    × (((i j k : ℕ) → i < 3 → j < 4 → k < 5 → 4 ≡ suc i → 1 ≡ suc j → 1 ≢ suc k)
        → array3_index (grid 3 4 5) 4 1 1 ≡ stop raised)
array3_index_lem_example = array3_index_lem 3 4 5 4 1 1 (omega arith)
