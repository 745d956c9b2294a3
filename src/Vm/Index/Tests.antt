-- ===== src/Vm/Index/Tests.antt =====
-- Runs of the indices and ranges, and the theorems at concrete arrays.
use ripe.Prelude.{ℕ, ◌≡◌, refl, arith}
use ripe.Prelude.Int.{pos, negsuc}
use ripe.Prelude.Outcome.{ok, stop, raised}
use ripe.Vm.Index.{
  Range, bounded_left, util_index, util_index_range, range_to_val, range_start, range_delta,
  range_finish,
}
use ripe.Vm.Index.Bounds.{Names, util_index_lem}
use ripe.Vm.Index.Ranges.{Selects, util_index_range_lem}

program : Unit {0}
unfolding util_index util_index_range range_to_val range_start range_delta range_finish
program = tt

last : util_index (negsuc 0) (pos 5) ≡ ok (pos 4)
unfolding program
last = refl

too_far : util_index (pos 6) (pos 5) ≡ stop raised
unfolding program
too_far = refl

abbrev tail : Range
tail = record { start = negsuc 1; finish = pos 0; type = bounded_left }

tail_selected :
    util_index_range (range_to_val bounded_left (negsuc 1) (pos 0)) (pos 5) ≡ ok (pos 3, pos 4)
unfolding program
tail_selected = refl

util_index_lem_example :
    ((k : ℕ) → Names 5 (negsuc 1) k → util_index (negsuc 1) (pos 5) ≡ ok (pos k))
    × (((k : ℕ) → ¬ (Names 5 (negsuc 1) k)) → util_index (negsuc 1) (pos 5) ≡ stop raised)
util_index_lem_example = util_index_lem 5 (negsuc 1) (omega arith)

util_index_range_lem_example : Selects 5 tail
util_index_range_lem_example = util_index_range_lem 5 tail (omega arith) (omega arith)
