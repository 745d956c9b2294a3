-- ===== src/Vm/Power/Tests.antt =====
-- Runs of ipow, and the theorem at a concrete power.
use ripe.Prelude.{◌%◌, ◌^◌, ◌≡◌, refl, arith}
use ripe.Prelude.Int.{pos, negsuc, to_word}
use ripe.Vm.Power.{ipow_from, ipow, of_int}
use ripe.Vm.Power.Squares.{ipow_lem}

cube : ipow (negsuc 2) 3 ≡ negsuc 26
unfolding ipow ipow_from
cube = refl

-- 2 ^ 40 fits an Integer
truncated : ipow (pos 2) 40 ≡ pos 0
unfolding ipow ipow_from
truncated = refl

ipow_lem_example : ipow (pos 2) 40 ≡ of_int (to_word (pos 2) ^ 40 % 2 ^ 32)
ipow_lem_example = ipow_lem (pos 2) 40 (omega arith)
