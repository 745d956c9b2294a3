-- ===== src/Vm/Grid.antt =====
-- The indices of Array2 and Array3 of vm/builtin/Arrays.c. The coordinates of an Array2 are int64
-- and those of an Array3 uint64; sums and products wrap.
pub mod Plane
pub mod Space
mod Tests
use ripe.Prelude.{ℕ, ◌+◌, ◌-◌, ◌*◌, ◌%◌, ◌^◌, Bool, true, false, not, ◌&&◌, ltb, leb, if◌then◌else◌}
use ripe.Prelude.Int.{ℤ, pos, negsuc, ◌+ℤ◌, ◌-ℤ◌, ◌*ℤ◌, ltb_ℤ, of_word, wrap}
use ripe.Prelude.Outcome.{Outcome, ok, stop, raised}

pub record Array2 : Type 0 where
  pub size_x : ℕ
  pub size_y : ℕ

pub record Array3 : Type 0 where
  pub size_x : ℕ
  pub size_y : ℕ
  pub size_z : ℕ

pub array2_index : Array2 → ℤ → ℤ → Outcome ℤ
array2_index array x y =
    let size_x = of_word array.size_x in
    let size_y = of_word array.size_y in
    if ltb_ℤ (pos 0) x && not (ltb_ℤ size_x x) && ltb_ℤ (pos 0) y && not (ltb_ℤ size_y y)
    then ok (wrap ((y -ℤ pos 1) +ℤ (x -ℤ pos 1) *ℤ size_y))
    else stop raised

pub array3_index : Array3 → ℕ → ℕ → ℕ → Outcome ℕ
array3_index array x y z =
    if ltb 0 x
      && leb x array.size_x
      && ltb 0 y
      && leb y array.size_y
      && ltb 0 z
      && leb z array.size_z
    then ok (((x - 1) + (y - 1) * array.size_x + (z - 1) * array.size_x * array.size_y) % 2 ^ 64)
    else stop raised
