-- ===== src/Vm/Array1/Elements.antt =====
-- The elements of an array, and the arrays whose cells are there.
use ripe.Prelude.{◌^◌, ◌≤◌, ◌<◌, List, length, take}
use ripe.Vm.Array1.{Array1}

module _ {ℓ} {V : Type ℓ} where
  abbrev pub elements : Array1 V → List V
  elements a = take a.size a.cells

  -- an array whose cells are there
  pub record IsArray (a : Array1 V) : Type 0 where
    pub used : a.size ≤ a.alloc_size
    pub allocated : a.alloc_size ≤ length a.cells
    pub small : a.alloc_size < 2 ^ 62
