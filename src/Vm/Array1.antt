-- ===== src/Vm/Array1.antt =====
-- Array1 of vm/builtin/Arrays.c, the growing array of Ripe. `cells` is `data`, the list of the
-- cells that are allocated; `junk` is what a fresh cell holds. uint64 sums and products wrap.
pub mod Elements
pub mod Growth
pub mod Access
mod Tests
use ripe.Prelude.{
  ℕ, zero, suc, ◌+◌, ◌-◌, ◌*◌, ◌/◌, ◌%◌, ◌^◌, Bool, true, false, ◌==◌, ltb, if◌then◌else◌, List,
  ◌++◌, length, take, replicate,
}
use ripe.Prelude.Int.{ℤ, pos, negsuc, of_word}
use ripe.Prelude.Outcome.{Outcome, ok, stop, raised, out_of_bounds, at, put, ◌>>=◌}
use ripe.Prelude.Prefixes.{resize}
use ripe.Vm.Index.{util_index}

pub record Array1 {ℓ} (V : Type ℓ) : Type ℓ where
  pub size : ℕ
  pub alloc_size : ℕ
  pub cells : List V

-- a cell at an int64
abbrev pub cell : ℤ → Outcome ℕ
cell (pos k) = ok k
cell (negsuc k) = stop out_of_bounds

module _ {ℓ} {V : Type ℓ} where
  pub array1_index : Array1 V → ℤ → Outcome V
  array1_index a idx = do place ← util_index idx (of_word a.size); i ← cell place; at a.cells i

  pub array1_index_set : Array1 V → ℤ → V → Outcome (Array1 V)
  array1_index_set a idx v = do
    place ← util_index idx (of_word a.size)
    i ← cell place
    block ← put a.cells i v
    ok (record a { cells = block })

module _ {ℓ} {V : Type ℓ} (junk : V) where
  -- the loop of `array1_to_val`, with the rounds left and `i`
  pub copy_from : List V → ℕ → ℕ → List V → Outcome (List V)
  copy_from given zero i block = ok block
  copy_from given (suc rounds) i block = do
    v ← at given i
    block' ← put block i v
    copy_from given rounds (i + 1) block'

  pub array1_to_val : ℕ → List V → Outcome (Array1 V)
  array1_to_val num_elements given = do
    block ← copy_from given num_elements 0 (replicate (num_elements * 2 % 2 ^ 64) junk)
    ok (record { size = num_elements; alloc_size = num_elements * 2 % 2 ^ 64; cells = block })

  pub array1_new : ℕ → Array1 V
  array1_new num_elements = record {
    size = num_elements;
    alloc_size = num_elements * 2 % 2 ^ 64;
    cells = replicate num_elements junk;
  }

  -- `alloc_size` and `cells` behind the shrinking in `array1_pop`
  pub shrink : Array1 V → Array1 V
  shrink a =
      let half : ℕ = if ltb (a.alloc_size / 2) 2 then 2 else a.alloc_size / 2 in
      record a { alloc_size = half; cells = resize junk half a.cells }

  pub array1_pop : Array1 V → Outcome (Array1 V × V)
  array1_pop a = if a.size == 0 then stop raised else do
    let size : ℕ = (a.size + 2 ^ 64 - 1) % 2 ^ 64
    rv ← at a.cells size
    let rest : Array1 V = if ltb (size * 4 % 2 ^ 64) a.alloc_size then shrink a else a
    ok (record rest { size = size }, rv)

  -- `alloc_size` and `cells` behind the growing in `array1_push`
  pub grow : Array1 V → Array1 V
  grow a =
      let doubled : ℕ = a.alloc_size * 2 % 2 ^ 64 in
      if doubled == 0
      then record a { alloc_size = 2; cells = replicate 2 junk }
      else record a { alloc_size = doubled; cells = resize junk doubled a.cells }

  pub array1_push : Array1 V → V → Outcome (Array1 V)
  array1_push a v = do
    let size : ℕ = (a.size + 1) % 2 ^ 64
    let a' : Array1 V =
        if ltb a.alloc_size size then grow (record a { size = size }) else record a { size = size }
    block ← put a'.cells ((size + 2 ^ 64 - 1) % 2 ^ 64) v
    ok (record a' { cells = block })
