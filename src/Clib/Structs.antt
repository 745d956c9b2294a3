-- ===== src/Clib/Structs.antt =====
-- The simple array of clib/structs.c. A cell holds a pointer; `junk` is what a fresh cell holds; sizes
-- are uint numbers.
pub mod Elements
mod Tests
use ripe.Prelude.{
  ℕ, ◌+◌, ◌-◌, ◌*◌, ◌%◌, ◌^◌, Bool, true, false, ltb, if◌then◌else◌, List, replicate,
}
use ripe.Prelude.Int.{ℤ, pos, negsuc}
use ripe.Prelude.Outcome.{Outcome, ok, stop, assertion, assert, at, put, ◌>>=◌, ◌>>◌}
use ripe.Prelude.Prefixes.{resize}

pub record SArray {ℓ} (V : Type ℓ) : Type ℓ where
  pub cells : List V
  pub size : ℕ
  pub alloc_size : ℕ

module _ {ℓ} {V : Type ℓ} where
  unfoldable pub sarray_pop : SArray V → Outcome (SArray V)
  sarray_pop arr = do assert (ltb 0 arr.size); ok (record arr { size = arr.size - 1 })

  unfoldable pub sarray_get_ptr : SArray V → ℤ → Outcome V
  sarray_get_ptr arr (pos idx) = do assert (ltb idx arr.size); at arr.cells idx
  sarray_get_ptr arr (negsuc idx) = stop assertion

  unfoldable pub sarray_pop_ptr : SArray V → Outcome (SArray V × V)
  sarray_pop_ptr arr = do
    assert (ltb 0 arr.size)
    v ← at arr.cells (arr.size - 1)
    ok (record arr { size = arr.size - 1 }, v)

module _ {ℓ} {V : Type ℓ} (junk : V) where
  unfoldable pub sarray_init : SArray V
  sarray_init = record { cells = replicate 2 junk; size = 0; alloc_size = 2 }

  -- mem_realloc gets the bytes as a size_t
  unfoldable pub sarray_expand : SArray V → Outcome (SArray V)
  sarray_expand arr = do
    assert (ltb 0 arr.alloc_size)
    let alloc_size : ℕ = arr.alloc_size * 2 % 2 ^ 32
    if ltb arr.size arr.alloc_size
        then ok arr
        else ok (record arr { alloc_size = alloc_size; cells = resize junk alloc_size arr.cells })

  unfoldable pub sarray_append_ptr : SArray V → V → Outcome (SArray V)
  sarray_append_ptr arr v = do
    arr' ← sarray_expand arr
    cells ← put arr'.cells arr'.size v
    ok (record arr' { cells = cells; size = (arr'.size + 1) % 2 ^ 32 })
