-- ===== src/Clib/Array.antt =====
-- The growing array of clib/array.c, in units of elements: `cells` is `data`, cut into elements of
-- `el_size` bytes; `junk` is what a fresh cell holds. Products of uint numbers wrap at 2 ^ 32.
pub mod Elements
mod Tests
use ripe.Prelude.{
  ℕ, ◌+◌, ◌-◌, ◌*◌, ◌/◌, ◌%◌, ◌^◌, Bool, true, false, not, ◌==◌, ltb, leb, if◌then◌else◌, List,
  ◌++◌, length, take, drop, replicate,
}
use ripe.Prelude.Int.{ℤ, pos, negsuc}
use ripe.Prelude.Outcome.{Outcome, ok, stop, assertion, out_of_bounds, assert, at, put, ◌>>=◌, ◌>>◌}
use ripe.Prelude.Prefixes.{resize}

pub record Array {ℓ} (V : Type ℓ) : Type ℓ where
  pub cells : List V
  pub size : ℕ
  pub alloc_size : ℕ
  pub el_size : ℕ

-- an int index; a negative one fails its assertion
abbrev pub index : ℤ → Outcome ℕ
index (pos i) = ok i
index (negsuc i) = stop assertion

module _ {ℓ} {V : Type ℓ} where
  pub array_get2 : Array V → ℤ → Outcome V
  array_get2 arr i = do k ← index i; assert (ltb k arr.size); at arr.cells k

  pub array_set2 : Array V → V → ℤ → Outcome (Array V)
  array_set2 arr src i = do
    k ← index i
    assert (ltb k arr.size)
    cells ← put arr.cells k src
    ok (record arr { cells = cells })

  pub array_clear : Array V → Array V
  array_clear arr = record arr { size = 0 }

  -- memmove of the first `n` elements up by one
  pub move_up : List V → ℕ → Outcome (List V)
  move_up cells n =
      if ltb n (length cells)
      then ok (take 1 cells ++ (take n cells ++ drop (n + 1) cells))
      else stop out_of_bounds

-- the new `alloc_size` in `array_expand`
pub next_size : ℕ → ℕ
next_size alloc_size = if alloc_size == 0 then 2 else alloc_size * 2 % 2 ^ 32

module _ {ℓ} {V : Type ℓ} (junk : V) where
  pub array_init2 : ℕ → Array V
  array_init2 sz = record { cells = replicate 2 junk; size = 0; alloc_size = 2; el_size = sz }

  -- mem_realloc gets the bytes `el_size * alloc_size`, a product of uint numbers
  pub array_expand : Array V → Outcome (Array V)
  array_expand arr = do
    assert (ltb 0 arr.el_size)
    let alloc_size : ℕ = next_size arr.alloc_size
    let room : ℕ = arr.el_size * alloc_size % 2 ^ 32 / arr.el_size
    if ltb arr.size arr.alloc_size
        then ok arr
        else ok (record arr { alloc_size = alloc_size; cells = resize junk room arr.cells })

  pub array_append2 : Array V → V → Outcome (Array V)
  array_append2 arr el = do
    assert (leb arr.el_size 64)
    assert (ltb 0 arr.alloc_size)
    arr' ← array_expand arr
    assert (ltb arr'.size arr'.alloc_size)
    cells ← put arr'.cells arr'.size el
    ok (record arr' { cells = cells; size = (arr'.size + 1) % 2 ^ 32 })

  -- `sz` is the size of an element
  pub array_prepend : Array V → V → Outcome (Array V)
  array_prepend arr el = do
    arr' ← array_expand arr
    moved ← move_up arr'.cells arr'.size
    cells ← put moved 0 el
    ok (record arr' { cells = cells; size = (arr'.size + 1) % 2 ^ 32 })
