-- ===== src/Clib/StringBuf.antt =====
-- The string buffer of clib/stringbuf.c. `str` is the memory behind the pointer, of which `junk` is
-- what a fresh byte holds; `size` counts the NUL. A C string is the list of its bytes before the NUL.
pub mod Room
mod Writes
pub mod Texts
mod Tests
use ripe.Prelude.{
  ℕ, zero, suc, ◌+◌, ◌-◌, ◌*◌, ◌%◌, ◌^◌, ◌==◌, ltb, leb, if◌then◌else◌, List, [], ◌∷◌, ◌++◌, length,
  take, drop, replicate,
}
use ripe.Prelude.Outcome.{Outcome, ok, stop, out_of_bounds, put, ◌>>=◌}
use ripe.Prelude.Prefixes.{resize}

pub record StringBuf : Type 0 where
  pub str : List ℕ
  pub size : ℕ
  pub alloc_size : ℕ

-- a write of some bytes into memory
unfoldable pub write_at : List ℕ → ℕ → List ℕ → Outcome (List ℕ)
write_at mem off bytes =
    if leb (off + length bytes) (length mem)
    then ok (take off mem ++ (bytes ++ drop (off + length bytes) mem))
    else stop out_of_bounds

-- the place of the first NUL
unfoldable pub strlen : List ℕ → Outcome ℕ
strlen [] = stop out_of_bounds
strlen (c ∷ mem) = let rest = strlen mem in if c == 0 then ok 0 else rest >>= λ n. ok (suc n)

unfoldable pub strcat : List ℕ → List ℕ → Outcome (List ℕ)
strcat mem s = do n ← strlen mem; write_at mem n (s ++ 0 ∷ [])

-- `mem_strdup`: the bytes before the first NUL
unfoldable pub mem_strdup : List ℕ → Outcome (List ℕ)
mem_strdup [] = stop out_of_bounds
mem_strdup (c ∷ mem) =
    let rest = mem_strdup mem in if c == 0 then ok [] else rest >>= λ s. ok (c ∷ s)

-- strncpy writes `n` bytes, NULs behind the end of `s`
pub strncpy : List ℕ → List ℕ → ℕ → Outcome (List ℕ)
strncpy mem s n = write_at mem 0 (take n s ++ replicate (n - length s) 0)

module _ (junk : ℕ) where
  -- `sbuf->alloc_size = n` with mem_realloc
  abbrev pub realloc : StringBuf → ℕ → StringBuf
  realloc sbuf n = record sbuf { str = resize junk n sbuf.str; alloc_size = n }

  unfoldable pub sbuf_init : List ℕ → Outcome StringBuf
  sbuf_init s = do
    let len : ℕ = length s
    str ← write_at (replicate (len + 1) junk) 0 (s ++ 0 ∷ [])
    ok (record { str = str; size = len + 1; alloc_size = len + 1 })

  -- `text` is what vsnprintf makes of the format and the arguments
  unfoldable pub sbuf_printf : StringBuf → List ℕ → Outcome StringBuf
  sbuf_printf sbuf text = do
    let tlen : ℕ = length text % 2 ^ 32
    let sbuf' : StringBuf =
        if ltb sbuf.alloc_size ((sbuf.size + tlen) % 2 ^ 64)
        then realloc sbuf ((sbuf.size + tlen) * 2 % 2 ^ 64)
        else sbuf
    str ← strcat sbuf'.str text
    ok (record sbuf' { str = str; size = (sbuf'.size + tlen) % 2 ^ 64 })

  pub sbuf_catc : StringBuf → ℕ → Outcome StringBuf
  sbuf_catc sbuf c = do
    let sbuf' : StringBuf =
        if ltb sbuf.alloc_size ((sbuf.size + 1) % 2 ^ 64)
        then realloc sbuf (sbuf.alloc_size * 2 % 2 ^ 64)
        else sbuf
    str ← put sbuf'.str ((sbuf'.size + 2 ^ 64 - 1) % 2 ^ 64) c
    str' ← put str sbuf'.size 0
    ok (record sbuf' { str = str'; size = (sbuf'.size + 1) % 2 ^ 64 })

  pub sbuf_cat : StringBuf → List ℕ → Outcome StringBuf
  sbuf_cat sbuf s = do
    let l : ℕ = length s
    let sbuf' : StringBuf =
        if ltb sbuf.alloc_size ((sbuf.size + l) % 2 ^ 64)
        then realloc sbuf ((sbuf.alloc_size + l) % 2 ^ 64)
        else sbuf
    str ← strcat sbuf'.str s
    ok (record sbuf' { str = str; size = (sbuf'.size + l) % 2 ^ 64 })

  -- `n` is an int64 that is not negative
  pub sbuf_ncat : StringBuf → List ℕ → ℕ → Outcome StringBuf
  sbuf_ncat sbuf s n = do
    let sbuf' : StringBuf =
        if ltb sbuf.alloc_size ((sbuf.size + n) % 2 ^ 64)
        then realloc sbuf ((sbuf.alloc_size + n) % 2 ^ 64)
        else sbuf
    str ← strcat sbuf'.str (take n s)
    ok (record sbuf' { str = str; size = (sbuf'.size + n) % 2 ^ 64 })

  pub sbuf_ncpy : StringBuf → List ℕ → ℕ → Outcome StringBuf
  sbuf_ncpy sbuf s n = do
    let sbuf' : StringBuf = if ltb sbuf.alloc_size (n + 1) then realloc sbuf (n + 1) else sbuf
    str ← strncpy sbuf'.str s n
    str' ← put str n 0
    ok (record sbuf' { str = str'; size = n + 1 })

pub sbuf_clear : StringBuf → Outcome StringBuf
sbuf_clear sbuf = do str ← put sbuf.str 0 0; ok (record sbuf { str = str; size = 1 })
