-- ===== src/Clib/Utf8/Tests.antt =====
-- Runs of `read` and `write`, and the theorems at concrete characters.
use ripe.Prelude.{◌≤◌, ◌<◌, ◌≡◌, ℕ, refl, List, [], ◌∷◌, ◌++◌, length, take}
use ripe.Clib.Utf8.{
  done, fail, invalid, limited, seek, needs, read2, read3, read4, read, octets, write,
}
use ripe.Clib.Utf8.RoundTrip.{write-read}

program : Unit {0}
unfolding needs read2 read3 read4 read octets write
program = tt

-- the euro sign
euro_written : write 4 0x20AC ≡ done (0xE2 ∷ 0x82 ∷ 0xAC ∷ [])
unfolding program
euro_written = refl

euro_limited : write 2 0x20AC ≡ fail limited
unfolding program
euro_limited = refl

euro_read : read (0xE2 ∷ 0x82 ∷ 0xAC ∷ 0x21 ∷ []) ≡ done (0x20AC, 0x21 ∷ [])
unfolding program
euro_read = refl

inside : read (0x82 ∷ 0xAC ∷ []) ≡ fail seek
unfolding program
inside = refl

bad_octet : read (0xE2 ∷ 0x82 ∷ 0x21 ∷ []) ≡ fail invalid
unfolding program
bad_octet = refl

write-read_example :
    (0x10FFFF < 0x20AC → write 4 0x20AC ≡ fail invalid)
    × (0x20AC ≤ 0x10FFFF → 4 < needs 0x20AC → write 4 0x20AC ≡ fail limited)
    × (0x20AC ≤ 0x10FFFF
        → needs 0x20AC ≤ 4
        → (bs : List ℕ) × (write 4 0x20AC ≡ done bs)
          × (length bs ≡ needs 0x20AC)
          × ((rest : List ℕ) → read (bs ++ rest) ≡ done (0x20AC, rest))
          × ((k : ℕ) → k < needs 0x20AC → read (take k bs) ≡ fail limited))
write-read_example = write-read 4 0x20AC
