-- ===== src/Clib/Primes.antt =====
-- `map_prime` of clib/dict.c, which gives the bucket counts of both hash tables.
pub mod Prime
pub mod Residues
pub mod Choice
mod Tests
use ripe.Prelude.{ℕ, Bool, List, [], ◌∷◌, if◌then◌else◌, take, ◌-◌}
use ripe.Prelude.Int.{ℤ, pos, ltb_ℤ}
use ripe.Prelude.Outcome.{Outcome, ok, stop, assertion}

-- `sizes[]`, with MAP_PRIMES entries
abbrev pub sizes : List ℕ
sizes =
    13 ∷ 31 ∷ 61 ∷ 127 ∷ 251 ∷ 509 ∷ 1021 ∷ 2039 ∷ 4093 ∷ 8191 ∷ 16381 ∷ 32749 ∷ 65521 ∷ 131071
    ∷ 262139 ∷ 524287 ∷ 1048573 ∷ 2097143 ∷ 4194301 ∷ 8388593 ∷ 16777213 ∷ 33554393 ∷ 67108859
    ∷ 134217689 ∷ 268435399 ∷ 536870909 ∷ 1073741789 ∷ []

abbrev pub map_primes : ℕ
map_primes = 27

-- the loop; past its end `assert_never` fails
pub first_above : ℤ → List ℕ → Outcome ℕ
first_above n [] = stop assertion
first_above n (size ∷ rest) = if ltb_ℤ n (pos size) then ok size else first_above n rest

-- the loop stops one entry before the end of the table
unfoldable pub map_prime : ℤ → Outcome ℕ
unfolding first_above
map_prime n = first_above n (take (map_primes - 1) sizes)
