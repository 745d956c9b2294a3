-- ===== src/Clib/Primes/Tests.antt =====
-- `map_prime` at concrete arguments.
use ripe.Prelude.{◌≡◌, refl}
use ripe.Prelude.Int.{pos, negsuc, ◌<ℤ◌, ◌≤ℤ◌}
use ripe.Prelude.Outcome.{ok, stop, assertion, Returns}
use ripe.Clib.Primes.{first_above, map_prime}
use ripe.Clib.Primes.Choice.{IsChosen, used_sizes, map_prime_lem}

negative : map_prime (negsuc 4) ≡ ok 13
unfolding map_prime first_above
negative = refl

doubled : map_prime (pos 13) ≡ ok 31
unfolding map_prime first_above
doubled = refl

map_prime_lem_example :
    (pos 61 <ℤ pos 536870909 → Returns (map_prime (pos 61)) (IsChosen (pos 61) used_sizes))
    × (pos 536870909 ≤ℤ pos 61 → map_prime (pos 61) ≡ stop assertion)
map_prime_lem_example = map_prime_lem (pos 61)
