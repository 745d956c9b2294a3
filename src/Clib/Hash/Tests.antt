-- ===== src/Clib/Hash/Tests.antt =====
-- Runs of hash_bytes.
use ripe.Prelude.{◌≡◌, refl, [], ◌∷◌, none, some}
use ripe.Prelude.Int.{pos, negsuc}
use ripe.Prelude.Outcome.{ok, stop, out_of_bounds, at}
use ripe.Clib.Hash.{
  get16bits, mix, mix_from, finish1, finish2, finish3, finish, avalanche, hash_bytes, hash_string,
}

program : Unit {0}
unfolding get16bits mix mix_from finish1 finish2 finish3 finish avalanche hash_bytes hash_string at
program = tt

no_bytes : hash_string [] ≡ ok 0
unfolding program
no_bytes = refl

null : hash_bytes none (pos 4) ≡ ok 0
unfolding program
null = refl

negative : hash_bytes (some (97 ∷ [])) (negsuc 0) ≡ ok 0
unfolding program
negative = refl

too_few : hash_bytes (some (97 ∷ 98 ∷ 99 ∷ 100 ∷ 101 ∷ [])) (pos 6) ≡ stop out_of_bounds
unfolding program
too_few = refl
