-- ===== src/Vm/HashTable/Tests.antt =====
-- Runs of maps of integers, and the theorems at concrete maps.
use ripe.Prelude.{
  ℕ, ◌+◌, ◌≡◌, refl, true, List, [], ◌∷◌, arith, Option, none, some, is_some, set, if◌then◌else◌,
}
use ripe.Prelude.Int.{ℤ, pos, eqb_ℤ}
use ripe.Prelude.Outcome.{Outcome, Returns_at, ok, at, put, ◌>>=◌, Returns}
use ripe.Clib.Primes.{map_prime}
use ripe.Clib.Primes.Prime.{IsPrime, sizes-AllPrime}
use ripe.Clib.Probing.{probe}
use ripe.Vm.HashTable.{
  HashTable, full, note_empty, empty_or, exhausted, query_from, query, deref, put_value, copy_value,
  rehash_step, rehash_from, rehash, fill, add_key, ht_query, ht_query2, ht_set, ht_set2, ht_remove,
  ht_init, ht_init2,
}
use ripe.Vm.HashTable.View.{view}
use ripe.Vm.HashTable.Methods.{IsValid, empty_table, empty_table-IsValid, ht_query2-view}
use ripe.Vm.HashTable.Writes.{ht_set2-view}
use ripe.Vm.HashTable.Literals.{last_value, set_pairs, ht_new_map, ht_new_map-view}
use ripe.Vm.HashTable.IntegerKey.{integer_key}

program : Unit {0}
unfolding probe note_empty empty_or exhausted query_from query deref put_value copy_value
    rehash_step rehash_from rehash fill add_key ht_query ht_query2 ht_set ht_set2 ht_remove ht_init
    ht_init2 map_prime at put
program = tt

IsPrime-13 : IsPrime 13
IsPrime-13 = sizes-AllPrime.0

abbrev start : HashTable ℤ
start = empty_table true 13

start-IsValid : IsValid true start
start-IsValid = empty_table-IsValid true 13 IsPrime-13 (omega arith) (omega arith)

-- 14 goes to bucket 1
abbrev one : HashTable ℤ
one = record {
  size = 1;
  alloc_size = 13;
  buckets = set start.buckets 1 full;
  keys = set start.keys 1 (pos 14);
  values = some (set start.keys 1 (pos 140));
}

start-one : ht_set2 start (pos 14) (pos 140) ≡ ok one
unfolding program
start-one = refl

one-IsValid : IsValid true one
one-IsValid =
    (Returns_at (ht_set2-view start (pos 14) (pos 140) start-IsValid (omega arith) (omega arith))
      start-one).0

-- 1 has the same first place as 14
ht_set2-view_example : Returns (ht_set2 one (pos 1) (pos 10)) (λ r.
    IsValid true r
    × (r.size ≡ (if is_some (view one (pos 1)) then 1 else 1 + 1))
    × ((q : ℤ) → view r q ≡ (if eqb_ℤ q (pos 1) then some (pos 10) else view one q)))
ht_set2-view_example = ht_set2-view one (pos 1) (pos 10) one-IsValid (omega arith) (omega arith)

ht_query2-view_example : ht_query2 one (pos 14) ≡ ok (view one (pos 14))
ht_query2-view_example = ht_query2-view one (pos 14) one-IsValid (omega arith)

-- a map of integers: an update, an expansion at the seventh key, a key that is not there
abbrev session : Outcome (ℕ × Option ℤ × Option ℤ × Option ℤ)
session = do
  m₀ ← ht_init2 (pos 0)
  m₁ ← ht_set2 m₀ (pos 1) (pos 10)
  m₂ ← ht_set2 m₁ (pos 14) (pos 20)
  m₃ ← ht_set2 m₂ (pos 27) (pos 30)
  m₄ ← ht_set2 m₃ (pos 1) (pos 11)
  m₅ ← ht_set2 m₄ (pos 5) (pos 50)
  m₆ ← ht_set2 m₅ (pos 6) (pos 60)
  m₇ ← ht_set2 m₆ (pos 7) (pos 70)
  m₈ ← ht_set2 m₇ (pos 8) (pos 80)
  a ← ht_query2 m₈ (pos 1)
  b ← ht_query2 m₈ (pos 27)
  c ← ht_query2 m₈ (pos 9)
  ok (m₈.alloc_size, a, b, c)

session_lem : session ≡ ok (31, some (pos 11), some (pos 30), none)
unfolding program
session_lem = refl

abbrev two_pairs : List (ℤ × ℤ)
two_pairs = (pos 1, pos 10) ∷ (pos 1, pos 11) ∷ []

-- the second pair wins
literal : (ht_new_map two_pairs >>= λ m. ht_query2 m (pos 1)) ≡ ok (some (pos 11))
unfolding program set_pairs ht_new_map
literal = refl

ht_new_map-view_example :
    Returns
      (ht_new_map two_pairs)
      (λ r. IsValid true r × ((q : ℤ) → view r q ≡ last_value two_pairs none q))
ht_new_map-view_example = ht_new_map-view two_pairs (omega arith, (omega arith, tt)) (omega arith)
