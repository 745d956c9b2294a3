-- ===== src/Vm/HashTable/SetTests.antt =====
-- Runs of sets of integers, and the theorems at concrete sets.
use ripe.Prelude.{
  ℕ, ◌+◌, ◌≡◌, ◌⊎◌, refl, true, false, List, [], ◌∷◌, arith, is_some, inl, inr, set, if◌then◌else◌,
  not, ◌&&◌, ◌||◌,
}
use ripe.Prelude.Int.{ℤ, pos, negsuc, eqb_ℤ}
use ripe.Prelude.Outcome.{Outcome, Returns_at, ok, stop, assertion, at, put, ◌>>=◌, Returns}
use ripe.Clib.Primes.{map_prime}
use ripe.Clib.Primes.Prime.{IsPrime, sizes-AllPrime}
use ripe.Clib.Probing.{probe}
use ripe.Vm.HashTable.{
  HashTable, Bucket, full, note_empty, empty_or, exhausted, query_from, query, deref, put_value,
  copy_value, rehash_step, rehash_from, rehash, fill, add_key, ht_query, ht_query2, ht_set, ht_set2,
  ht_remove, ht_init, ht_init2,
}
use ripe.Vm.HashTable.Query.{bucket_at, key_at}
use ripe.Vm.HashTable.View.{member}
use ripe.Vm.HashTable.Methods.{IsValid, empty_table, empty_table-IsValid, ht_query-member}
use ripe.Vm.HashTable.Members.{ht_set-member, ht_remove-member}
use ripe.Vm.HashTable.Literals.{any_equal, set_keys, ht_new_set, ht_new_set-member}
use ripe.Vm.HashTable.Wrapping.{is_hit}
use ripe.Vm.HashTable.IntegerKey.{integer_key}

program : Unit {0}
unfolding probe note_empty empty_or exhausted query_from query deref put_value copy_value
    rehash_step rehash_from rehash fill add_key ht_query ht_query2 ht_set ht_set2 ht_remove ht_init
    ht_init2 map_prime at put
program = tt

IsPrime-13 : IsPrime 13
IsPrime-13 = sizes-AllPrime.0

abbrev start : HashTable ℤ
start = empty_table true 13

abbrev no_elements : HashTable ℤ
no_elements = empty_table false 13

no_elements-IsValid : IsValid false no_elements
no_elements-IsValid = empty_table-IsValid false 13 IsPrime-13 (omega arith) (omega arith)

abbrev one_element : HashTable ℤ
one_element = record no_elements {
  size = 1;
  buckets = set start.buckets 1 full;
  keys = set start.keys 1 (pos 14);
}

add_element : ht_set no_elements (pos 14) ≡ ok one_element
unfolding program
add_element = refl

one_element-IsValid : IsValid false one_element
one_element-IsValid =
    (Returns_at (ht_set-member no_elements (pos 14) no_elements-IsValid (omega arith) (omega arith))
      add_element).0

ht_query-member_example : ht_query one_element (pos 14) ≡ ok (is_some (member one_element (pos 14)))
ht_query-member_example = ht_query-member one_element (pos 14) one_element-IsValid (omega arith)

ht_set-member_example : Returns (ht_set one_element (pos 1)) (λ r.
    IsValid false r
    × (r.size ≡ (if is_some (member one_element (pos 1)) then 1 else 1 + 1))
    × ((q : ℤ) → is_some (member r q) ≡ eqb_ℤ q (pos 1) || is_some (member one_element q)))
ht_set-member_example =
    ht_set-member one_element (pos 1) one_element-IsValid (omega arith) (omega arith)

ht_remove-member_example : Returns (ht_remove one_element (pos 14)) (λ r.
    IsValid false r.0
    × (r.1 ≡ is_some (member one_element (pos 14)))
    × (r.0.size + (if is_some (member one_element (pos 14)) then 1 else 0) ≡ 1)
    × ((q : ℤ) → is_some (member r.0 q) ≡ not (eqb_ℤ q (pos 14)) && is_some (member one_element q)))
ht_remove-member_example = ht_remove-member one_element (pos 14) one_element-IsValid (omega arith)

-- the set of 0, 2, 3, 8, 9 and 11
abbrev six : Outcome (HashTable ℤ)
six = do
  s₀ ← ht_init (pos 0)
  s₁ ← ht_set s₀ (pos 0)
  s₂ ← ht_set s₁ (pos 2)
  s₃ ← ht_set s₂ (pos 3)
  s₄ ← ht_set s₃ (pos 8)
  s₅ ← ht_set s₄ (pos 9)
  ht_set s₅ (pos 11)

-- a query for -1
six_minus_one : (six >>= λ s. ht_query s (negsuc 0)) ≡ stop assertion
unfolding program
six_minus_one = refl

abbrev six_buckets : List Bucket
six_buckets =
    set (set (set (set (set (set start.buckets 0 full) 2 full) 3 full) 8 full) 9 full) 11 full

abbrev six_keys : List ℤ
six_keys =
    pos 0
    ∷ pos 0
    ∷ pos 2
    ∷ pos 3
    ∷ pos 0
    ∷ pos 0
    ∷ pos 0
    ∷ pos 0
    ∷ pos 8
    ∷ pos 9
    ∷ pos 0
    ∷ pos 11
    ∷ pos 0
    ∷ []

is_hit-cases :
    (i : ℕ) → is_hit i ≡ true → (i ≡ 0) ⊎ (i ≡ 2) ⊎ (i ≡ 3) ⊎ (i ≡ 8) ⊎ (i ≡ 9) ⊎ (i ≡ 11)
is_hit-cases i h = ground arith

six_held :
    (i : ℕ)
    → is_hit i ≡ true
    → (bucket_at six_buckets i ≡ full) × (eqb_ℤ (negsuc 0) (key_at six_keys i) ≡ false)
six_held i h = elim (is_hit-cases i h) [
  | inl e ↦ rw e (refl, refl)
  | inr (inl e) ↦ rw e (refl, refl)
  | inr (inr (inl e)) ↦ rw e (refl, refl)
  | inr (inr (inr (inl e))) ↦ rw e (refl, refl)
  | inr (inr (inr (inr (inl e)))) ↦ rw e (refl, refl)
  | inr (inr (inr (inr (inr e)))) ↦ rw e (refl, refl)
]

abbrev two_elements : List ℤ
two_elements = pos 1 ∷ pos 14 ∷ []

element : (ht_new_set two_elements >>= λ s. ht_query s (pos 14)) ≡ ok true
unfolding program set_keys ht_new_set
element = refl

ht_new_set-member_example :
    Returns
      (ht_new_set two_elements)
      (λ r. IsValid false r × ((q : ℤ) → is_some (member r q) ≡ any_equal two_elements false q))
ht_new_set-member_example =
    ht_new_set-member two_elements (omega arith, (omega arith, tt)) (omega arith)
