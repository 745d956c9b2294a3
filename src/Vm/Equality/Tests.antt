-- ===== src/Vm/Equality/Tests.antt =====
-- Runs of op_equal3, a map over values, and the theorems at concrete values.
use ripe.Prelude.{◌+◌, ◌%◌, ◌^◌, ◌<◌, ◌≡◌, refl, arith, true, false, List, [], ◌∷◌, none}
use ripe.Prelude.Outcome.{ok, Returns}
use ripe.Vm.HashTable.View.{view}
use ripe.Vm.HashTable.Methods.{IsValid}
use ripe.Vm.HashTable.Literals.{ht_new_map, last_value, ht_new_map-view}
use ripe.Prelude.Text.{same_text}
use ripe.Vm.Equality.{Value, word, text, tuple, nil, cons, size, op_equal3, equal_items, op_hash}
use ripe.Vm.Equality.Structure.{contents, op_equal3_iff}
use ripe.Vm.Equality.Hashing.{hash_sum, op_hash_lem, value_key, value-NoWrap}

program : Unit {0}
unfolding size same_text op_equal3 equal_items
program = tt

abbrev pair : Value
pair = tuple 4096 (cons (word 5) (cons (text 8192 (97 ∷ [])) nil))

-- an equal tuple elsewhere
abbrev twin : Value
twin = tuple 4160 (cons (word 5) (cons (text 8256 (97 ∷ [])) nil))

same_pair : op_equal3 pair twin ≡ true
unfolding program
same_pair = refl

shorter : op_equal3 pair (tuple 4096 (cons (word 5) nil)) ≡ false
unfolding program
shorter = refl

abbrev greetings : List (Value × Value)
greetings = (text 4096 (97 ∷ []), word 5) ∷ (text 8192 (97 ∷ 98 ∷ []), word 9) ∷ []

-- a map literal over Strings
greetings_map :
    Returns
      (ht_new_map greetings)
      (λ r. IsValid true r × ((q : Value) → view r q ≡ last_value greetings none q))
greetings_map =
    ht_new_map-view greetings
      (
        (value-NoWrap 4096 (97 ∷ []) 0 (omega arith)).0,
        ((value-NoWrap 8192 (97 ∷ 98 ∷ []) 0 (omega arith)).0, tt),
      )
      (omega arith)

op_equal3_iff_example :
    (op_equal3 pair twin ≡ true → contents pair ≡ contents twin)
    × (contents pair ≡ contents twin → op_equal3 pair twin ≡ true)
op_equal3_iff_example = op_equal3_iff pair twin

op_hash_lem_example :
    Returns (op_hash pair) (λ h. h < 2 ^ 64)
    × (op_equal3 pair twin ≡ true → op_hash pair ≡ op_hash twin)
    × (op_hash (tuple 4096 (cons (word 5) nil)) ≡ ok ((89 + hash_sum (cons (word 5) nil)) % 2 ^ 64))
op_hash_lem_example = op_hash_lem pair twin 4096 (cons (word 5) nil)
