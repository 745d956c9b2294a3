-- ===== src/Lang/Var/Tests.antt =====
-- The theorem at scopes with one variable, and a global.
use ripe.Prelude.{◌≡◌, refl, arith, false, Option, none, some, [], ◌∷◌, replicate, if◌then◌else◌}
use ripe.Prelude.Outcome.{ok, stop, thrown, assertion, Returns, Returns_at}
use ripe.Prelude.Text.{codes, same_text}
use ripe.Clib.Primes.{map_prime}
use ripe.Clib.Probing.{NoWrap}
use ripe.Clib.Dict.Keys.{string_key, string_key-NoWrap}
use ripe.Clib.Dict.{Dict, bucket_empty, dict_init, dict_query}
use ripe.Clib.Dict.Refinement.{IsDict, dict_init-IsDict}
use ripe.Lang.Node.{Name}
use ripe.Lang.Var.{
  Variable, var_pop, query_locals, query_global, query_var, var_query, var_add_local2,
}
use ripe.Lang.Var.Scopes.{AllDicts, var_add_local2_lem}

program : Unit {0}
unfolding same_text var_pop query_locals query_global query_var var_query var_add_local2
program = tt

pop_empty : var_pop [] ≡ stop assertion
unfolding program
pop_empty = refl

abbrev globals : Name → Option Name
globals q = if same_text q (codes "Out") then some (codes "__Out") else none

-- a new scope
abbrev start : Dict Name Variable
start = record { size = 0; alloc_size = 13; buckets = replicate 13 bucket_empty }

started : dict_init ≡ ok start
unfolding dict_init map_prime
started = refl

start-IsDict :
    IsDict start × ((q : Name) → NoWrap (string_key.hash_func q) → dict_query start q ≡ ok none)
start-IsDict = Returns_at dict_init-IsDict started

unknown_x : query_var 9 globals (start ∷ []) (codes "x") ≡ ok none
unfolding program
unknown_x = rw (start-IsDict.1 (codes "x") (string_key-NoWrap (codes "x"))) refl

abbrev out : Variable
out = record { c_name = codes "__Out"; ripe_name = codes "Out"; type = codes "?"; kind = 9 }

known_out : query_var 9 globals (start ∷ []) (codes "Out") ≡ ok (some out)
unfolding program
known_out = rw (start-IsDict.1 (codes "Out") (string_key-NoWrap (codes "Out"))) refl

var_add_local2_lem_example :
    Returns (var_add_local2 9 globals (start ∷ []) (codes "x") (codes "__x") (codes "?") 1) (λ r.
      AllDicts r
      × (query_var 9 globals r (codes "x")
          ≡ ok (
              some (record {
                c_name = codes "__x";
                ripe_name = codes "x";
                type = codes "?";
                kind = 1;
              })))
      × ((q : Name)
          → string_key.equal_func q (codes "x") ≡ false
          → query_var 9 globals r q ≡ query_var 9 globals (start ∷ []) q)
      × (var_pop r ≡ ok []))
    × (var_add_local2 9 globals (start ∷ []) (codes "Out") (codes "__x") (codes "?") 1
        ≡ stop thrown)
var_add_local2_lem_example =
    var_add_local2_lem 9 globals start [] (codes "x") (codes "__x") (codes "?") (codes "Out") 1 out
      (start-IsDict.0, tt) (omega arith) unknown_x known_out
