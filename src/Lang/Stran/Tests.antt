-- ===== src/Lang/Stran/Tests.antt =====
-- A run of `dump_methods`, and the theorem at a concrete Dict.
use ripe.Prelude.{◌≡◌, refl, Option, none, some, [], ◌∷◌, ◌++◌, if◌then◌else◌}
use ripe.Prelude.Int.{ℤ, pos, of_word}
use ripe.Prelude.Outcome.{ok, stop, thrown, at}
use ripe.Prelude.Text.{codes, lacks}
use ripe.Clib.Dict.{
  Dict, bucket_empty, bucket_full, dict_iter_new, iter_has_from, dict_iter_has, dict_iter_get_ptrs,
}
use ripe.Clib.Dict.Iteration.{entries}
use ripe.Lang.Node.{Name}
use ripe.Lang.Stran.{method, FuncInfo, encode_string, encode_int, dump_from, dump_methods}
use ripe.Lang.Stran.Dumping.{are_encodable, lines, dump_methods-entries}

abbrev digit_2 : ℤ → Name
digit_2 i = codes "2"

abbrev info : Option Name → FuncInfo
info name = record {
  ripe_name = name;
  ret = none;
  num_params = pos 0;
  param_types = [];
  param_names = [];
  c_name = none;
  v_name = none;
  type = method;
}

abbrev two : Dict Name FuncInfo
two = record {
  size = 2;
  alloc_size = 3;
  buckets =
      bucket_full (codes "a") (info (some (codes "A.a")))
      ∷ bucket_empty
      ∷ bucket_full (codes "b") (info none)
      ∷ [];
}

two_dumped : dump_methods digit_2 [] two ≡ ok (codes "I: 2\nS: a\nS: A.a\nS: b\nS: \n")
unfolding at lacks dict_iter_new iter_has_from dict_iter_has dict_iter_get_ptrs encode_string
    encode_int dump_from dump_methods
two_dumped = refl

dump_methods-entries_example : dump_methods digit_2 [] two ≡ (
    if are_encodable (entries two.buckets)
    then ok (
        ([] ++ (codes "I: " ++ (digit_2 (of_word two.size) ++ codes "\n")))
        ++ lines (entries two.buckets))
    else stop thrown)
dump_methods-entries_example = dump_methods-entries digit_2 [] two refl
