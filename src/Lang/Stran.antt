-- ===== src/Lang/Stran.antt =====
-- What lang/stran.c keeps of the methods of a class in the cache on disk, with encode_int and
-- encode_string of clib/util.c. A file is the text that was written into it; `decimal` is what
-- "%PRId64" prints.
pub mod Dumping
mod Tests
use ripe.Prelude.{ℕ, zero, suc, ◌+◌, true, false, Option, none, some, List, [], ◌∷◌, ◌++◌}
use ripe.Prelude.Int.{ℤ, of_word}
use ripe.Prelude.Outcome.{Outcome, ok, stop, thrown, out_of_fuel, ◌>>=◌}
use ripe.Prelude.Text.{codes, lacks}
use ripe.Clib.Dict.{Dict, dict_iter_new, dict_iter_has, dict_iter_get_ptrs}
use ripe.Lang.Node.{Name}

pub data FunctionType : Type 0 where
  function method constructor virtual_get virtual_set : FunctionType

-- a FuncInfo; a pointer that is NULL is `none`
pub record FuncInfo : Type 0 where
  pub ripe_name : Option Name
  pub ret : Option Name
  pub num_params : ℤ
  pub param_types : List (Option Name)
  pub param_names : List (Option Name)
  pub c_name : Option Name
  pub v_name : Option Name
  pub type : FunctionType

pub encode_string : Name → Option Name → Outcome Name
encode_string f none = ok (f ++ codes "S: \n")
encode_string f (some s) = elim (lacks b'\n' s) [
  | false ↦ stop thrown
  | true ↦ ok (f ++ (codes "S: " ++ (s ++ codes "\n")))
]

module _ (decimal : ℤ → Name) where
  pub encode_int : Name → ℤ → Name
  encode_int f i = f ++ (codes "I: " ++ (decimal i ++ codes "\n"))

  -- the loop of `dump_methods`
  pub dump_from : ℕ → Name → Dict Name FuncInfo → ℕ → Outcome Name
  dump_from zero f d i = stop out_of_fuel
  dump_from (suc fuel) f d i = do
    (more, j) ← dict_iter_has d i
    elim more [
      | false ↦ ok f
      | true ↦ do
        (method_name, fi, j') ← dict_iter_get_ptrs d j
        f1 ← encode_string f (some method_name)
        f2 ← encode_string f1 fi.ripe_name
        dump_from fuel f2 d j'
    ]

  pub dump_methods : Name → Dict Name FuncInfo → Outcome Name
  dump_methods f d = dump_from (d.alloc_size + 1) (encode_int f (of_word d.size)) d dict_iter_new
