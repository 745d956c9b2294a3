-- ===== src/Lang/Var.antt =====
-- The scopes of lang/var.c. The array locals_arr is a list of Dicts, the innermost first. A global is
-- looked up by `stran_query_global`, which gives its name in C; the prototype that is written for it
-- is left out, and `junk` is the kind of a global, which is never written.
pub mod Scopes
mod Tests
use ripe.Prelude.{ℕ, Bool, true, false, Option, none, some, List, [], ◌∷◌}
use ripe.Prelude.Outcome.{Outcome, ok, stop, assertion, thrown, null_pointer, ◌>>=◌}
use ripe.Prelude.Text.{codes}
use ripe.Clib.Dict.Keys.{string_key}
use ripe.Clib.Dict.{Dict, dict_init, dict_query, dict_set}
use ripe.Lang.Node.{Name}

pub record Variable : Type 0 where
  pub c_name : Name
  pub ripe_name : Name
  pub type : Name
  pub kind : ℕ

abbrev pub Locals : Type 0
Locals = List (Dict Name Variable)

pub var_push : Locals → Outcome Locals
var_push locals = do d ← dict_init; ok (d ∷ locals)

pub var_pop : Locals → Outcome Locals
var_pop [] = stop assertion
var_pop (d ∷ locals) = ok locals

-- the loop over the scopes
pub query_locals : Locals → Name → Outcome (Option Variable)
query_locals [] ripe_name = ok none
query_locals (d ∷ locals) ripe_name = do
  found ← dict_query d ripe_name
  elim found [ some var ↦ ok (some var) | none ↦ query_locals locals ripe_name ]

module _ (junk : ℕ) (stran_query_global : Name → Option Name) where
  pub query_global : Name → Option Variable
  query_global ripe_name = elim (stran_query_global ripe_name) [
    | none ↦ none
    | some c_name ↦
        some (record { c_name = c_name; ripe_name = ripe_name; type = codes "?"; kind = junk })
  ]

  -- the static function `query`
  pub query_var : Locals → Name → Outcome (Option Variable)
  query_var locals ripe_name = do
    found ← query_locals locals ripe_name
    elim found [ some var ↦ ok (some var) | none ↦ ok (query_global ripe_name) ]

  pub var_query : Locals → Name → Outcome Bool
  var_query locals ripe_name = do
    found ← query_var locals ripe_name
    elim found [ some var ↦ ok true | none ↦ ok false ]

  pub var_add_local2 : Locals → Name → Name → Name → ℕ → Outcome Locals
  var_add_local2 [] ripe_name c_name type kind = stop assertion
  var_add_local2 (d ∷ locals) ripe_name c_name type kind = do
    defined ← var_query (d ∷ locals) ripe_name
    elim defined [
      | true ↦ stop thrown
      | false ↦ do
        d' ←
            dict_set d ripe_name
              (record { c_name = c_name; ripe_name = ripe_name; type = type; kind = kind })
        ok (d' ∷ locals)
    ]

  -- VAR_REGULAR
  pub var_add_local : Locals → Name → Name → Name → Outcome Locals
  var_add_local locals ripe_name c_name type = var_add_local2 locals ripe_name c_name type 1

  -- what `var_query_type`, `var_query_c_name` and `var_query_kind` read a field of
  pub query_known : Locals → Name → Outcome Variable
  query_known locals ripe_name = do
    defined ← var_query locals ripe_name
    elim defined [
      | false ↦ stop thrown
      | true ↦ do
        found ← query_var locals ripe_name
        elim found [ none ↦ stop null_pointer | some var ↦ ok var ]
    ]

  pub var_query_type : Locals → Name → Outcome Name
  var_query_type locals ripe_name = do var ← query_known locals ripe_name; ok var.type

  pub var_query_c_name : Locals → Name → Outcome Name
  var_query_c_name locals ripe_name = do var ← query_known locals ripe_name; ok var.c_name

  pub var_query_kind : Locals → Name → Outcome ℕ
  var_query_kind locals ripe_name = do var ← query_known locals ripe_name; ok var.kind
