-- ===== src/Lang/Var/Scopes.antt =====
-- What a new local variable changes of the scopes.
use ripe.Prelude.{ℕ, ◌+◌, ◌*◌, ◌<◌, ◌≡◌, refl, sym, ap, ◌∙◌, false, Option, none, some, [], ◌∷◌}
use ripe.Prelude.Outcome.{Outcome, ok, stop, thrown, Returns}
use ripe.Clib.Dict.Keys.{string_key, string_key-NoWrap}
use ripe.Clib.Dict.{Dict, dict_query}
use ripe.Clib.Dict.Refinement.{IsDict, dict_set-fresh, dict_query_returns}
use ripe.Lang.Node.{Name}
use ripe.Lang.Var.{Variable, Locals, var_pop, query_locals, query_var, var_query, var_add_local2}

-- In no scope was a name set twice.
abbrev pub AllDicts : Locals → Type 0
AllDicts [] = Unit {0}
AllDicts (d ∷ locals) = IsDict d × AllDicts locals

-- the result of the innermost scope, or of those behind it
abbrev first : Option Variable → Outcome (Option Variable) → Outcome (Option Variable)
first none rest = rest
first (some var) rest = ok (some var)

module _ (junk : ℕ) (stran_query_global : Name → Option Name) where
  query_first :
      (d : Dict Name Variable) (locals : Locals) (q : Name) (o : Option Variable)
      → dict_query d q ≡ ok o
      → query_var junk stran_query_global (d ∷ locals) q
        ≡ first o (query_var junk stran_query_global locals q)
  unfolding query_var query_locals
  query_first d locals q none run = rw run refl
  query_first d locals q (some var) run = rw run refl

  -- a name that is found nowhere is not in the innermost scope
  not_first :
      (o : Option Variable) (rest : Outcome (Option Variable)) → first o rest ≡ ok none → o ≡ none
  not_first none rest e = refl
  not_first (some var) rest e = absurd (cc)

  undefined :
      (locals : Locals) (q : Name)
      → query_var junk stran_query_global locals q ≡ ok none
      → var_query junk stran_query_global locals q ≡ ok false
  unfolding var_query
  undefined locals q e = rw e refl

  defined_again :
      (d : Dict Name Variable) (locals : Locals) (q c_name type : Name) (kind : ℕ) (w : Variable)
      → query_var junk stran_query_global (d ∷ locals) q ≡ ok (some w)
      → var_add_local2 junk stran_query_global (d ∷ locals) q c_name type kind ≡ stop thrown
  unfolding var_query var_add_local2
  defined_again d locals q c_name type kind w e = rw e refl

  -- In scopes in which no name was set twice, with an innermost one that is not at its largest:
  -- var_add_local2 of a name that is found in no scope and is no global returns such scopes, in which
  -- the name is found with what it was given and every other name as before, and var_pop takes the
  -- innermost one off. Of a name that is found anywhere it throws.
  pub var_add_local2_lem :
      (d : Dict Name Variable) (locals : Locals) (ripe_name c_name type other : Name) (kind : ℕ)
      (w : Variable)
      → AllDicts (d ∷ locals)
      → 2 * (d.size + 1) < 536870909
      → query_var junk stran_query_global (d ∷ locals) ripe_name ≡ ok none
      → query_var junk stran_query_global (d ∷ locals) other ≡ ok (some w)
      → Returns
          (var_add_local2 junk stran_query_global (d ∷ locals) ripe_name c_name type kind)
          (λ r.
            AllDicts r
            × (query_var junk stran_query_global r ripe_name
                ≡ ok (
                    some (record {
                      c_name = c_name;
                      ripe_name = ripe_name;
                      type = type;
                      kind = kind;
                    })))
            × ((q : Name)
                → string_key.equal_func q ripe_name ≡ false
                → query_var junk stran_query_global r q
                  ≡ query_var junk stran_query_global (d ∷ locals) q)
            × (var_pop r ≡ ok locals))
        × (var_add_local2 junk stran_query_global (d ∷ locals) other c_name type kind ≡ stop thrown)
  unfolding var_add_local2 var_pop
  var_add_local2_lem d locals ripe_name c_name type other kind w all small unknown known =
      let var : Variable = record {
        c_name = c_name;
        ripe_name = ripe_name;
        type = type;
        kind = kind;
      } in
      let (o, run) = dict_query_returns d ripe_name all.0 (string_key-NoWrap ripe_name) in
      let absent : dict_query d ripe_name ≡ ok none =
        run ∙ ap ok (not_first o _ (sym (query_first d locals ripe_name o run) ∙ unknown)) in
      let (d', set, (h, size, finds)) =
        dict_set-fresh d ripe_name var all.0 (string_key-NoWrap ripe_name) absent small in
      (
        (
          d' ∷ locals,
          rw (undefined (d ∷ locals) ripe_name unknown, set) refl,
          (
            (h, all.1),
            (let (o1, run1, new) = finds ripe_name (string_key-NoWrap ripe_name) in
                let here : dict_query d' ripe_name ≡ ok (some var) =
                  rw (string_key.equal_refl ripe_name) at new in
                query_first d' locals ripe_name (some var) here),
            λ q differs.
                let (o1, run1, new) = finds q (string_key-NoWrap q) in
                let same : dict_query d' q ≡ ok o1 = rw differs at new in
                query_first d' locals q o1 same ∙ sym (query_first d locals q o1 run1),
            refl,
          ),
        ),
        defined_again d locals other c_name type kind w known,
      )
