-- ===== src/Lang/Stran/Dumping.antt =====
-- What `dump_methods` writes, by the buckets of the Dict.
use mathlib.Core.List.{append_assoc, append-nil}
use ripe.Prelude.{
  ℕ, zero, suc, ◌+◌, ◌≤◌, ◌<◌, ◌≡◌, inl, inr, refl, sym, ap, ◌∙◌, arith, Bool, true, Bool-cases,
  ◌&&◌, if◌then◌else◌, Option, none, some, List, [], ◌∷◌, ◌++◌, drop, length,
}
use ripe.Prelude.Int.{ℤ, of_word}
use ripe.Prelude.Outcome.{Outcome, ok, stop, thrown, ◌>>=◌}
use ripe.Prelude.Text.{codes, lacks}
use ripe.Clib.Dict.{Dict, dict_iter_has, dict_iter_new}
use ripe.Clib.Dict.Iteration.{
  entries, Next, ended, moved, dict_iter_has-Next, dict_iter_get_ptrs-bucket,
}
use ripe.Lang.Node.{Name}
use ripe.Lang.Stran.{FuncInfo, encode_string, encode_int, dump_from, dump_methods}

-- the text of a pointer, of which NULL is the empty one
abbrev pub or_empty : Option Name → Name
or_empty none = []
or_empty (some s) = s

abbrev pub line : Name → Name
line s = codes "S: " ++ (s ++ codes "\n")

-- the two lines of each method
abbrev pub lines : List (Name × FuncInfo) → Name
lines [] = []
lines ((name, fi) ∷ methods) = line name ++ (line (or_empty fi.ripe_name) ++ lines methods)

-- No name has a newline.
abbrev pub are_encodable : List (Name × FuncInfo) → Bool
are_encodable [] = true
are_encodable ((name, fi) ∷ methods) =
    lacks b'\n' name && (lacks b'\n' (or_empty fi.ripe_name) && are_encodable methods)

-- the file behind `f`
abbrev pub dumped : Name → List (Name × FuncInfo) → Outcome Name
dumped f methods = if are_encodable methods then ok (f ++ lines methods) else stop thrown

encode_string-line :
    (f : Name) (s : Option Name)
    → encode_string f s
      ≡ (if lacks b'\n' (or_empty s) then ok (f ++ line (or_empty s)) else stop thrown)
unfolding encode_string lacks
encode_string-line f none = refl
encode_string-line f (some s) = elim (Bool-cases (lacks b'\n' s)) [
  | inl plain ↦ rw (plain, encode_string) refl
  | inr broken ↦ rw (broken, encode_string) refl
]

-- what one round writes, with `rest` for the rounds behind it
encoded :
    (f name : Name) (fi : FuncInfo) (methods : List (Name × FuncInfo)) (rest : Name → Outcome Name)
    → ((f' : Name) → rest f' ≡ dumped f' methods)
    → (encode_string f (some name) >>= λ f1. encode_string f1 fi.ripe_name >>= rest)
      ≡ dumped f ((name, fi) ∷ methods)
encoded f name fi methods rest h = elim (Bool-cases (lacks b'\n' name)) [
  | inr broken ↦ rw (encode_string-line f (some name), broken) refl
  | inl plain ↦
      let first : encode_string f (some name) ≡ ok (f ++ line name) =
        rw (encode_string-line f (some name), plain) refl in
      let second = encode_string-line (f ++ line name) fi.ripe_name in
      elim (Bool-cases (lacks b'\n' (or_empty fi.ripe_name))) [
        | inr broken ↦ rw (first, second, plain, broken) refl
        | inl plain' ↦
            let all =
              append_assoc (f ++ line name) (line (or_empty fi.ripe_name)) (lines methods)
              ∙ append_assoc f (line name) (line (or_empty fi.ripe_name) ++ lines methods) in
            rw (first, second, plain, plain')
              (h ((f ++ line name) ++ line (or_empty fi.ripe_name))
                ∙ ap (λ t. if are_encodable methods then ok t else stop thrown) all)
      ]
]

module _ (decimal : ℤ → Name) where
  dump_step :
      (fuel : ℕ) (f : Name) (d : Dict Name FuncInfo) (i : ℕ) (r : Bool × ℕ)
      → Next d.buckets i r
      → dict_iter_has d i ≡ ok r
      → ((f' : Name) (j : ℕ)
          → i ≤ j
          → j < length d.buckets
          → dump_from decimal fuel f' d (j + 1) ≡ dumped f' (entries (drop (j + 1) d.buckets)))
      → dump_from decimal (suc fuel) f d i ≡ dumped f (entries (drop i d.buckets))
  unfolding dump_from
  dump_step fuel f d i _ (ended j none_left) run ih =
      rw (run, none_left, dump_from) (ap ok (sym (append-nil f)))
  dump_step fuel f d i _ (moved j name fi le below entry rest) run ih =
      rw (run, dict_iter_get_ptrs-bucket d j name fi below entry, rest, dump_from)
        (encoded f name fi (entries (drop (j + 1) d.buckets))
          (λ f'. dump_from decimal fuel f' d (j + 1)) (λ f'. ih f' j le below))

  dump_from-dumped :
      (fuel : ℕ) (f : Name) (d : Dict Name FuncInfo) (i : ℕ)
      → length d.buckets ≡ d.alloc_size
      → i ≤ d.alloc_size
      → d.alloc_size < i + fuel
      → dump_from decimal fuel f d i ≡ dumped f (entries (drop i d.buckets))
  dump_from-dumped zero f d i w le enough = absurd (omega arith)
  dump_from-dumped (suc fuel) f d i w le enough =
      let (r, run, next) = dict_iter_has-Next d i w le in
      dump_step fuel f d i r next run
        (λ f' j late below. dump_from-dumped fuel f' d (j + 1) w (omega arith) (omega arith))

  -- Where all buckets of a Dict are allocated, dump_methods ends, with at most one question to the
  -- iterator more than there are buckets. If no name has a newline, it writes the size and then two
  -- lines for every full bucket, each once and in the order of the buckets: the key and the ripe_name,
  -- which is empty where that is NULL. If any name has a newline, it throws.
  pub dump_methods-entries :
      (f : Name) (d : Dict Name FuncInfo)
      → length d.buckets ≡ d.alloc_size
      → dump_methods decimal f d ≡ (
          if are_encodable (entries d.buckets)
          then ok (
              (f ++ (codes "I: " ++ (decimal (of_word d.size) ++ codes "\n")))
              ++ lines (entries d.buckets))
          else stop thrown)
  unfolding dump_methods encode_int dict_iter_new
  dump_methods-entries f d w =
      dump_from-dumped (d.alloc_size + 1)
        (f ++ (codes "I: " ++ (decimal (of_word d.size) ++ codes "\n"))) d 0 w (omega arith)
        (omega arith)
