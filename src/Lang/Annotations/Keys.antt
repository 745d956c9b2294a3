-- ===== src/Lang/Annotations/Keys.antt =====
-- The searches on a list of annotations as the parser makes it.
use ripe.Prelude.{
  ℕ, zero, suc, ◌-◌, ◌≡◌, refl, ◌∙◌, arith, Bool, true, false, not, ◌==◌, if◌then◌else◌, Bool-cases,
  inl, inr, Option, none, some, List, [], ◌∷◌,
}
use ripe.Prelude.Int.{negsuc}
use ripe.Prelude.Outcome.{Outcome, ok}
use ripe.Prelude.Text.{same_text, same_text-eq}
use ripe.Lang.NodeType.{annot, annot_list, code, same_type}
use ripe.Lang.Node.{
  Name, Node, Nodes, node, nil, cons, no_props, node_new, node_new_id, set_text, node_add_child,
  append_node, node_type, node_text, node_children, node_num_children, num_nodes, node_get_child,
  nth_node, text_of,
}
use ripe.Lang.Names.{util_dot_id}
use ripe.Lang.Annotations.{
  is_allowed, check_from, annot_check_simple, has_from, annot_has, get_from, annot_get_full,
}

abbrev pub Annotation : Type 0
Annotation = Name × Option Node

-- the nodes for `key` and `key = value`
abbrev pub annotation : Annotation → Node
annotation (key, none) = node_add_child (node_new annot) (node_new_id key)
annotation (key, some value) =
    node_add_child (node_add_child (node_new annot) (node_new_id key)) value

abbrev pub annotations : List Annotation → Nodes
annotations [] = nil
annotations (a ∷ xs) = cons (annotation a) (annotations xs)

abbrev pub list_of : List Annotation → Node
list_of xs = node annot_list none none (negsuc 0) (annotations xs) [] no_props

-- the values under a key, in order
abbrev pub values : Name → List Annotation → List Node
values key [] = []
values key ((name, none) ∷ xs) = values key xs
values key ((name, some value) ∷ xs) =
    if same_text name key then value ∷ values key xs else values key xs

-- the dotted name of a value, or NULL if there are not so many
abbrev pub nth_name : List Node → ℕ → Outcome (Option Name)
nth_name [] num = ok none
nth_name (value ∷ vs) zero = util_dot_id value
nth_name (value ∷ vs) (suc num) = nth_name vs num

-- the plain annotations have the name
abbrev pub has_plain : Name → List Annotation → Bool
has_plain s [] = false
has_plain s ((name, none) ∷ xs) = if same_text name s then true else has_plain s xs
has_plain s ((name, some value) ∷ xs) = has_plain s xs

-- the name stands among the allowed ones, behind a = if it has a value
abbrev pub allowed : Bool → Name → List Name → Bool
allowed plain s [] = false
allowed true s (a ∷ args) = let rest = allowed true s args in if same_text a s then true else rest
allowed false s ([] ∷ args) = allowed false s args
allowed false s ((c ∷ a) ∷ args) =
    let rest = allowed false s args in
    if not (c == b'=') then rest else if same_text a s then true else rest

is_allowed_lem :
    (plain : Bool) (s : Name) (args : List Name)
    → is_allowed plain (node_new_id s) args ≡ ok (allowed plain s args)
unfolding is_allowed node_new node_new_id set_text text_of node_text
is_allowed_lem true s [] = refl
is_allowed_lem false s [] = refl
is_allowed_lem true s (a ∷ args) = elim (Bool-cases (same_text a s)) [
  | inl same ↦ rw same refl
  | inr differs ↦ rw differs (is_allowed_lem true s args)
]
is_allowed_lem false s ([] ∷ args) = is_allowed_lem false s args
is_allowed_lem false s ((c ∷ a) ∷ args) = elim (Bool-cases (c == b'=')) [
  | inl marked ↦ elim (Bool-cases (same_text a s)) [
    | inl same ↦ rw (marked, same) refl
    | inr differs ↦ rw (marked, differs) (is_allowed_lem false s args)
  ]
  | inr plain ↦ rw plain (is_allowed_lem false s args)
]

-- every annotation is allowed
abbrev pub AllAllowed : List Name → List Annotation → Type 0
AllAllowed args [] = Unit {0}
AllAllowed args ((name, none) ∷ xs) = (allowed true name args ≡ true) × AllAllowed args xs
AllAllowed args ((name, some value) ∷ xs) = (allowed false name args ≡ true) × AllAllowed args xs

get_from-values :
    (xs : List Annotation) (key : Name) (num : ℕ)
    → get_from (annotations xs) key num ≡ nth_name (values key xs) num
unfolding get_from node_get_child nth_node node_children node_add_child append_node node_new
    node_new_id set_text text_of node_text node_num_children num_nodes
get_from-values [] key num = refl
get_from-values ((name, none) ∷ xs) key num = get_from-values xs key num
get_from-values ((name, some value) ∷ xs) key zero = elim (Bool-cases (same_text name key)) [
  | inl same ↦ rw same refl
  | inr differs ↦ rw differs (get_from-values xs key 0)
]
get_from-values ((name, some value) ∷ xs) key (suc num) =
    let some_left : (suc num == 0) ≡ false = ground arith in
    let less : suc num - 1 ≡ num = omega arith in
    elim (Bool-cases (same_text name key)) [
      | inl same ↦ rw (same, some_left, less) (get_from-values xs key num)
      | inr differs ↦ rw differs (get_from-values xs key (suc num))
    ]

has_from-has_plain :
    (xs : List Annotation) (s : Name) → has_from (annotations xs) s ≡ ok (has_plain s xs)
unfolding has_from node_get_child nth_node node_children node_add_child append_node node_new
    node_new_id set_text text_of node_text node_num_children num_nodes
has_from-has_plain [] s = refl
has_from-has_plain ((name, none) ∷ xs) s = elim (Bool-cases (same_text name s)) [
  | inl same ↦ rw same refl
  | inr differs ↦ rw differs (has_from-has_plain xs s)
]
has_from-has_plain ((name, some value) ∷ xs) s = has_from-has_plain xs s

-- On the node for a list of annotations, annot_get_full returns the dotted name of the value with
-- the given number, from 0, among those under the key, and NULL if there is none; annot_has returns
-- whether the name stands among those without a value.
pub annot_get_full-values :
    (xs : List Annotation) (key : Name) (num : ℕ)
    → (annot_get_full (list_of xs) key num ≡ nth_name (values key xs) num)
      × (annot_has (list_of xs) key ≡ ok (has_plain key xs))
unfolding annot_get_full annot_has same_type code node_type node_children
annot_get_full-values xs key num = (get_from-values xs key num, has_from-has_plain xs key)

ok_false : ok false ≡ ok true → ⊥
ok_false e = cc

check_from-AllAllowed :
    (xs : List Annotation) (args : List Name)
    → check_from (annotations xs) args ≡ ok true
    → AllAllowed args xs
unfolding check_from node_get_child nth_node node_children node_add_child append_node node_new
    node_new_id set_text text_of node_text node_num_children num_nodes node_type same_type code
check_from-AllAllowed [] args h = tt
check_from-AllAllowed ((name, none) ∷ xs) args h = elim (Bool-cases (allowed true name args)) [
  | inl listed ↦
      (listed, check_from-AllAllowed xs args (rw (is_allowed_lem true name args, listed) at h))
  | inr refused ↦ absurd (ok_false (rw (is_allowed_lem true name args, refused) at h))
]
check_from-AllAllowed ((name, some value) ∷ xs) args h =
    elim (Bool-cases (allowed false name args)) [
      | inl listed ↦
          (listed, check_from-AllAllowed xs args (rw (is_allowed_lem false name args, listed) at h))
      | inr refused ↦ absurd (ok_false (rw (is_allowed_lem false name args, refused) at h))
    ]

clash : {b : Bool} → b ≡ true → b ≡ false → ⊥
clash e f = cc

-- a key that is not allowed has no value
values-none :
    (xs : List Annotation) (args : List Name) (key : Name)
    → AllAllowed args xs
    → allowed false key args ≡ false
    → values key xs ≡ []
values-none [] args key h fresh = refl
values-none ((name, none) ∷ xs) args key h fresh = values-none xs args key h.1 fresh
values-none ((name, some value) ∷ xs) args key h fresh = elim (Bool-cases (same_text name key)) [
  | inl same ↦
      let e = same_text-eq name key same in
      let allowed : allowed false key args ≡ true = rw e at h.0 in absurd (clash allowed fresh)
  | inr differs ↦ rw differs (values-none xs args key h.1 fresh)
]

plain-none :
    (xs : List Annotation) (args : List Name) (key : Name)
    → AllAllowed args xs
    → allowed true key args ≡ false
    → has_plain key xs ≡ false
plain-none [] args key h fresh = refl
plain-none ((name, some value) ∷ xs) args key h fresh = plain-none xs args key h.1 fresh
plain-none ((name, none) ∷ xs) args key h fresh = elim (Bool-cases (same_text name key)) [
  | inl same ↦
      let e = same_text-eq name key same in
      let allowed : allowed true key args ≡ true = rw e at h.0 in absurd (clash allowed fresh)
  | inr differs ↦ rw differs (plain-none xs args key h.1 fresh)
]

-- Where annot_check_simple accepts a list of annotations, annot_get_full returns NULL for every key
-- that is not among the allowed ones with =, and annot_has returns false for every name that is not
-- among the allowed ones without.
pub annot_check_simple_lem :
    (xs : List Annotation) (args : List Name) (key : Name) (num : ℕ)
    → annot_check_simple (list_of xs) args ≡ ok true
    → (allowed false key args ≡ false → annot_get_full (list_of xs) key num ≡ ok none)
      × (allowed true key args ≡ false → annot_has (list_of xs) key ≡ ok false)
unfolding annot_check_simple same_type code node_type node_children
annot_check_simple_lem xs args key num h =
    let all = check_from-AllAllowed xs args h in
    let (got, has) = annot_get_full-values xs key num in
    (
      λ fresh. got ∙ rw (values-none xs args key all fresh) refl,
      λ fresh. has ∙ rw (plain-none xs args key all fresh) refl,
    )
