-- ===== src/Lang/Annotations.antt =====
-- The annotations of lang/util.c: `name` or `key = value`, in a node of type ANNOT_LIST.
pub mod Keys
mod Tests
use ripe.Prelude.{
  ℕ, zero, suc, ◌-◌, Bool, true, false, not, ◌==◌, if◌then◌else◌, Option, none, some, List, [], ◌∷◌,
}
use ripe.Prelude.Outcome.{Outcome, ok, stop, assertion, null_pointer, assert, ◌>>=◌, ◌>>◌}
use ripe.Prelude.Text.{same_text}
use ripe.Lang.NodeType.{annot, annot_list, same_type}
use ripe.Lang.Node.{
  Name, Node, Nodes, nil, cons, node_type, node_text, node_children, node_num_children, text_of,
  node_get_child,
}
use ripe.Lang.Names.{util_dot_id}

-- the loop over the allowed annotations; `plain` says that the annotation has no value
pub is_allowed : Bool → Node → List Name → Outcome Bool
is_allowed plain first [] = ok false
is_allowed true first (a ∷ args) = do
  s ← text_of first
  let rest : Outcome Bool = is_allowed true first args
  if same_text a s then ok true else rest
is_allowed false first ([] ∷ args) = is_allowed false first args
is_allowed false first ((c ∷ a) ∷ args) =
    let rest : Outcome Bool = is_allowed false first args in
    let valued : Outcome Bool = (do s ← text_of first; if same_text a s then ok true else rest) in
    if not (c == b'=') then rest else valued

-- the loop over the annotations
pub check_from : Nodes → List Name → Outcome Bool
check_from nil args = ok true
check_from (cons n ns) args = do
  assert (same_type (node_type n) annot)
  first ← node_get_child n 0
  matched ← is_allowed (node_num_children n == 1) first args
  let rest : Outcome Bool = check_from ns args
  if matched then rest else ok false

pub annot_check_simple : Node → List Name → Outcome Bool
annot_check_simple n args = do
  assert (same_type (node_type n) annot_list)
  check_from (node_children n) args

pub has_from : Nodes → Name → Outcome Bool
has_from nil s = ok false
has_from (cons n ns) s = do
  first ← node_get_child n 0
  let rest : Outcome Bool = has_from ns s
  let named : Outcome Bool = (do t ← text_of first; if same_text t s then ok true else rest)
  if not (node_num_children n == 1) then rest else named

pub annot_has : Node → Name → Outcome Bool
annot_has n s = do assert (same_type (node_type n) annot_list); has_from (node_children n) s

-- the loop of `annot_get_full`, with `num`
pub get_from : Nodes → Name → ℕ → Outcome (Option Name)
get_from nil key num = ok none
get_from (cons n ns) key num = do
  first ← node_get_child n 0
  let rest : ℕ → Outcome (Option Name) = get_from ns key
  let valued : Outcome (Option Name) = (do
    second ← node_get_child n 1
    t ← text_of first
    if same_text t key then (if num == 0 then util_dot_id second else rest (num - 1)) else rest num)
  if node_num_children n == 1 then rest num else valued

pub annot_get_full : Node → Name → ℕ → Outcome (Option Name)
annot_get_full n key num = do
  assert (same_type (node_type n) annot_list)
  get_from (node_children n) key num

pub annot_get : Node → Name → Outcome (Option Name)
annot_get n key = annot_get_full n key 0
