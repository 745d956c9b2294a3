-- ===== src/Lang/Operators/Mapping.antt =====
-- The tests for operators against the functions that the generator calls for them.
use ripe.Prelude.{
  ℕ, ◌≡◌, refl, arith, Bool, true, false, not, ◌==◌, Bool-cases, ◌⊎◌, inl, inr, if◌then◌else◌, [],
  ◌∷◌,
}
use ripe.Prelude.Outcome.{stop, assertion, Returns}
use ripe.Lang.NodeType.{NodeType, same_type}
use ripe.Lang.Node.{Name, Node, node_type, node_num_children}
use ripe.Lang.Operators.{
  OperatorTable, binary_ot, unary_ot, has_type, func_of, is_binary_op, binary_op_map, is_unary_op,
  unary_op_map,
}

-- an entry of a table for a type
abbrev pub Entry : OperatorTable → NodeType → Name → Type 0
Entry [] t name = ⊥
Entry ((u, func) ∷ ot) t name = ((same_type t u ≡ true) × (func ≡ name)) ⊎ Entry ot t name

func_of-Entry :
    (ot : OperatorTable) (t : NodeType) → has_type ot t ≡ true → Returns (func_of ot t) (Entry ot t)
unfolding has_type func_of
func_of-Entry [] t h = cc
func_of-Entry ((u, func) ∷ ot) t h = elim (Bool-cases (same_type t u)) [
  | inl same ↦ (func, rw same refl, inl (same, refl))
  | inr differs ↦
      let (name, run, found) = func_of-Entry ot t (rw differs at h) in
      (name, rw differs run, inr found)
]

func_of-none :
    (ot : OperatorTable) (t : NodeType) → has_type ot t ≡ false → func_of ot t ≡ stop assertion
unfolding has_type func_of
func_of-none [] t h = refl
func_of-none ((u, func) ∷ ot) t h = elim (Bool-cases (same_type t u)) [
  | inl same ↦ absurd (ground arith)
  | inr differs ↦ rw differs (func_of-none ot t (rw differs at h))
]

tested : (c k : ℕ) (b : Bool) → (if not (c == k) then false else b) ≡ true → (c ≡ k) × (b ≡ true)
tested c k b h = (ground arith, ground arith)

untested : (c k : ℕ) (b : Bool) → c ≡ k → (if not (c == k) then false else b) ≡ false → b ≡ false
untested c k b e h = ground arith

-- For a node that passes is_binary_op or is_unary_op, which has two children or one, binary_op_map or
-- unary_op_map does not fail and returns the function of an entry for its type. For a node of the
-- same number of children that does not pass, the assertion of binary_op_map or unary_op_map fails.
pub op_map_lem :
    (n : Node)
    → (is_binary_op n ≡ true
        → (node_num_children n ≡ 2)
          × Returns (binary_op_map (node_type n)) (Entry binary_ot (node_type n)))
      × (is_unary_op n ≡ true
          → (node_num_children n ≡ 1)
            × Returns (unary_op_map (node_type n)) (Entry unary_ot (node_type n)))
      × (node_num_children n ≡ 2
          → is_binary_op n ≡ false
          → binary_op_map (node_type n) ≡ stop assertion)
      × (node_num_children n ≡ 1
          → is_unary_op n ≡ false
          → unary_op_map (node_type n) ≡ stop assertion)
unfolding is_binary_op is_unary_op binary_op_map unary_op_map
op_map_lem n = (
  λ passes.
      let (two, found) = tested (node_num_children n) 2 (has_type binary_ot (node_type n)) passes in
      (two, func_of-Entry binary_ot (node_type n) found),
  λ passes.
      let (one, found) = tested (node_num_children n) 1 (has_type unary_ot (node_type n)) passes in
      (one, func_of-Entry unary_ot (node_type n) found),
  λ two fails.
      func_of-none binary_ot (node_type n)
        (untested (node_num_children n) 2 (has_type binary_ot (node_type n)) two fails),
  λ one fails.
      func_of-none unary_ot (node_type n)
        (untested (node_num_children n) 1 (has_type unary_ot (node_type n)) one fails),
)
