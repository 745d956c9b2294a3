-- ===== src/Vm/Equality/Structure.antt =====
-- op_equal3 against the contents of values, which are what is left of them without the pointers.
use ripe.Prelude.{
  ℕ, suc, ◌≡◌, refl, ap, ap₂, arith, Bool, true, false, not, ◌==◌, if◌then◌else◌, ==→eq, ==_self,
  List,
}
use ripe.Prelude.Text.{same_text-eq, same_text_self}
use ripe.Vm.Equality.{Value, word, text, tuple, Items, nil, cons, size, op_equal3, equal_items}

mutual
  -- a value without the pointers
  pub data Contents : Type 0 where
    plain : ℕ → Contents
    bytes : List ℕ → Contents
    elements : Sequence → Contents

  pub data Sequence : Type 0 where
    ended : Sequence
    next : Contents → Sequence → Sequence

mutual
  pub contents : Value → Contents
  contents (word v) = plain v
  contents (text p s) = bytes s
  contents (tuple p vs) = elements (sequence vs)

  sequence : Items → Sequence
  sequence nil = ended
  sequence (cons v vs) = next (contents v) (sequence vs)

pub test_true : (a b : Bool) → (if not a then false else b) ≡ true → (a ≡ true) × (b ≡ true)
test_true true b e = (refl, e)
test_true false b e = absurd (cc)

mutual
  unfolding op_equal3 equal_items size contents sequence

  op_equal3-contents : (a b : Value) → op_equal3 a b ≡ true → contents a ≡ contents b
  op_equal3-contents (word v) (word w) e = ap plain (==→eq v w e)
  op_equal3-contents (text p s) (text q t) e = ap bytes (same_text-eq s t e)
  op_equal3-contents (tuple p vs) (tuple q ws) e =
      let (h, r) = test_true (size vs == size ws) (equal_items vs ws) e in
      ap elements (equal_items-sequence vs ws (==→eq (size vs) (size ws) h) r)
  op_equal3-contents (word v) (text q t) e = absurd (cc)
  op_equal3-contents (word v) (tuple q ws) e = absurd (cc)
  op_equal3-contents (text p s) (word w) e = absurd (cc)
  op_equal3-contents (text p s) (tuple q ws) e = absurd (cc)
  op_equal3-contents (tuple p vs) (word w) e = absurd (cc)
  op_equal3-contents (tuple p vs) (text q t) e = absurd (cc)

  equal_items-sequence :
      (vs ws : Items) → size vs ≡ size ws → equal_items vs ws ≡ true → sequence vs ≡ sequence ws
  equal_items-sequence nil nil h e = refl
  equal_items-sequence nil (cons w ws) h e = absurd (omega arith)
  equal_items-sequence (cons v vs) nil h e = absurd (omega arith)
  equal_items-sequence (cons v vs) (cons w ws) h e =
      let (a, r) = test_true (op_equal3 v w) (equal_items vs ws) e in
      ap₂ next (op_equal3-contents v w a) (equal_items-sequence vs ws (omega arith) r)

sequence_sizes : (vs ws : Items) → sequence vs ≡ sequence ws → size vs ≡ size ws
unfolding sequence size
sequence_sizes nil nil e = refl
sequence_sizes nil (cons w ws) e = absurd (cc)
sequence_sizes (cons v vs) nil e = absurd (cc)
sequence_sizes (cons v vs) (cons w ws) e =
    let rest : sequence vs ≡ sequence ws = cc in ap suc (sequence_sizes vs ws rest)

mutual
  unfolding op_equal3 equal_items contents sequence

  contents-op_equal3 : (a b : Value) → contents a ≡ contents b → op_equal3 a b ≡ true
  contents-op_equal3 (word v) (word w) e = let same : v ≡ w = cc in rw same (==_self w)
  contents-op_equal3 (text p s) (text q t) e = let same : s ≡ t = cc in rw same (same_text_self t)
  contents-op_equal3 (tuple p vs) (tuple q ws) e =
      let same : sequence vs ≡ sequence ws = cc in
      rw (sequence_sizes vs ws same, ==_self (size ws)) (sequence-equal_items vs ws same)
  contents-op_equal3 (word v) (text q t) e = absurd (cc)
  contents-op_equal3 (word v) (tuple q ws) e = absurd (cc)
  contents-op_equal3 (text p s) (word w) e = absurd (cc)
  contents-op_equal3 (text p s) (tuple q ws) e = absurd (cc)
  contents-op_equal3 (tuple p vs) (word w) e = absurd (cc)
  contents-op_equal3 (tuple p vs) (text q t) e = absurd (cc)

  sequence-equal_items : (vs ws : Items) → sequence vs ≡ sequence ws → equal_items vs ws ≡ true
  sequence-equal_items nil nil e = refl
  sequence-equal_items nil (cons w ws) e = absurd (cc)
  sequence-equal_items (cons v vs) nil e = absurd (cc)
  sequence-equal_items (cons v vs) (cons w ws) e =
      let first : contents v ≡ contents w = cc in
      let rest : sequence vs ≡ sequence ws = cc in
      rw (contents-op_equal3 v w first, sequence-equal_items vs ws rest) refl

-- op_equal3 holds between two values exactly if their contents are equal, whatever their pointers: the
-- same word, Strings of the same bytes, or Tuples of as many elements with the same contents.
pub op_equal3_iff :
    (a b : Value)
    → (op_equal3 a b ≡ true → contents a ≡ contents b)
      × (contents a ≡ contents b → op_equal3 a b ≡ true)
op_equal3_iff a b = (op_equal3-contents a b, contents-op_equal3 a b)
