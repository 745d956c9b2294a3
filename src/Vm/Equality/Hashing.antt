-- ===== src/Vm/Equality/Hashing.antt =====
-- What op_hash returns, and the instance that makes values keys of the hash table.
use Prim.Native.Nat.{bit_and}
use ripe.Prelude.{
  ℕ, ◌+◌, ◌%◌, ◌^◌, ◌<◌, ◌≡◌, refl, sym, ap, ◌∙◌, arith, true, Bool-cases, inl, inr, ◌==◌, ==→eq,
  List,
}
use ripe.Prelude.Int.{pos, to_word}
use ripe.Prelude.Outcome.{Outcome, ok, stop, Returns, Returns_bind}
use ripe.Prelude.Text.{same_text-eq}
use ripe.Clib.Hash.{hash_string}
use ripe.Clib.Hash.Reads.{hash_bytes-bounds, hash_string-bounds}
use ripe.Vm.Value.{pack_int64, unpack_int64}
use ripe.Vm.Value.Integers.{to_word-lt, packed_tail, unpack_int64-pack_int64}
use ripe.Vm.Key.{Key}
use ripe.Clib.Probing.{NoWrap}
use ripe.Vm.Equality.{
  Value, word, text, tuple, Items, nil, cons, size, op_equal3, equal_items, bytes_of, hash_value,
  op_hash, hash_items,
}
use ripe.Vm.Equality.Structure.{test_true, op_equal3_iff}

wider : (r : Outcome ℕ) → Returns r (λ h. h < 2 ^ 32) → Returns r (λ h. h < 2 ^ 64)
wider r (h, run, lt) = (h, run, omega arith)

mutual
  unfolding op_hash hash_items hash_value

  pub op_hash-bounds : (v : Value) → Returns (op_hash v) (λ h. h < 2 ^ 64)
  op_hash-bounds (word v) = elim (Bool-cases (bit_and v 0x3 == 0x0)) [
    | inl e ↦ rw e (wider _ (hash_bytes-bounds (bytes_of v) 8 (omega arith)))
    | inr e ↦ rw e (to_word (unpack_int64 v), refl, to_word-lt (unpack_int64 v))
  ]
  op_hash-bounds (text p s) = wider _ (hash_string-bounds s)
  op_hash-bounds (tuple p vs) = hash_items-bounds vs 89 (omega arith)

  hash_items-bounds :
      (vs : Items) (h : ℕ) → h < 2 ^ 64 → Returns (hash_items vs h) (λ r. r < 2 ^ 64)
  hash_items-bounds nil h lt = (h, refl, lt)
  hash_items-bounds (cons v vs) h lt =
      Returns_bind (op_hash v) _ (op_hash-bounds v)
        (λ x small. hash_items-bounds vs ((h + x) % 2 ^ 64) (omega arith))

-- the hash out of its outcome
abbrev pub returned : Outcome ℕ → ℕ
returned (ok h) = h
returned (stop s) = 0

-- the hashes of the elements of a tuple, added up without a bound
abbrev pub hash_sum : Items → ℕ
hash_sum nil = 0
hash_sum (cons v vs) = returned (op_hash v) + hash_sum vs

mutual
  unfolding op_equal3 equal_items op_hash hash_items size

  -- values between which op_equal3 holds have their words, bytes and elements hashed alike
  pub op_hash-agree : (a b : Value) → op_equal3 a b ≡ true → op_hash a ≡ op_hash b
  op_hash-agree (word v) (word w) e = ap (λ x. op_hash (word x)) (==→eq v w e)
  op_hash-agree (text p s) (text q t) e = ap hash_string (same_text-eq s t e)
  op_hash-agree (tuple p vs) (tuple q ws) e =
      let (h, r) = test_true (size vs == size ws) (equal_items vs ws) e in
      hash_items-agree vs ws 89 (==→eq (size vs) (size ws) h) r
  op_hash-agree (word v) (text q t) e = absurd (cc)
  op_hash-agree (word v) (tuple q ws) e = absurd (cc)
  op_hash-agree (text p s) (word w) e = absurd (cc)
  op_hash-agree (text p s) (tuple q ws) e = absurd (cc)
  op_hash-agree (tuple p vs) (word w) e = absurd (cc)
  op_hash-agree (tuple p vs) (text q t) e = absurd (cc)

  hash_items-agree :
      (vs ws : Items) (h : ℕ)
      → size vs ≡ size ws
      → equal_items vs ws ≡ true
      → hash_items vs h ≡ hash_items ws h
  hash_items-agree nil nil h e r = refl
  hash_items-agree nil (cons w ws) h e r = absurd (omega arith)
  hash_items-agree (cons v vs) nil h e r = absurd (omega arith)
  hash_items-agree (cons v vs) (cons w ws) h e r =
      let (a, rest) = test_true (op_equal3 v w) (equal_items vs ws) r in
      let (x, run, lt) = op_hash-bounds w in
      rw (op_hash-agree v w a, run) (hash_items-agree vs ws ((h + x) % 2 ^ 64) (omega arith) rest)

hash_items-hash_sum :
    (vs : Items) (h : ℕ) → h < 2 ^ 64 → hash_items vs h ≡ ok ((h + hash_sum vs) % 2 ^ 64)
unfolding hash_items
hash_items-hash_sum nil h lt = ap ok (omega arith)
hash_items-hash_sum (cons v vs) h lt =
    let (x, run, small) = op_hash-bounds v in
    rw run (hash_items-hash_sum vs ((h + x) % 2 ^ 64) (omega arith) ∙ ap ok (omega arith))

-- op_hash returns a hash of 64 bits for every value. It is the same for values between which
-- op_equal3 holds, wherever they and their elements are in memory, and that of a Tuple is 89 with the
-- hashes of all its elements added, modulo 2 ^ 64.
pub op_hash_lem :
    (a b : Value) (p : ℕ) (vs : Items)
    → Returns (op_hash a) (λ h. h < 2 ^ 64)
      × (op_equal3 a b ≡ true → op_hash a ≡ op_hash b)
      × (op_hash (tuple p vs) ≡ ok ((89 + hash_sum vs) % 2 ^ 64))
unfolding op_hash
op_hash_lem a b p vs =
    (op_hash-bounds a, op_hash-agree a b, hash_items-hash_sum vs 89 (omega arith))

pub returned-bound : (r : Outcome ℕ) → Returns r (λ h. h < 2 ^ 64) → returned r < 2 ^ 64
returned-bound r (h, run, lt) = rw run lt

pub equal_symm : (a b : Value) → op_equal3 a b ≡ true → op_equal3 b a ≡ true
equal_symm a b e = (op_equal3_iff b a).1 (sym ((op_equal3_iff a b).0 e))

pub equal_trans :
    (a b c : Value) → op_equal3 a b ≡ true → op_equal3 b c ≡ true → op_equal3 a c ≡ true
equal_trans a b c e e' = (op_equal3_iff a c).1 ((op_equal3_iff a b).0 e ∙ (op_equal3_iff b c).0 e')

instance abbrev pub value_key : Key Value
value_key = record {
  nil = word 0;
  hash = λ v. returned (op_hash v);
  hash_bound = λ v. returned-bound (op_hash v) (op_hash-bounds v);
  equal = op_equal3;
  equal_refl = λ v. (op_equal3_iff v v).1 refl;
  equal_symm = equal_symm;
  equal_trans = equal_trans;
  hash-equal = λ a b e. ap returned (op_hash-agree a b e);
}

text-NoWrap : (p : ℕ) (s : List ℕ) → NoWrap (value_key.hash (text p s))
unfolding op_hash
text-NoWrap p s = let (h, run, lt) = hash_string-bounds s in rw run (omega arith)

integer-NoWrap : (n : ℕ) → n < 2 ^ 61 → NoWrap (value_key.hash (word (pack_int64 (pos n))))
unfolding op_hash
integer-NoWrap n small =
    let same = (unpack_int64-pack_int64 (pos n)).2 (small, omega arith) in
    rw (packed_tail (pos n), same) (omega arith)

-- The probes of a String and those of an Integer that is not negative never wrap.
pub value-NoWrap :
    (p : ℕ) (s : List ℕ) (n : ℕ)
    → n < 2 ^ 61
    → NoWrap (value_key.hash (text p s)) × NoWrap (value_key.hash (word (pack_int64 (pos n))))
value-NoWrap p s n small = (text-NoWrap p s, integer-NoWrap n small)
