-- ===== src/Vm/Equality.antt =====
-- op_equal3 and op_hash of vm/ops.c, over values as trees: a String is its pointer with its bytes
-- before the NUL, a Tuple its pointer with its elements, and every other value is its word, also a
-- pointer to an object of another class. Two pointers to objects of different classes are different.
pub mod Structure
pub mod Hashing
mod Tests
use Prim.Native.Nat.{bit_and}
use ripe.Prelude.{
  ℕ, zero, suc, ◌+◌, ◌*◌, ◌/◌, ◌%◌, ◌^◌, Bool, true, false, not, ◌&&◌, ◌==◌, if◌then◌else◌, List,
  [], ◌∷◌, some,
}
use ripe.Prelude.Int.{ℤ, pos, negsuc, to_word}
use ripe.Prelude.Outcome.{Outcome, ok, ◌>>=◌}
use ripe.Prelude.Text.{same_text}
use ripe.Clib.Hash.{hash_bytes, hash_string}
use ripe.Vm.Value.{unpack_int64, pack_bool}

mutual
  pub data Value : Type 0 where
    word : ℕ → Value
    text : ℕ → List ℕ → Value
    tuple : ℕ → Items → Value

  -- the elements of a tuple
  pub data Items : Type 0 where
    nil : Items
    cons : Value → Items → Items

pub size : Items → ℕ
size nil = 0
size (cons v vs) = suc (size vs)

mutual
  pub op_equal3 : Value → Value → Bool
  op_equal3 (word v) (word w) = v == w
  op_equal3 (text p s) (text q t) = same_text s t
  op_equal3 (tuple p vs) (tuple q ws) =
      let same = equal_items vs ws in if not (size vs == size ws) then false else same
  op_equal3 (word v) (text q t) = false
  op_equal3 (word v) (tuple q ws) = false
  op_equal3 (text p s) (word w) = false
  op_equal3 (text p s) (tuple q ws) = false
  op_equal3 (tuple p vs) (word w) = false
  op_equal3 (tuple p vs) (text q t) = false

  -- the loop over two tuples of the same size
  pub equal_items : Items → Items → Bool
  equal_items nil nil = true
  equal_items nil (cons w ws) = true
  equal_items (cons v vs) nil = false
  equal_items (cons v vs) (cons w ws) =
      let rest = equal_items vs ws in if not (op_equal3 v w) then false else rest

pub op_equal : Value → Value → ℕ
op_equal a b = pack_bool (op_equal3 a b)

pub op_not_equal : Value → Value → ℕ
op_not_equal a b = pack_bool (not (op_equal3 a b))

-- the bytes of a Value in memory
abbrev pub bytes_of : ℕ → List ℕ
bytes_of v =
    v % 256
    ∷ v / 2 ^ 8 % 256
    ∷ v / 2 ^ 16 % 256
    ∷ v / 2 ^ 24 % 256
    ∷ v / 2 ^ 32 % 256
    ∷ v / 2 ^ 40 % 256
    ∷ v / 2 ^ 48 % 256
    ∷ v / 2 ^ 56 % 256
    ∷ []

pub hash_value : ℕ → Outcome ℕ
hash_value v = hash_bytes (some (bytes_of v)) (pos 8)

-- the int64 that op_hash returns, as the uint64 that its callers make of it
mutual
  pub op_hash : Value → Outcome ℕ
  op_hash (word v) = if bit_and v 0x3 == 0x0 then hash_value v else ok (to_word (unpack_int64 v))
  op_hash (text p s) = hash_string s
  op_hash (tuple p vs) = hash_items vs 89

  -- the loop over a tuple, with `h`
  pub hash_items : Items → ℕ → Outcome ℕ
  hash_items nil h = ok h
  hash_items (cons v vs) h = do x ← op_hash v; hash_items vs ((h + x) % 2 ^ 64)
