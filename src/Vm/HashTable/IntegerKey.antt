-- ===== src/Vm/HashTable/IntegerKey.antt =====
-- Integers as keys of the hash table.
use ripe.Prelude.{◌^◌, ◌<◌, ◌≡◌, true, arith, ==_self, ap}
use ripe.Prelude.Int.{ℤ, pos, negsuc, eqb_ℤ, to_word}
use ripe.Vm.Key.{Key}

pub eqb-eq : (a b : ℤ) → eqb_ℤ a b ≡ true → a ≡ b
eqb-eq (pos a) (pos b) h = ground arith
eqb-eq (pos a) (negsuc b) h = ground arith
eqb-eq (negsuc a) (pos b) h = ground arith
eqb-eq (negsuc a) (negsuc b) h = ground arith

pub eqb_self : (a : ℤ) → eqb_ℤ a a ≡ true
eqb_self a = ==_self _

pub to_word-lt : (a : ℤ) → to_word a < 2 ^ 64
to_word-lt (pos a) = omega arith
to_word-lt (negsuc a) = omega arith

pub eqb_symm : (a b : ℤ) → eqb_ℤ a b ≡ true → eqb_ℤ b a ≡ true
eqb_symm a b h = rw (eqb-eq a b h) (eqb_self b)

pub eqb_trans : (a b c : ℤ) → eqb_ℤ a b ≡ true → eqb_ℤ b c ≡ true → eqb_ℤ a c ≡ true
eqb_trans a b c h k = rw (eqb-eq a b h) k

pub eqb_hash : (a b : ℤ) → eqb_ℤ a b ≡ true → to_word a ≡ to_word b
eqb_hash a b h = ap to_word (eqb-eq a b h)

-- the hash of an Integer is its own value, and Integers are equal by value
instance abbrev pub integer_key : Key ℤ
integer_key = record {
  nil = pos 0;
  hash = to_word;
  equal = eqb_ℤ;
  hash_bound = to_word-lt;
  equal_refl = eqb_self;
  equal_symm = eqb_symm;
  equal_trans = eqb_trans;
  hash-equal = eqb_hash;
}
