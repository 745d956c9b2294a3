-- ===== src/Vm/Value/Tags.antt =====
-- Which test recognises which packed value.
use ripe.Prelude.{ℕ, ◌-◌, ◌%◌, ◌^◌, ◌≤◌, ◌<◌, ◌≡◌, refl, arith, Bool, true, false}
use ripe.Prelude.Bits.{bit_and_3, bit_and_15}
use ripe.Prelude.Int.{ℤ}
use ripe.Vm.Value.{
  is_int64, is_double, is_ptr, pack_int64, pack_double, unpack_double, pack_ptr, unpack_ptr,
  pack_bool, unpack_bool,
}
use ripe.Vm.Value.Integers.{pack_lem}

-- the tests on a value, each by itself
pub record HasTags (int double ptr : Bool) (v : ℕ) : Type 0 where
  pub int_test : is_int64 v ≡ int
  pub double_test : is_double v ≡ double
  pub ptr_test : is_ptr v ≡ ptr

pack_int64-HasTags : (i : ℤ) → HasTags true false false (pack_int64 i)
unfolding is_int64 is_double is_ptr
pack_int64-HasTags i =
    let e = pack_lem i in
    record {
      int_test = rw bit_and_3 (ground arith);
      double_test = rw bit_and_3 (ground arith);
      ptr_test = rw bit_and_3 (ground arith);
    }

pack_double-HasTags : (d : ℕ) → d < 2 ^ 64 → HasTags false true false (pack_double d)
unfolding is_int64 is_double is_ptr pack_double
pack_double-HasTags d lt = record {
  int_test = rw (bit_and_3, bit_and_3) (ground arith);
  double_test = rw (bit_and_3, bit_and_3) (ground arith);
  ptr_test = rw (bit_and_3, bit_and_3) (ground arith);
}

pack_ptr-HasTags : (p : ℕ) → p % 4 ≡ 0 → 16 ≤ p → HasTags false false true (pack_ptr p)
unfolding is_int64 is_double is_ptr pack_ptr
pack_ptr-HasTags p aligned high = record {
  int_test = rw bit_and_3 (ground arith);
  double_test = rw bit_and_3 (ground arith);
  ptr_test = rw (bit_and_3, bit_and_15) (ground arith);
}

pack_bool-HasTags : (b : Bool) → HasTags false false false (pack_bool b)
unfolding is_int64 is_double is_ptr pack_bool
pack_bool-HasTags true = record { int_test = refl; double_test = refl; ptr_test = refl }
pack_bool-HasTags false = record { int_test = refl; double_test = refl; ptr_test = refl }

unpack_bool-pack_bool : (b : Bool) → unpack_bool (pack_bool b) ≡ b
unfolding pack_bool unpack_bool
unpack_bool-pack_bool true = refl
unpack_bool-pack_bool false = refl

-- A packed integer passes is_int64 only, a packed double is_double only, a packed pointer to a
-- multiple of 4 from 16 on is_ptr only, and a packed Boolean none of the three. What comes out of a
-- packed double has its lowest two bits cleared; a Boolean and a pointer come out as they went in.
pub tags_lem :
    (i : ℤ) (d p : ℕ) (b : Bool)
    → d < 2 ^ 64
    → p % 4 ≡ 0
    → 16 ≤ p
    → HasTags true false false (pack_int64 i)
      × HasTags false true false (pack_double d)
      × HasTags false false true (pack_ptr p)
      × HasTags false false false (pack_bool b)
      × (unpack_double (pack_double d) ≡ d - d % 4)
      × (unpack_bool (pack_bool b) ≡ b)
      × (unpack_ptr (pack_ptr p) ≡ p)
unfolding unpack_double pack_double pack_ptr unpack_ptr
tags_lem i d p b lt aligned high = (
  pack_int64-HasTags i,
  pack_double-HasTags d lt,
  pack_ptr-HasTags p aligned high,
  pack_bool-HasTags b,
  rw bit_and_3 (omega arith),
  unpack_bool-pack_bool b,
  refl,
)
