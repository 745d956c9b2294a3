-- ===== src/Clib/Dict/Keys.antt =====
-- The keys of Dict: strings and numbers of 32 and 64 bits.
use ripe.Prelude.{ℕ, ◌%◌, ◌^◌, ◌≡◌, ap, arith, Bool, ◌==◌, ==→eq, ==_self, List}
use ripe.Prelude.Outcome.{Outcome, ok}
use ripe.Prelude.Text.{same_text, same_text-eq, same_text_self}
use ripe.Clib.Hash.{hash_string}
use ripe.Clib.Hash.Reads.{hash_string-bounds}
use ripe.Clib.Probing.{NoWrap}
use ripe.Clib.Dict.Key.{DictKey}

pub dict_hash_string : List ℕ → Outcome ℕ
dict_hash_string s = hash_string s

unfoldable pub dict_equal_string : List ℕ → List ℕ → Bool
dict_equal_string s t = same_text s t

-- `*p` of a pointer to a uint32
unfoldable pub dict_hash_uint32 : ℕ → ℕ
dict_hash_uint32 p = p % 2 ^ 32

unfoldable pub dict_equal_uint32 : ℕ → ℕ → Bool
dict_equal_uint32 p q = p % 2 ^ 32 == q % 2 ^ 32

unfoldable pub dict_hash_uint64 : ℕ → ℕ
dict_hash_uint64 p = p % 2 ^ 64

unfoldable pub dict_equal_uint64 : ℕ → ℕ → Bool
dict_equal_uint64 p q = p % 2 ^ 64 == q % 2 ^ 64

-- what dict_hash_string returns
abbrev pub string_hash : List ℕ → ℕ
string_hash s = (hash_string-bounds s).0

instance unfoldable pub string_key : DictKey (List ℕ)
unfolding dict_equal_string
string_key = record {
  hash_func = string_hash;
  equal_func = dict_equal_string;
  equal_refl = same_text_self;
  equal_symm = λ s t e. rw (same_text-eq s t e) (same_text_self t);
  equal_trans = λ s t u e f. rw (same_text-eq s t e) f;
  equal-hash = λ s t e. ap string_hash (same_text-eq s t e);
}

-- no probe of a string wraps
pub string_key-NoWrap : (s : List ℕ) → NoWrap (string_key.hash_func s)
unfolding string_key
string_key-NoWrap s = let lt = (hash_string-bounds s).2 in omega arith

pub dict_hash_string_lem : (s : List ℕ) → dict_hash_string s ≡ ok (string_key.hash_func s)
unfolding dict_hash_string string_key
dict_hash_string_lem s = (hash_string-bounds s).1

instance unfoldable pub uint32_key : DictKey ℕ
unfolding dict_hash_uint32 dict_equal_uint32
uint32_key = record {
  hash_func = dict_hash_uint32;
  equal_func = dict_equal_uint32;
  equal_refl = λ p. ==_self (p % 2 ^ 32);
  equal_symm = λ p q e. ground (arith, e);
  equal_trans = λ p q r e f. ground (arith, e, f);
  equal-hash = λ p q e. ==→eq _ _ e;
}

-- and none of a number of 32 bits
pub uint32_key-NoWrap : (p : ℕ) → NoWrap (uint32_key.hash_func p)
unfolding uint32_key dict_hash_uint32
uint32_key-NoWrap p = omega arith

-- The hash of a number of 64 bits can be so large that its probes wrap.
abbrev pub uint64_key : DictKey ℕ
unfolding dict_hash_uint64 dict_equal_uint64
uint64_key = record {
  hash_func = dict_hash_uint64;
  equal_func = dict_equal_uint64;
  equal_refl = λ p. ==_self (p % 2 ^ 64);
  equal_symm = λ p q e. ground (arith, e);
  equal_trans = λ p q r e f. ground (arith, e, f);
  equal-hash = λ p q e. ==→eq _ _ e;
}
