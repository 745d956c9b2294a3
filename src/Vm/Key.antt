-- ===== src/Vm/Key.antt =====
-- What the hash table asks of `op_hash` and `op_equal2` of vm/ops.c, and the value nil.
use ripe.Prelude.{ℕ, ◌^◌, ◌<◌, ◌≡◌, Bool, true}

pub record Key {ℓ} (K : Type ℓ) : Type ℓ where
  pub nil : K
  pub hash : K → ℕ
  pub hash_bound : (k : K) → hash k < 2 ^ 64
  pub equal : K → K → Bool
  pub equal_refl : (k : K) → equal k k ≡ true
  pub equal_symm : (k l : K) → equal k l ≡ true → equal l k ≡ true
  pub equal_trans : (k l m : K) → equal k l ≡ true → equal l m ≡ true → equal k m ≡ true
  pub hash-equal : (k l : K) → equal k l ≡ true → hash k ≡ hash l
