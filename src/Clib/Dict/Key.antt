-- ===== src/Clib/Dict/Key.antt =====
-- What Dict asks of its functions hash_func and equal_func.
use ripe.Prelude.{ℕ, ◌≡◌, Bool, true}

pub record DictKey {ℓ} (K : Type ℓ) : Type ℓ where
  pub hash_func : K → ℕ
  pub equal_func : K → K → Bool
  pub equal_refl : (k : K) → equal_func k k ≡ true
  pub equal_symm : (k l : K) → equal_func k l ≡ true → equal_func l k ≡ true
  pub equal_trans :
      (k l m : K) → equal_func k l ≡ true → equal_func l m ≡ true → equal_func k m ≡ true
  pub equal-hash : (k l : K) → equal_func k l ≡ true → hash_func k ≡ hash_func l
