-- ===== src/Clib/Hash.antt =====
-- The hash of bytes of clib/hash.c. A pointer into the bytes is the list of the bytes from there on;
-- uint32 sums and shifts wrap, and a char is a signed byte.
pub mod Reads
mod Tests
use Prim.Native.Nat.{bit_xor}
use ripe.Prelude.{
  ℕ, zero, suc, ◌+◌, ◌-◌, ◌*◌, ◌/◌, ◌%◌, ◌^◌, Bool, ◌==◌, ltb, if◌then◌else◌, Option, none, some,
  List, length, drop,
}
use ripe.Prelude.Int.{ℤ, pos, negsuc}
use ripe.Prelude.Outcome.{Outcome, ok, at, ◌>>=◌}

-- `x << k` of a uint32; `p` is 2 ^ k
abbrev shl : ℕ → ℕ → ℕ
shl x p = x * p % 2 ^ 32

-- a char as a uint32
abbrev signed_char : ℕ → ℕ
signed_char c = if ltb c 128 then c else (c + 2 ^ 32 - 256) % 2 ^ 32

-- get16bits at `d + i`
pub get16bits : List ℕ → ℕ → Outcome ℕ
get16bits d i = do high ← at d (i + 1); low ← at d i; ok ((shl high (2 ^ 8) + low) % 2 ^ 32)

-- one round of the main loop
pub mix : ℕ → List ℕ → Outcome ℕ
mix hash₀ d = do
  a ← get16bits d 0
  let hash₁ : ℕ = (hash₀ + a) % 2 ^ 32
  b ← get16bits d 2
  let tmp : ℕ = bit_xor (shl b (2 ^ 11)) hash₁
  let hash₂ : ℕ = bit_xor (shl hash₁ (2 ^ 16)) tmp
  ok ((hash₂ + hash₂ / 2 ^ 11) % 2 ^ 32)

-- the main loop, with the rounds left
pub mix_from : ℕ → ℕ → List ℕ → Outcome (ℕ × List ℕ)
mix_from zero hash d = ok (hash, d)
mix_from (suc rounds) hash d = mix hash d >>= λ hash'. mix_from rounds hash' (drop 4 d)

-- the three end cases
pub finish3 : ℕ → List ℕ → Outcome ℕ
finish3 hash₀ d = do
  a ← get16bits d 0
  let hash₁ : ℕ = (hash₀ + a) % 2 ^ 32
  let hash₂ : ℕ = bit_xor hash₁ (shl hash₁ (2 ^ 16))
  c ← at d 2
  let hash₃ : ℕ = bit_xor hash₂ (shl (signed_char c) (2 ^ 18))
  ok ((hash₃ + hash₃ / 2 ^ 11) % 2 ^ 32)

pub finish2 : ℕ → List ℕ → Outcome ℕ
finish2 hash₀ d = do
  a ← get16bits d 0
  let hash₁ : ℕ = (hash₀ + a) % 2 ^ 32
  let hash₂ : ℕ = bit_xor hash₁ (shl hash₁ (2 ^ 11))
  ok ((hash₂ + hash₂ / 2 ^ 17) % 2 ^ 32)

pub finish1 : ℕ → List ℕ → Outcome ℕ
finish1 hash₀ d = do
  c ← at d 0
  let hash₁ : ℕ = (hash₀ + signed_char c) % 2 ^ 32
  let hash₂ : ℕ = bit_xor hash₁ (shl hash₁ (2 ^ 10))
  ok ((hash₂ + hash₂ / 2) % 2 ^ 32)

pub finish : ℕ → ℕ → List ℕ → Outcome ℕ
finish rem hash d =
    if rem == 3
    then finish3 hash d
    else if rem == 2
    then finish2 hash d
    else if rem == 1
    then finish1 hash d
    else ok hash

pub avalanche : ℕ → ℕ
avalanche hash₀ =
    let hash₁ = bit_xor hash₀ (shl hash₀ (2 ^ 3)) in
    let hash₂ = (hash₁ + hash₁ / 2 ^ 5) % 2 ^ 32 in
    let hash₃ = bit_xor hash₂ (shl hash₂ (2 ^ 4)) in
    let hash₄ = (hash₃ + hash₃ / 2 ^ 17) % 2 ^ 32 in
    let hash₅ = bit_xor hash₄ (shl hash₄ (2 ^ 25)) in (hash₅ + hash₅ / 2 ^ 6) % 2 ^ 32

-- NULL is `none`
pub hash_bytes : Option (List ℕ) → ℤ → Outcome ℕ
hash_bytes start (negsuc n) = ok 0
hash_bytes start (pos zero) = ok 0
hash_bytes none (pos (suc n)) = ok 0
hash_bytes (some start) (pos (suc n)) = do
  (hash, d) ← mix_from (suc n / 4) (suc n % 2 ^ 32) start
  hash' ← finish (suc n % 4) hash d
  ok (avalanche hash')

-- the conversion of a uint64 to int
abbrev pub to_int : ℕ → ℤ
to_int n = if ltb (n % 2 ^ 32) (2 ^ 31) then pos (n % 2 ^ 32) else negsuc (2 ^ 32 - 1 - n % 2 ^ 32)

-- the bytes of a string are those before its NUL
pub hash_string : List ℕ → Outcome ℕ
hash_string str = hash_bytes (some str) (to_int (length str))
