-- ===== src/Clib/Hash/Reads.antt =====
-- The bytes that hash_bytes reads.
use ripe.Prelude.{
  ℕ, zero, suc, ◌+◌, ◌*◌, ◌/◌, ◌%◌, ◌^◌, ◌≤◌, ◌<◌, ◌≡◌, inl, inr, refl, arith, some, List, [], ◌∷◌,
  length, drop, get_or, ◌==◌, Bool-cases,
}
use ripe.Prelude.Int.{ℤ, pos, negsuc}
use ripe.Prelude.Outcome.{Outcome, at, at-get_or, Returns, Returns_bind}
use ripe.Clib.Hash.{
  get16bits, mix, mix_from, finish1, finish2, finish3, finish, avalanche, hash_bytes, to_int,
  hash_string,
}

-- the run returns
abbrev pub Runs {ℓ} : {A : Type ℓ} → Outcome A → Type ℓ
Runs r = Returns r (λ a. Unit {0})

at-Runs : (d : List ℕ) (i : ℕ) → i < length d → Runs (at d i)
at-Runs d i h = (get_or d i 0, at-get_or d i 0 h, tt)

get16bits-Runs : (d : List ℕ) (i : ℕ) → i + 1 < length d → Runs (get16bits d i)
unfolding get16bits
get16bits-Runs d i h =
    Returns_bind (at d (i + 1)) _ (at-Runs d (i + 1) h)
      (λ high u. Returns_bind (at d i) _ (at-Runs d i (omega arith)) (λ low v. (_, refl, tt)))

mix-Runs : (hash : ℕ) (d : List ℕ) → 4 ≤ length d → Runs (mix hash d)
unfolding mix
mix-Runs hash d h = Returns_bind (get16bits d 0) _ (get16bits-Runs d 0 (omega arith)) (λ a u.
    Returns_bind (get16bits d 2) _ (get16bits-Runs d 2 (omega arith)) (λ b v. (_, refl, tt)))

length-drop4 : (d : List ℕ) → 4 ≤ length d → length (drop 4 d) + 4 ≡ length d
length-drop4 [] h = absurd (omega arith)
length-drop4 (a ∷ []) h = absurd (omega arith)
length-drop4 (a ∷ b ∷ []) h = absurd (omega arith)
length-drop4 (a ∷ b ∷ c ∷ []) h = absurd (omega arith)
length-drop4 (a ∷ b ∷ c ∷ e ∷ d) h = omega arith

mix_from-Returns :
    (rounds hash : ℕ) (d : List ℕ)
    → rounds * 4 ≤ length d
    → Returns (mix_from rounds hash d) (λ r. length r.1 + rounds * 4 ≡ length d)
unfolding mix_from
mix_from-Returns zero hash d h = (_, refl, omega arith)
mix_from-Returns (suc rounds) hash d h =
    let (hash', run, u) = mix-Runs hash d (omega arith) in
    let less = length-drop4 d (omega arith) in
    let (r, run', e) = mix_from-Returns rounds hash' (drop 4 d) (omega arith) in
    (r, rw run run', omega arith)

finish3-Runs : (hash : ℕ) (d : List ℕ) → 3 ≤ length d → Runs (finish3 hash d)
unfolding finish3
finish3-Runs hash d h =
    Returns_bind (get16bits d 0) _ (get16bits-Runs d 0 (omega arith))
      (λ a u. Returns_bind (at d 2) _ (at-Runs d 2 (omega arith)) (λ c v. (_, refl, tt)))

finish2-Runs : (hash : ℕ) (d : List ℕ) → 2 ≤ length d → Runs (finish2 hash d)
unfolding finish2
finish2-Runs hash d h =
    Returns_bind (get16bits d 0) _ (get16bits-Runs d 0 (omega arith)) (λ a u. (_, refl, tt))

finish1-Runs : (hash : ℕ) (d : List ℕ) → 1 ≤ length d → Runs (finish1 hash d)
unfolding finish1
finish1-Runs hash d h = Returns_bind (at d 0) _ (at-Runs d 0 (omega arith)) (λ c u. (_, refl, tt))

finish-Runs : (rem hash : ℕ) (d : List ℕ) → rem ≤ length d → Runs (finish rem hash d)
unfolding finish
finish-Runs rem hash d h = elim (Bool-cases (rem == 3)) [
  | inl e ↦ rw e (finish3-Runs hash d (ground arith))
  | inr e ↦ elim (Bool-cases (rem == 2)) [
    | inl e' ↦ rw (e, e') (finish2-Runs hash d (ground arith))
    | inr e' ↦ elim (Bool-cases (rem == 1)) [
      | inl e'' ↦ rw (e, e', e'') (finish1-Runs hash d (ground arith))
      | inr e'' ↦ rw (e, e', e'') (hash, refl, tt)
    ]
  ]
]

avalanche-lt : (hash : ℕ) → avalanche hash < 2 ^ 32
unfolding avalanche
avalanche-lt hash = omega arith

-- Asked for no more bytes than there are, hash_bytes reads inside them only, and returns a number of
-- 32 bits.
pub hash_bytes-bounds :
    (start : List ℕ) (n : ℕ)
    → n ≤ length start
    → Returns (hash_bytes (some start) (pos n)) (λ h. h < 2 ^ 32)
unfolding hash_bytes
hash_bytes-bounds start zero h = (0, refl, omega arith)
hash_bytes-bounds start (suc n) h =
    let ((hash, d), run, e) = mix_from-Returns (suc n / 4) (suc n % 2 ^ 32) start (omega arith) in
    let (hash', run', u) = finish-Runs (suc n % 4) hash d (omega arith) in
    (avalanche hash', rw (run, run') refl, avalanche-lt hash')

hash_int-bounds :
    (s : List ℕ) (i : ℤ) → to_int (length s) ≡ i → Returns (hash_bytes (some s) i) (λ h. h < 2 ^ 32)
unfolding hash_bytes
hash_int-bounds s (pos n) e = hash_bytes-bounds s n (ground arith)
hash_int-bounds s (negsuc n) e = (0, refl, omega arith)

pub hash_string-bounds : (s : List ℕ) → Returns (hash_string s) (λ h. h < 2 ^ 32)
unfolding hash_string
hash_string-bounds s = hash_int-bounds s (to_int (length s)) refl
