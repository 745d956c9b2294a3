-- ===== src/Prelude/Prefixes.antt =====
-- The first elements of a list, after writes and reallocations.
use ripe.Prelude.{
  ℕ, zero, suc, ◌+◌, ◌-◌, ◌≤◌, ◌<◌, ◌≡◌, refl, ap, arith, List, [], ◌∷◌, ◌++◌, length, take, drop,
  set, get_or, replicate, length-append, length-replicate, dec_lt,
}
use ripe.Prelude.Outcome.{ok, at, put}

module _ {ℓ} {V : Type ℓ} where
  -- mem_realloc of an array to `n` cells; `junk` is what a fresh cell holds
  abbrev pub resize : V → ℕ → List V → List V
  resize junk n xs = take n xs ++ replicate (n - length xs) junk

  pub length-take : (n : ℕ) (xs : List V) → n ≤ length xs → length (take n xs) ≡ n
  length-take zero xs h = refl
  length-take (suc n) [] h = absurd (omega arith)
  length-take (suc n) (x ∷ xs) h = ap suc (length-take n xs (omega arith))

  pub take-append :
      (n m : ℕ) (xs ys : List V) → n ≤ m → n ≤ length xs → take n (take m xs ++ ys) ≡ take n xs
  take-append zero m xs ys h k = refl
  take-append (suc n) zero xs ys h k = absurd (omega arith)
  take-append (suc n) (suc m) [] ys h k = absurd (omega arith)
  take-append (suc n) (suc m) (x ∷ xs) ys h k =
      ap (λ t. x ∷ t) (take-append n m xs ys (omega arith) (omega arith))

  pub take_all : (n : ℕ) (xs : List V) → length xs ≤ n → take n xs ≡ xs
  take_all zero [] h = refl
  take_all zero (x ∷ xs) h = absurd (omega arith)
  take_all (suc n) [] h = refl
  take_all (suc n) (x ∷ xs) h = ap (λ t. x ∷ t) (take_all n xs (omega arith))

  pub take-take : (n m : ℕ) (xs : List V) → n ≤ m → take n (take m xs) ≡ take n xs
  take-take zero m xs h = refl
  take-take (suc n) zero xs h = absurd (omega arith)
  take-take (suc n) (suc m) [] h = refl
  take-take (suc n) (suc m) (x ∷ xs) h = ap (λ t. x ∷ t) (take-take n m xs (omega arith))

  pub take-length : (xs ys : List V) → take (length xs) (xs ++ ys) ≡ xs
  take-length [] ys = refl
  take-length (x ∷ xs) ys = ap (λ t. x ∷ t) (take-length xs ys)

  pub drop-length : (xs ys : List V) → drop (length xs) (xs ++ ys) ≡ ys
  drop-length [] ys = refl
  drop-length (x ∷ xs) ys = drop-length xs ys

  drop_nil : (n : ℕ) → drop {A = V} n [] ≡ []
  drop_nil zero = refl
  drop_nil (suc n) = refl

  pub drop-add : (n m : ℕ) (xs : List V) → drop (n + m) xs ≡ drop m (drop n xs)
  drop-add zero m xs = let e : 0 + m ≡ m = omega arith in rw e
  drop-add (suc n) m [] = let e : suc n + m ≡ suc (n + m) = omega arith in rw (e, drop_nil m)
  drop-add (suc n) m (x ∷ xs) =
      let e : suc n + m ≡ suc (n + m) = omega arith in rw e (drop-add n m xs)

  pub drop_end : (n : ℕ) (xs : List V) → length xs ≤ n → drop n xs ≡ []
  drop_end zero [] h = refl
  drop_end zero (x ∷ xs) h = absurd (omega arith)
  drop_end (suc n) [] h = refl
  drop_end (suc n) (x ∷ xs) h = drop_end n xs (omega arith)

  pub length-drop : (n : ℕ) (xs : List V) → length (drop n xs) ≡ length xs - n
  length-drop zero xs = omega arith
  length-drop (suc n) [] = omega arith
  length-drop (suc n) (x ∷ xs) = omega (arith, length-drop n xs)

  pub resize_grow :
      (junk : V) (n : ℕ) (xs : List V)
      → length xs ≤ n
      → resize junk n xs ≡ xs ++ replicate (n - length xs) junk
  resize_grow junk n xs h = ap (λ t. t ++ replicate (n - length xs) junk) (take_all n xs h)

  pub put-append :
      (xs ys : List V) (v : V)
      → 0 < length ys
      → put (xs ++ ys) (length xs) v ≡ ok (xs ++ v ∷ drop 1 ys)
  unfolding put
  put-append [] [] v h = absurd (omega arith)
  put-append [] (y ∷ ys) v h = refl
  put-append (x ∷ xs) ys v h = rw (put-append xs ys v h)

  pub at-append : (xs : List V) (x : V) (ys : List V) → at (xs ++ x ∷ ys) (length xs) ≡ ok x
  unfolding at
  at-append [] x ys = refl
  at-append (y ∷ xs) x ys = at-append xs x ys

  pub take-suc-set :
      (n : ℕ) (xs : List V) (v : V)
      → n < length xs
      → take (suc n) (set xs n v) ≡ take n xs ++ v ∷ []
  take-suc-set n [] v h = absurd (omega arith)
  take-suc-set zero (x ∷ xs) v h = refl
  take-suc-set (suc n) (x ∷ xs) v h = ap (λ t. x ∷ t) (take-suc-set n xs v (omega arith))

  pub take-suc :
      (n : ℕ) (xs : List V) (d : V)
      → n < length xs
      → take (suc n) xs ≡ take n xs ++ get_or xs n d ∷ []
  take-suc n [] d h = absurd (omega arith)
  take-suc zero (x ∷ xs) d h = refl
  take-suc (suc n) (x ∷ xs) d h = ap (λ t. x ∷ t) (take-suc n xs d (omega arith))

  pub at-take : (n k : ℕ) (xs : List V) → k < n → at (take n xs) k ≡ at xs k
  unfolding at
  at-take zero k xs h = absurd (omega arith)
  at-take (suc n) k [] h = refl
  at-take (suc n) zero (x ∷ xs) h = refl
  at-take (suc n) (suc k) (x ∷ xs) h = at-take n k xs (omega arith)

  pub take-set : (n k : ℕ) (xs : List V) (v : V) → take n (set xs k v) ≡ set (take n xs) k v
  take-set zero k xs v = refl
  take-set (suc n) k [] v = refl
  take-set (suc n) zero (x ∷ xs) v = refl
  take-set (suc n) (suc k) (x ∷ xs) v = ap (λ t. x ∷ t) (take-set n k xs v)

  length-take_le : (n : ℕ) (xs : List V) → length xs < n → length (take n xs) ≡ length xs
  length-take_le zero xs h = absurd (omega arith)
  length-take_le (suc n) [] h = refl
  length-take_le (suc n) (x ∷ xs) h = ap suc (length-take_le n xs (omega arith))

  pub length-resize : (junk : V) (n : ℕ) (xs : List V) → n ≤ length (resize junk n xs)
  length-resize junk n xs =
      rw
        (
          length-append (take n xs) (replicate (n - length xs) junk),
          length-replicate (n - length xs) junk,
        )
        (elim (dec_lt (length xs) n) [
          | yes less ↦ omega (arith, length-take_le n xs less)
          | no more ↦ omega (arith, length-take n xs (omega arith))
        ])
