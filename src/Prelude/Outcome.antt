-- ===== src/Prelude/Outcome.antt =====
-- How a C function ends. `ok` is a return; the others end it early.
use mathlib.Core.Path.{◌≡◌, refl, sym, subst, ◌∙◌}
use mathlib.Core.Bool.{Bool, true, false}
use mathlib.Core.List.{List, [], ◌∷◌}
use Prim.Native.Nat.{ℕ, zero, suc, ◌<◌}
use native.Mathlib.Omega.{arith}
use ripe.Prelude.Lists.{length, get_or, set}

-- `assertion`: an `assert` or `assert_never` that fails. `out_of_bounds`, `null_pointer` and
-- `division_by_zero`: undefined behaviour of C. `raised`: `exc_raise`, which does not return.
-- `thrown`: `fatal_throw`, which ends the compiler. `out_of_fuel`: the model's own, where a loop
-- recurs on fuel.
pub data Stop : Type 0 where
  assertion out_of_bounds null_pointer division_by_zero raised thrown out_of_fuel : Stop

pub data Outcome {ℓ} (A : Type ℓ) : Type ℓ where
  ok : A → Outcome A
  stop : Stop → Outcome A

infixl 5 ◌>>=◌ ◌>>◌
abbrev pub ◌>>=◌ {ℓ κ} : {A : Type ℓ} {B : Type κ} → Outcome A → (A → Outcome B) → Outcome B
ok a >>= f = f a
stop s >>= f = stop s

abbrev pub ◌>>◌ {ℓ} : {B : Type ℓ} → Outcome (Unit {0}) → Outcome B → Outcome B
m >> k = m >>= λ _. k

abbrev pub assert : Bool → Outcome (Unit {0})
assert true = ok tt
assert false = stop assertion

-- The run returns, and what it returns satisfies `P`.
abbrev pub Returns {ℓ κ} : {A : Type ℓ} → Outcome A → (A → Type κ) → Type (ℓ ⊔ κ)
Returns {A} r P = (a : A) × (r ≡ ok a) × P a

-- A read and a write through a pointer to a block of memory.
unfoldable pub at {ℓ} : {A : Type ℓ} → List A → ℕ → Outcome A
at [] i = stop out_of_bounds
at (x ∷ xs) zero = ok x
at (x ∷ xs) (suc i) = at xs i

unfoldable pub put {ℓ} : {A : Type ℓ} → List A → ℕ → A → Outcome (List A)
put [] i v = stop out_of_bounds
put (x ∷ xs) zero v = ok (v ∷ xs)
put (x ∷ xs) (suc i) v = put xs i v >>= λ ys. ok (x ∷ ys)

pub at-get_or {ℓ} :
    {A : Type ℓ} (xs : List A) (i : ℕ) (d : A) → i < length xs → at xs i ≡ ok (get_or xs i d)
unfolding at
at-get_or [] i d h = absurd (omega arith)
at-get_or (x ∷ xs) zero d h = refl
at-get_or (x ∷ xs) (suc i) d h = at-get_or xs i d (omega arith)

pub put-set {ℓ} :
    {A : Type ℓ} (xs : List A) (i : ℕ) (v : A) → i < length xs → put xs i v ≡ ok (set xs i v)
unfolding put
put-set [] i v h = absurd (omega arith)
put-set (x ∷ xs) zero v h = refl
put-set (x ∷ xs) (suc i) v h = rw (put-set xs i v (omega arith))

pub ok-injective {ℓ} : {A : Type ℓ} {a b : A} → ok a ≡ ok b → a ≡ b
ok-injective e = cc

pub Returns_at {ℓ κ} :
    {A : Type ℓ} {P : A → Type κ} {r : Outcome A} {a : A} → Returns r P → r ≡ ok a → P a
Returns_at {P = P} (b, run, p) e = subst P (ok-injective (sym run ∙ e)) p

pub Returns_bind {ℓ κ μ ν} :
    {A : Type ℓ} {B : Type κ} {P : A → Type μ} {Q : B → Type ν} (r : Outcome A) (f : A → Outcome B)
    → Returns r P
    → ((a : A) → P a → Returns (f a) Q)
    → Returns (r >>= f) Q
Returns_bind r f (a, run, p) next = let (b, run', q) = next a p in (b, rw run run', q)

-- The run ends before its fuel does, and what it returns, if it returns, satisfies `P`.
abbrev pub Ends {ℓ} : {A : Type ℓ} → Outcome A → (A → Type 0) → Type 0
Ends (ok a) P = P a
Ends (stop out_of_fuel) P = ⊥
Ends (stop assertion) P = Unit {0}
Ends (stop out_of_bounds) P = Unit {0}
Ends (stop null_pointer) P = Unit {0}
Ends (stop division_by_zero) P = Unit {0}
Ends (stop raised) P = Unit {0}
Ends (stop thrown) P = Unit {0}

pub Ends_bind {ℓ κ} :
    {A : Type ℓ} {B : Type κ} (P : A → Type 0) (Q : B → Type 0) (r : Outcome A) (f : A → Outcome B)
    → Ends r P
    → ((a : A) → P a → Ends (f a) Q)
    → Ends (r >>= f) Q
Ends_bind P Q (ok a) f p next = next a p
Ends_bind P Q (stop out_of_fuel) f p next = absurd p
Ends_bind P Q (stop assertion) f p next = tt
Ends_bind P Q (stop out_of_bounds) f p next = tt
Ends_bind P Q (stop null_pointer) f p next = tt
Ends_bind P Q (stop division_by_zero) f p next = tt
Ends_bind P Q (stop raised) f p next = tt
Ends_bind P Q (stop thrown) f p next = tt

pub Ends_weaken {ℓ} :
    {A : Type ℓ} (P Q : A → Type 0) (r : Outcome A) → ((a : A) → P a → Q a) → Ends r P → Ends r Q
Ends_weaken P Q (ok a) f p = f a p
Ends_weaken P Q (stop out_of_fuel) f p = p
Ends_weaken P Q (stop assertion) f p = tt
Ends_weaken P Q (stop out_of_bounds) f p = tt
Ends_weaken P Q (stop null_pointer) f p = tt
Ends_weaken P Q (stop division_by_zero) f p = tt
Ends_weaken P Q (stop raised) f p = tt
Ends_weaken P Q (stop thrown) f p = tt
