-- ===== src/Vm/Index/Ranges.antt =====
-- The places that util_index_range selects, and counting along a range.
use ripe.Prelude.{
  ℕ, zero, suc, ◌+◌, ◌-◌, ◌^◌, ◌<◌, ◌≡◌, ◌⊎◌, inl, inr, refl, arith, Bool, true, false, Bool-cases,
}
use ripe.Prelude.Int.{ℤ, pos, negsuc, ◌+ℤ◌, ◌-ℤ◌, ltb_ℤ, ◌<ℤ◌, wrap}
use ripe.Prelude.Outcome.{ok, stop, raised}
use ripe.Vm.Index.{
  Range, RangeType, bounded, bounded_left, bounded_right, unbounded, util_index_range, range_start,
  range_delta, range_finish,
}
use ripe.Vm.Index.Bounds.{Names, util_index-cases}

-- `k` is the C index of the lower end of the range, `m` that of its upper end
abbrev pub StartsAt : ℕ → Range → ℕ → Type 0
StartsAt n r k = elim r.type [
  | bounded ↦ Names n r.start k
  | bounded_left ↦ Names n r.start k
  | bounded_right ↦ k ≡ 0
  | unbounded ↦ k ≡ 0
]

abbrev pub FinishesAt : ℕ → Range → ℕ → Type 0
FinishesAt n r m = elim r.type [
  | bounded ↦ Names n r.finish m
  | bounded_left ↦ m + 1 ≡ n
  | bounded_right ↦ Names n r.finish m
  | unbounded ↦ m + 1 ≡ n
]

last_place : (n : ℕ) → 0 < n → n < 2 ^ 63 → wrap (pos n -ℤ pos 1) ≡ pos (n - 1)
last_place n some_left most = ground arith

-- what util_index_range does with a range of an array of `n`
abbrev pub Selects : ℕ → Range → Type 0
Selects n r =
    ((util_index_range r (pos n) ≡ stop raised)
      × ((k m : ℕ) → StartsAt n r k → ¬ (FinishesAt n r m)))
    ⊎ ((k : ℕ) × (m : ℕ) × (util_index_range r (pos n) ≡ ok (pos k, pos m))
        × (k < n)
        × (m < n)
        × StartsAt n r k
        × FinishesAt n r m)

abbrev range_of : ℤ → ℤ → RangeType → Range
range_of s f t = record { start = s; finish = f; type = t }

range_of-Selects :
    (n : ℕ) (s f : ℤ) (t : RangeType) → 0 < n → n < 2 ^ 63 → Selects n (range_of s f t)
unfolding util_index_range
range_of-Selects n s f bounded low most = elim (util_index-cases n s most) [
  | inl (e, bad) ↦ inl (rw e refl, λ k m a b. bad k a)
  | inr (k, e, a) ↦ elim (util_index-cases n f most) [
    | inl (e', bad) ↦ inl (rw (e, e') refl, λ k m a b. bad m b)
    | inr (m, e', b) ↦ inr (k, m, rw (e, e') refl, a.0, b.0, a, b)
  ]
]
range_of-Selects n s f bounded_left low most = elim (util_index-cases n s most) [
  | inl (e, bad) ↦ inl (rw e refl, λ k m a b. bad k a)
  | inr (k, e, a) ↦
      inr (k, n - 1, rw (e, last_place n low most) refl, a.0, omega arith, a, omega arith)
]
range_of-Selects n s f bounded_right low most = elim (util_index-cases n f most) [
  | inl (e, bad) ↦ inl (rw e refl, λ k m a b. bad m b)
  | inr (m, e, b) ↦ inr (0, m, rw e refl, low, b.0, refl, b)
]
range_of-Selects n s f unbounded low most =
    inr (0, n - 1, rw (last_place n low most) refl, low, omega arith, refl, omega arith)

-- In an array of at least one element, util_index_range returns two places inside the array: those
-- which the range's bounds name, or the first and the last where it has no bound; it raises exactly
-- if a bound names no element.
pub util_index_range_lem : (n : ℕ) (r : Range) → 0 < n → n < 2 ^ 63 → Selects n r
util_index_range_lem n r low most = range_of-Selects n r.start r.finish r.type low most

-- `k` steps of `d` from `s`
abbrev pub steps : ℕ → ℤ → ℤ → ℤ
steps zero d s = s
steps (suc k) d s = steps k d s +ℤ d

add_one : (k : ℕ) (s : ℤ) → s +ℤ pos k +ℤ pos 1 ≡ s +ℤ pos (suc k)
add_one k (pos n) = ground arith
add_one k (negsuc n) = ground arith

sub_one : (k : ℕ) (s : ℤ) → s -ℤ pos k +ℤ negsuc 0 ≡ s -ℤ pos (suc k)
sub_one k (pos n) = ground arith
sub_one k (negsuc n) = ground arith

steps_up : (k : ℕ) (s : ℤ) → steps k (pos 1) s ≡ s +ℤ pos k
steps_up zero (pos n) = ground arith
steps_up zero (negsuc n) = ground arith
steps_up (suc k) s = rw (steps_up k s) (add_one k s)

steps_down : (k : ℕ) (s : ℤ) → steps k (negsuc 0) s ≡ s -ℤ pos k
steps_down zero (pos n) = ground arith
steps_down zero (negsuc n) = ground arith
steps_down (suc k) s = rw (steps_down k s) (sub_one k s)

abbrev Reaches : ℤ → ℤ → ℤ → Type 0
Reaches s d f = (k : ℕ) × (steps k d s ≡ f)

reach_up : (s f : ℤ) → ltb_ℤ f s ≡ false → Reaches s (pos 1) f
reach_up (pos n) (pos m) h = (m - n, rw (steps_up (m - n) (pos n)) (ground arith))
reach_up (pos n) (negsuc m) h = absurd (ground arith)
reach_up (negsuc n) (pos m) h = (m + n + 1, rw (steps_up (m + n + 1) (negsuc n)) (ground arith))
reach_up (negsuc n) (negsuc m) h = (n - m, rw (steps_up (n - m) (negsuc n)) (ground arith))

reach_down : (s f : ℤ) → ltb_ℤ f s ≡ true → Reaches s (negsuc 0) f
reach_down (pos n) (pos m) h = (n - m, rw (steps_down (n - m) (pos n)) (ground arith))
reach_down (pos n) (negsuc m) h = (n + m + 1, rw (steps_down (n + m + 1) (pos n)) (ground arith))
reach_down (negsuc n) (pos m) h = absurd (ground arith)
reach_down (negsuc n) (negsuc m) h = (m - n, rw (steps_down (m - n) (negsuc n)) (ground arith))

below : (s : ℤ) → s <ℤ pos (2 ^ 63 - 1) → ltb_ℤ (pos (2 ^ 63 - 1 - 1)) s ≡ false
below (pos n) h = ground arith
below (negsuc n) h = ground arith

-- a range with a lower bound
abbrev pub has_start : RangeType → Bool
has_start bounded = true
has_start bounded_left = true
has_start bounded_right = false
has_start unbounded = false

abbrev pub Walks : Range → Type 0
Walks r =
    (d : ℤ) × (f : ℤ) × (range_start r ≡ ok r.start)
    × (range_delta r ≡ ok d)
    × (range_finish r ≡ ok f)
    × ((k : ℕ) × (steps k d r.start ≡ f))

range_of-Walks :
    (s f : ℤ) (t : RangeType) → has_start t ≡ true → s <ℤ pos (2 ^ 63 - 1) → Walks (range_of s f t)
unfolding range_start range_delta range_finish
range_of-Walks s f bounded h low = elim (Bool-cases (ltb_ℤ f s)) [
  | inl e ↦ (negsuc 0, f, refl, rw e refl, refl, reach_down s f e)
  | inr e ↦ (pos 1, f, refl, rw e refl, refl, reach_up s f e)
]
range_of-Walks s f bounded_left h low =
    (pos 1, pos (2 ^ 63 - 1 - 1), refl, refl, refl, reach_up s (pos (2 ^ 63 - 1 - 1)) (below s low))
range_of-Walks s f bounded_right h low = absurd (cc)
range_of-Walks s f unbounded h low = absurd (cc)

range_of-raised :
    (s f : ℤ) (t : RangeType)
    → has_start t ≡ false
    → (range_start (range_of s f t) ≡ stop raised) × (range_delta (range_of s f t) ≡ stop raised)
unfolding range_start range_delta
range_of-raised s f bounded h = absurd (cc)
range_of-raised s f bounded_left h = absurd (cc)
range_of-raised s f bounded_right h = (refl, refl)
range_of-raised s f unbounded h = (refl, refl)

-- Of a range with a lower bound below the largest int64, range_start, range_delta and range_finish
-- return a start, a step and an end such that a number of steps from the start meets the end
-- exactly; of a range without a lower bound, the first two raise.
pub range_walk :
    (r : Range)
    → r.start <ℤ pos (2 ^ 63 - 1)
    → (has_start r.type ≡ true → Walks r)
      × (has_start r.type ≡ false → (range_start r ≡ stop raised) × (range_delta r ≡ stop raised))
range_walk r low =
    (λ h. range_of-Walks r.start r.finish r.type h low, range_of-raised r.start r.finish r.type)
