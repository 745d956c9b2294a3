-- ===== src/Vm/Index.antt =====
-- How the runtime turns indices and ranges of Ripe, which count from 1 and from -1 backwards, into
-- indices of C arrays: vm/util.c, with the ranges of vm/builtin/Range.c.
pub mod Bounds
pub mod Ranges
mod Tests
use ripe.Prelude.{ℕ, ◌+◌, ◌-◌, ◌^◌, Bool, true, false, not, if◌then◌else◌}
use ripe.Prelude.Int.{ℤ, pos, negsuc, ◌+ℤ◌, ◌-ℤ◌, ltb_ℤ, eqb_ℤ, wrap}
use ripe.Prelude.Outcome.{Outcome, ok, stop, raised, ◌>>=◌}

-- `klass_name` only goes into the text of the exception
unfoldable pub util_index : ℤ → ℤ → Outcome ℤ
util_index idx size =
    if ltb_ℤ (pos 0) idx
    then (if ltb_ℤ size idx then stop raised else ok (wrap (idx -ℤ pos 1)))
    else if eqb_ℤ idx (pos 0)
    then stop raised
    else if ltb_ℤ idx (wrap (pos 0 -ℤ size))
    then stop raised
    else ok (wrap (size +ℤ idx))

-- RANGE_BOUNDED, RANGE_BOUNDED_LEFT, RANGE_BOUNDED_RIGHT, RANGE_UNBOUNDED
pub data RangeType : Type 0 where
  bounded bounded_left bounded_right unbounded : RangeType

pub record Range : Type 0 where
  pub start : ℤ
  pub finish : ℤ
  pub type : RangeType

-- what goes through the pointers `start` and `finish`
pub util_index_range : Range → ℤ → Outcome (ℤ × ℤ)
util_index_range range size = elim range.type [
  | bounded ↦ do s ← util_index range.start size; f ← util_index range.finish size; ok (s, f)
  | bounded_left ↦ do s ← util_index range.start size; ok (s, wrap (size -ℤ pos 1))
  | bounded_right ↦ do f ← util_index range.finish size; ok (pos 0, f)
  | unbounded ↦ ok (pos 0, wrap (size -ℤ pos 1))
]

pub range_to_val : RangeType → ℤ → ℤ → Range
range_to_val type start finish = record { start = start; finish = finish; type = type }

pub range_start : Range → Outcome ℤ
range_start r = elim r.type [
  | bounded ↦ ok r.start
  | bounded_left ↦ ok r.start
  | bounded_right ↦ stop raised
  | unbounded ↦ stop raised
]

pub range_delta : Range → Outcome ℤ
range_delta r = elim r.type [
  | bounded ↦ if not (ltb_ℤ r.finish r.start) then ok (pos 1) else ok (negsuc 0)
  | bounded_left ↦ ok (pos 1)
  | bounded_right ↦ stop raised
  | unbounded ↦ stop raised
]

pub range_finish : Range → Outcome ℤ
range_finish r = elim r.type [
  | bounded ↦ ok r.finish
  | bounded_left ↦ ok (pos (2 ^ 63 - 1 - 1))
  | bounded_right ↦ ok r.finish
  | unbounded ↦ stop raised
]
