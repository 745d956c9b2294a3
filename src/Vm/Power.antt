-- ===== src/Vm/Power.antt =====
-- ipow of vm/ops.c, the power of two Integers, on the words of its numbers: `out` is an int, of 32
-- bits, and `b` an int64. The exponent is not negative, since op_exp takes those to doubles.
pub mod Squares
mod Tests
use ripe.Prelude.{
  ℕ, zero, suc, ◌+◌, ◌-◌, ◌*◌, ◌/◌, ◌%◌, ◌^◌, Bool, true, false, ◌==◌, ltb, if◌then◌else◌,
}
use ripe.Prelude.Int.{ℤ, pos, negsuc, to_word}

-- the loop, with rounds left; 64 are enough for an int64
pub ipow_from : ℕ → ℕ → ℕ → ℕ → ℕ
ipow_from zero out b e = out
ipow_from (suc rounds) out b e =
    let out' = if e % 2 == 1 then out * b % 2 ^ 32 else out in
    let rest = ipow_from rounds out' (b * b % 2 ^ 64) (e / 2) in if e == 0 then out else rest

-- the conversion of an int to int64
abbrev pub of_int : ℕ → ℤ
of_int w = if ltb w (2 ^ 31) then pos w else negsuc (2 ^ 32 - 1 - w)

pub ipow : ℤ → ℕ → ℤ
ipow b e = of_int (ipow_from 64 1 (to_word b) e)
