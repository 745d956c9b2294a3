-- ===== src/Vm/Value.antt =====
-- The packed values of vm/value_inline.c and the operators of vm/ops.c on Boolean and Integer
-- operands. A Value is a number below 2 ^ 64; a double is the number of its bit pattern, which the
-- union of the source reads.
pub mod Tags
pub mod Integers
mod Tests
use Prim.Native.Nat.{bit_and}
use ripe.Prelude.{
  ℕ, ◌+◌, ◌-◌, ◌*◌, ◌/◌, ◌%◌, ◌^◌, Bool, true, false, not, ◌&&◌, ◌||◌, ◌==◌, if◌then◌else◌,
}
use ripe.Prelude.Int.{ℤ, pos, negsuc, to_word, of_word, shift_right, wrap, ◌-ℤ◌}
use ripe.Prelude.Outcome.{Outcome, ok, stop, raised}

-- VALUE_NIL, VALUE_FALSE, VALUE_TRUE, VALUE_EOF
abbrev pub value_nil : ℕ
value_nil = 0x0

abbrev pub value_false : ℕ
value_false = 0x4

abbrev pub value_true : ℕ
value_true = 0x8

abbrev pub value_eof : ℕ
value_eof = 0xC

pub is_int64 : ℕ → Bool
is_int64 v = bit_and v 0x3 == 0x1

pub is_double : ℕ → Bool
is_double v = bit_and v 0x3 == 0x2

pub is_ptr : ℕ → Bool
is_ptr v = bit_and v 0x3 == 0x0 && not (bit_and v 0xF == v)

pub pack_double : ℕ → ℕ
pack_double d = (d - bit_and d 0x3 + 0x2) % 2 ^ 64

pub unpack_double : ℕ → ℕ
unpack_double v = (v + 2 ^ 64 - 0x2) % 2 ^ 64

pub pack_int64 : ℤ → ℕ
pack_int64 i = (to_word i * 2 ^ 2 % 2 ^ 64 + 0x1) % 2 ^ 64

pub unpack_int64 : ℕ → ℤ
unpack_int64 v = shift_right (of_word v) (2 ^ 2)

pub pack_ptr : ℕ → ℕ
pack_ptr p = p

pub unpack_ptr : ℕ → ℕ
unpack_ptr v = v

pub pack_bool : Bool → ℕ
pack_bool b = if b then value_true else value_false

pub unpack_bool : ℕ → Bool
unpack_bool v = if v == value_true then true else false

pub op_and : ℕ → ℕ → ℕ
op_and a b = pack_bool (a == value_true && b == value_true)

pub op_or : ℕ → ℕ → ℕ
op_or a b = pack_bool (a == value_true || b == value_true)

-- a `switch` on two constants, with the exception behind it
pub op_unary_not : ℕ → Outcome ℕ
op_unary_not v =
    if v == value_true
    then ok value_false
    else if v == value_false
    then ok value_true
    else stop raised

-- `-i` and `~i` of an int64
abbrev pub negate : ℤ → ℤ
negate i = wrap (pos 0 -ℤ i)

abbrev pub complement : ℤ → ℤ
complement (pos n) = negsuc n
complement (negsuc n) = pos n

-- `flip` is the negation of a double, on its bits
pub op_unary_minus : (ℕ → ℕ) → ℕ → Outcome ℕ
op_unary_minus flip v =
    if bit_and v 0x3 == 0x1
    then ok (pack_int64 (negate (unpack_int64 v)))
    else if bit_and v 0x3 == 0x2
    then ok (pack_double (flip (unpack_double v)))
    else stop raised

pub op_unary_bit_not : ℕ → Outcome ℕ
op_unary_bit_not v =
    if bit_and v 0x3 == 0x1 then ok (pack_int64 (complement (unpack_int64 v))) else stop raised
