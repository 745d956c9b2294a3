-- ===== src/Vm/Value/Tests.antt =====
-- Runs of the packed values and their operators, and the theorems at concrete values.
use ripe.Prelude.{◌-◌, ◌%◌, ◌^◌, ◌≡◌, refl, arith, true, false}
use ripe.Prelude.Int.{pos, negsuc, to_word}
use ripe.Prelude.Outcome.{ok, stop, raised}
use ripe.Vm.Value.{
  value_nil, value_eof, is_int64, is_double, is_ptr, pack_int64, unpack_int64, pack_double,
  unpack_double, pack_ptr, unpack_ptr, pack_bool, unpack_bool, op_and, op_or, op_unary_not,
  op_unary_minus, op_unary_bit_not,
}
use ripe.Vm.Value.Integers.{IsInt62, unpack_int64-pack_int64}
use ripe.Vm.Value.Tags.{HasTags, tags_lem}

program : Unit {0}
unfolding is_int64 is_double is_ptr pack_int64 unpack_int64 pack_double unpack_double pack_ptr
    unpack_ptr pack_bool unpack_bool op_and op_or op_unary_not op_unary_minus op_unary_bit_not
program = tt

minus_one : pack_int64 (negsuc 0) ≡ 2 ^ 64 - 3
unfolding program
minus_one = refl

-- 2 ^ 61 does not fit
too_large : unpack_int64 (pack_int64 (pos (2 ^ 61))) ≡ negsuc (2 ^ 61 - 1)
unfolding program
too_large = refl

no_pointers : (is_ptr value_nil ≡ false) × (is_ptr value_eof ≡ false)
unfolding program
no_pointers = (refl, refl)

not_boolean : op_unary_not value_nil ≡ stop raised
unfolding program
not_boolean = refl

unpack_int64-pack_int64_example :
    IsInt62 (unpack_int64 (pack_int64 (negsuc 6)))
    × (to_word (unpack_int64 (pack_int64 (negsuc 6))) % 2 ^ 62 ≡ to_word (negsuc 6) % 2 ^ 62)
    × (IsInt62 (negsuc 6) → unpack_int64 (pack_int64 (negsuc 6)) ≡ negsuc 6)
unpack_int64-pack_int64_example = unpack_int64-pack_int64 (negsuc 6)

tags_lem_example :
    HasTags true false false (pack_int64 (pos 7))
    × HasTags false true false (pack_double 0x3FF0000000000000)
    × HasTags false false true (pack_ptr 4096)
    × HasTags false false false (pack_bool true)
    × (unpack_double (pack_double 0x3FF0000000000000) ≡ 0x3FF0000000000000 - 0x3FF0000000000000 % 4)
    × (unpack_bool (pack_bool true) ≡ true)
    × (unpack_ptr (pack_ptr 4096) ≡ 4096)
tags_lem_example =
    tags_lem (pos 7) 0x3FF0000000000000 4096 true (omega arith) (omega arith) (omega arith)

connectives :
    (op_and (pack_bool true) (pack_bool false) ≡ pack_bool false)
    × (op_or (pack_bool true) (pack_bool false) ≡ pack_bool true)
    × (op_unary_not (pack_bool false) ≡ ok (pack_bool true))
unfolding program
connectives = (refl, refl, refl)
