-- ===== src/Lib.antt =====
-- A model of the runtime of Ripe, a dynamic language that is compiled to C, and of the parts of its
-- compiler that do not print C, with the properties that make them correct.
--
-- The program. clib/ is a library of C containers and text functions. vm/ is the runtime that
-- compiled programs are linked with: values packed in 64 bits, classes, operators, exceptions, and
-- the built-in classes of vm/builtin/. lang/ and ripe/ are the compiler, which writes C.
--
-- The files.
--   Prelude, Prelude/*       what the other files share: Boolean tests, lists, the integers with
--                            their words of 64 bits, outcomes, texts as lists of characters, and
--                            facts on the bits of small numbers.
--   Clib/Primes, */*         map_prime of clib/dict.c, the sizes of hash tables.
--   Clib/Probing, */*        the quadratic probes of hash tables and how many buckets they reach.
--   Clib/Dict, */*           Dict of clib/dict.c, the hash table of the compiler.
--   Clib/Utf8, */*           clib/utf8.c: utf8_read is read, utf8_write is write.
--   Clib/Array, */*          clib/array.c, the growing array of the compiler and the runtime.
--   Clib/Structs, */*        clib/structs.c, the simple array.
--   Clib/StringBuf, */*      clib/stringbuf.c, the string buffer, with strcpy, strlen, strcat and
--                            strncpy on bytes and mem_strdup of clib/mem.c.
--   Clib/Hash, */*           clib/hash.c with hash_string and hash_value of clib/clib.h.
--   Vm/Key                   what a hash table asks of op_hash and op_equal2 of vm/ops.c.
--   Vm/HashTable, */*        vm/builtin/HashTable.c, which Map and Set are made of. Functions keep
--                            their names; query and rehash are the static functions of that file.
--   Vm/Value, */*            vm/value_inline.c and the Boolean and unary operators of vm/ops.c.
--   Vm/Equality, */*         op_equal3 and op_hash of vm/ops.c, over values as trees with pointers.
--   Vm/Power, */*            ipow of vm/ops.c.
--   Vm/Index, */*            vm/util.c and vm/builtin/Range.c: indices and ranges.
--   Vm/Array1, */*           Array1 of vm/builtin/Arrays.c.
--   Vm/Grid, */*             the indices of Array2 and Array3 of vm/builtin/Arrays.c.
--   Vm/Format, */*           vm/format.c: format strings, parsed and filled in.
--   Vm/Stack, */*            vm/stack.c, the stack of annotations and exception handlers, with
--                            obj_eq_klass of vm/klass.c.
--   Lang/NodeType            the types of nodes and tokens of lang/lang.h.
--   Lang/Node, */*           lang/astnode.c, the nodes of syntax trees.
--   Lang/Layout, */*         lang/build-tree.c: the lexer that turns indentation into tokens.
--   Lang/Stacker, */*        lang/stacker.c: where break and continue lead.
--   Lang/Operators, */*      lang/operator.c: the functions for operators.
--   Lang/Names, */*          the names of lang/util.c: C names, dotted names, names of types.
--   Lang/Annotations, */*    the searches on annotations of lang/util.c.
--   Lang/Morph, */*          morph of lang/tree-morph.c, the interpolation of strings.
--   Lang/Var, */*            lang/var.c, the scopes of local variables.
--   Lang/Stran, */*          dump_methods of lang/stran.c, which writes a Dict of methods, with
--                            encode_string and encode_int of clib/util.c.
--
-- Array1 indexes through Vm/Index; the hash table sizes itself with Clib/Primes and takes its keys
-- from Vm/Key, of which Vm/Equality/Hashing makes an instance for values. Lang/Stacker keeps its
-- elements in the simple array; format strings and C names are made with the string functions of
-- Clib/StringBuf; operators, names and annotations read nodes of Lang/Node, and the interpolation of
-- strings makes nodes whose format strings Vm/Format reads. Lang/Var keeps each scope in a Dict,
-- and Lang/Stran iterates over one.
--
-- How C is modelled. A function returns an Outcome: a result, or why it stopped (a failed
-- assertion, a read or write outside an array, a NULL pointer, an exception). Assertions are those
-- of a debug build; without that choice build.py passes -DNDEBUG, which takes them out. An array is
-- a list, and each read and write of one checks its index, so that a theorem that a function returns
-- says that it stays inside its arrays. A function that changes a structure returns the changed one.
-- An int64 or uint64 keeps its wrap-around, written out as a remainder by 2 ^ 64. Memory is never
-- exhausted, and what mem_free frees is not read again.
--
-- Loops. Most loops recurse on the rounds that their own bound leaves or on what they read.
-- query_from runs over the size of the table, rehash_from over the old size, the loops of the
-- exception stack and of the stacker over its height, read_line over the tokens.
-- Six have fuel. ipow_from has 64 rounds: each halves the exponent, an int64. next_line has one
-- round more than there are tokens, and each round takes one; parse_from has one round more than the
-- format has characters, and each takes one; morph_from has one round more than the string has
-- characters, and each takes two; dump_from has one round more than there are buckets, and each
-- passes one. lex_all takes its fuel as an argument.
--
-- What the hash tables need. Less than half of the buckets are full and the number of buckets is a
-- prime: the quadratic probes then reach more than half of the buckets, as long as h + idx * idx
-- does not wrap, which NoWrap states of a hash. That is a condition on the keys, and the theorems
-- on Dict and HashTable state it of each key that is stored or asked for: strings and numbers of 32
-- bits meet it, and a number of 64 bits near 2 ^ 64, hashed by dict_hash_uint64, does not. The number
-- of buckets is at most 536870909, the last size that map_prime returns.
--
-- Not modelled: of clib/, the wrappers of the C library; of vm/, symbols, classes and objects,
-- strings, and what needs floating point; of lang/ and ripe/, the grammar, the walks over trees, the
-- static tables and the printing of C; and the modules, most of which are written in
-- Ripe itself.
pub mod Prelude
pub mod Clib
pub mod Lang
pub mod Vm
