-- ===== src/Vm/Format.antt =====
-- The format strings of vm/format.c. The values are strings already, or `none` where
-- `param_to_string` does not return one; the warnings on unused arguments are left out.
pub mod Parsing
pub mod Copying
pub mod Rendering
mod Tests
use ripe.Prelude.{
  ℕ, zero, suc, ◌+◌, ◌-◌, ◌*◌, ◌%◌, ◌^◌, Bool, true, false, ◌==◌, ◌&&◌, ◌||◌, ltb, leb, not,
  if◌then◌else◌, Option, none, some, List, [], ◌∷◌, ◌++◌, length, drop, set, replicate, min,
}
use ripe.Prelude.Int.{ℤ, pos, negsuc, ◌-ℤ◌}
use ripe.Prelude.Outcome.{
  Outcome, ok, stop, raised, null_pointer, out_of_bounds, out_of_fuel, at, put, ◌>>=◌,
}
use ripe.Prelude.Text.{split_at}
use ripe.Clib.StringBuf.{write_at, mem_strdup}

-- FORMAT_STRING and FORMAT_NUMBER
pub data FormatElement : Type 0 where
  string : List ℕ → FormatElement
  number : ℕ → FormatElement

pub is_empty : List ℕ → Bool
is_empty [] = true
is_empty (c ∷ s) = false

-- the first loop of `strip_whitespace`, from the end
pub strip_end : List ℕ → List ℕ
strip_end [] = []
strip_end (c ∷ s) = let rest = strip_end s in if c == 32 && is_empty rest then [] else c ∷ rest

-- the other two
pub strip_front : List ℕ → List ℕ
strip_front [] = []
strip_front (c ∷ s) = let rest = strip_front s in if c == 32 then rest else c ∷ s

pub strip_whitespace : List ℕ → List ℕ
strip_whitespace s = strip_front (strip_end s)

abbrev pub is_digit : ℕ → Bool
is_digit c = leb b'0' c && leb c b'9'

-- the value of a digit of strtol, 99 for other characters
pub digit : ℕ → ℕ
digit c =
    if is_digit c
    then c - b'0'
    else if leb b'a' c && leb c b'z'
    then c - b'a' + 10
    else if leb b'A' c && leb c b'Z'
    then c - b'A' + 10
    else 99

-- the number that the digits of a base make, and what follows them
pub digits : ℕ → ℕ → List ℕ → ℕ × List ℕ
digits base acc [] = (acc, [])
digits base acc (c ∷ s) =
    let rest = digits base (acc * base + digit c) s in
    if ltb (digit c) base then rest else (acc, c ∷ s)

-- `strtol` with base 0 on a text that begins with a digit, up to its limit
pub strtol_digits : List ℕ → ℕ × List ℕ
strtol_digits (c ∷ x ∷ h ∷ s) =
    if c == b'0'
    then (if (x == b'x' || x == b'X') && ltb (digit h) 16
        then digits 16 0 (h ∷ s)
        else digits 8 0 (c ∷ x ∷ h ∷ s))
    else digits 10 0 (c ∷ x ∷ h ∷ s)
strtol_digits (c ∷ s) = digits (if c == b'0' then 8 else 10) 0 (c ∷ s)
strtol_digits [] = (0, [])

pub strtol : List ℕ → ℕ × List ℕ
strtol s = let (n, rest) = strtol_digits s in (min n (2 ^ 63 - 1), rest)

-- `scan_until`: what stands before the first `c`, and the text from there on
pub scan_until : ℕ → List ℕ → List ℕ × List ℕ
scan_until c [] = ([], [])
scan_until c (x ∷ s) = let (a, b) = scan_until c s in if x == c then ([], x ∷ s) else (x ∷ a, b)

-- the element for `param_str`, with the next `autocounter`; `none` is an error
pub param_element : List ℕ → ℕ → Option (FormatElement × ℕ)
param_element [] auto = some (number auto, auto + 1)
param_element (c ∷ s) auto =
    let (n, rest) = strtol (c ∷ s) in
    if is_digit c
    then (if n == 0 || not (is_empty rest) then none else some (number n, auto))
    else if c == b'{'
    then some (string (b'{' ∷ []), auto)
    else if c == b'}'
    then some (string (b'}' ∷ []), auto)
    else none

abbrev pub push : FormatElement → Option (List FormatElement) → Option (List FormatElement)
push e none = none
push e (some es) = some (e ∷ es)

-- the loop of `format_parse`; `none` is the result 1
pub parse_from : ℕ → List ℕ → ℕ → Outcome (Option (List FormatElement))
parse_from zero cur auto = stop out_of_fuel
parse_from (suc fuel) [] auto = ok (some [])
parse_from (suc fuel) (c ∷ cur) auto = elim (c == b'{') [
  | true ↦ elim (split_at b'}' cur) [
    | none ↦ ok none
    | some (param, rest) ↦ elim (param_element (strip_whitespace param) auto) [
      | none ↦ ok none
      | some (e, auto') ↦ do es ← parse_from fuel rest auto'; ok (push e es)
    ]
  ]
  | false ↦ do
    let (str, rest) = scan_until b'{' (c ∷ cur)
    es ← parse_from fuel rest auto
    ok (push (string str) es)
]

pub format_parse : List ℕ → Outcome (Option (List FormatElement))
format_parse fstr = parse_from (length fstr + 1) fstr 1

-- an int64 as an int
pub to_int : ℕ → ℤ
to_int n = if ltb (n % 2 ^ 32) (2 ^ 31) then pos (n % 2 ^ 32) else negsuc (2 ^ 32 - 1 - n % 2 ^ 32)

module _ {ℓ} {V : Type ℓ} (param_to_string : V → Outcome (List ℕ)) where
  -- `strings[n]`, made when it is first needed
  pub string_of : List V → List (Option (List ℕ)) → ℕ → Outcome (List ℕ)
  string_of values strings n = do
    known ← at strings n
    elim known [ some s ↦ ok s | none ↦ do v ← at values n; param_to_string v ]

  -- the first loop over the elements: the strings of the arguments in use, and `out_len`
  pub measure :
      List V
      → List FormatElement
      → List (Option (List ℕ))
      → ℕ
      → Outcome (List (Option (List ℕ)) × ℕ)
  measure values [] strings out_len = ok (strings, out_len)
  measure values (string s ∷ es) strings out_len =
      measure values es strings ((out_len + length s) % 2 ^ 64)
  measure values (number k ∷ es) strings out_len = elim (to_int (k + 2 ^ 64 - 1)) [
    | negsuc n ↦ stop raised
    | pos n ↦ elim (ltb n (length values)) [
      | false ↦ stop raised
      | true ↦ do
        s ← string_of values strings n
        strings' ← put strings n (some s)
        measure values es strings' ((out_len + length s) % 2 ^ 64)
    ]
  ]

-- the string that an element stands for, in the second loop
pub piece : List (Option (List ℕ)) → FormatElement → Outcome (List ℕ)
piece strings (string s) = ok s
piece strings (number zero) = stop out_of_bounds
piece strings (number (suc n)) = do
  known ← at strings n
  elim known [ some s ↦ ok s | none ↦ stop null_pointer ]

-- the second loop, which copies into `out`
pub copy_pieces : List (Option (List ℕ)) → List FormatElement → List ℕ → ℕ → Outcome (List ℕ)
copy_pieces strings [] out out_len = ok out
copy_pieces strings (e ∷ es) out out_len = do
  s ← piece strings e
  out' ← write_at out out_len (s ++ 0 ∷ [])
  copy_pieces strings es out' ((out_len + length s) % 2 ^ 64)

-- `junk` is what a fresh byte of `out` holds
pub format_to_string {ℓ} :
    {V : Type ℓ} → (V → Outcome (List ℕ)) → ℕ → List ℕ → List V → Outcome (List ℕ)
format_to_string param_to_string junk fstr values = do
  parsed ← format_parse fstr
  elim parsed [
    | none ↦ stop raised
    | some es ↦ do
      (strings, out_len) ← measure param_to_string values es (replicate (length values) none) 1
      out ← copy_pieces strings es (replicate out_len junk) 0
      mem_strdup out
  ]
