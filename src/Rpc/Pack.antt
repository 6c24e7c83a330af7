-- ===== src/Rpc/Pack.antt =====
-- The encoder of rpc.py: `asn_int4`, `pack` and `_pack_string`. A format is the list of its
-- characters, which are ASCII. `struct` runs in native mode on a little-endian machine whose `L`
-- is eight bytes wide; of its element types the unsigned ones are modelled, `B H I L Q`.
pub mod Laws
pub mod Long
pub mod Ends
pub mod RoundTrip
pub mod Types
use xmm7360_mvp.Prelude.{
  ℕ, zero, suc, ◌+◌, ◌-◌, ◌*◌, ◌/◌, ◌^◌, bit_and, Bool, ◌&&◌, ◌||◌, List, [], ◌∷◌, ◌++◌, ltb, leb,
  ◌==◌, length, replicate, if◌then◌else◌,
}
use xmm7360_mvp.Result.{
  Result, ok, err, ◌>>=◌, ◌>>◌, check, assertion, index, value, struct, key, type, out_of_fuel,
}
use xmm7360_mvp.Bytes.{Bytes, pack_le, pack_be}

-- `b'\x02\x04' + struct.pack('>L', val)`
unfoldable pub asn_int4 : ℕ → Result Bytes
unfolding pack_be
asn_int4 val = do b ← pack_be 4 val; ok (0x02 ∷ 0x04 ∷ b)

-- An argument of `pack`: an int that is not negative, or a bytes object.
pub data Arg : Type 0 where
  int : ℕ → Arg
  bytes : Bytes → Arg

-- `struct.pack` refuses a bytes object, `len` and `*val` an int.
abbrev pub int_arg : Arg → Result ℕ
int_arg (int n) = ok n
int_arg (bytes s) = err struct

abbrev pub bytes_arg : Arg → Result Bytes
bytes_arg (int n) = err type
bytes_arg (bytes s) = ok s

abbrev pub is_digit : ℕ → Bool
is_digit c = leb b'0' c && leb c b'9'

-- `while len(fmt) and fmt[0].isdigit(): length_str += fmt.pop(0)`: the digits and what follows.
unfoldable pub take_digits : List ℕ → List ℕ × List ℕ
take_digits [] = ([], [])
take_digits (c ∷ fmt) =
    let (ds, rest) = take_digits fmt in if is_digit c then (c ∷ ds, rest) else ([], c ∷ fmt)

unfoldable pub decimal : ℕ → List ℕ → ℕ
decimal acc [] = acc
decimal acc (d ∷ ds) = decimal (acc * 10 + (d - b'0')) ds

-- `int(length_str)`: the empty text is a ValueError.
unfoldable pub int_of_digits : List ℕ → Result ℕ
unfolding decimal
int_of_digits [] = err value
int_of_digits (d ∷ ds) = ok (decimal 0 (d ∷ ds))

-- `len(struct.pack(elem_type, 0))`
unfoldable pub native_size : ℕ → Result ℕ
native_size t =
    if t == b'B'
    then ok 1
    else if t == b'H'
    then ok 2
    else if t == b'I'
    then ok 4
    else if t == b'L' || t == b'Q'
    then ok 8
    else err struct

-- `{1: 0x55, 2: 0x56, 4: 0x57}[elem_size]`
unfoldable pub field_type_of : ℕ → Result ℕ
field_type_of size =
    if size == 1
    then ok 0x55
    else if size == 2
    then ok 0x56
    else if size == 4
    then ok 0x57
    else err key

-- `struct.pack('%d%s' % (valid, elem_type), *val)`
unfoldable pub pack_items : ℕ → List ℕ → Result Bytes
unfolding pack_le
pack_items size [] = ok []
pack_items size (x ∷ xs) = do b ← pack_le size x; rest ← pack_items size xs; ok (b ++ rest)

-- `while remain > 0`: the count in the first byte goes up, and each further byte is put in front
-- of the earlier ones, so the highest stands first.
unfoldable pub valid_loop : ℕ → ℕ → ℕ → Bytes → Result Bytes
valid_loop fuel zero first rest = ok (first ∷ rest)
valid_loop zero (suc n) first rest = err out_of_fuel
valid_loop (suc fuel) (suc n) first rest =
    valid_loop fuel (suc n / 2 ^ 8) (first + 1) (bit_and (suc n) 0xff ∷ rest)

-- `bytes(valid_field)` of a list refuses what is no byte.
unfoldable pub to_bytes : List ℕ → Result Bytes
to_bytes [] = ok []
to_bytes (b ∷ bs) = do check (ltb b 256) value; rest ← to_bytes bs; ok (b ∷ rest)

unfoldable pub valid_field : ℕ → Result Bytes
unfolding valid_loop to_bytes pack_le
valid_field valid =
    if ltb valid 128
    then pack_le 1 valid
    else (do field ← valid_loop valid valid 0x80 []; to_bytes field)

-- `pack('LL', count, padding)`
unfoldable pub pack_counts : ℕ → ℕ → Result Bytes
unfolding asn_int4
pack_counts count padding = do c ← asn_int4 count; p ← asn_int4 padding; ok (c ++ p)

-- The bytes, and the format that is left.
unfoldable pub pack_string : Arg → List ℕ → ℕ → Result (Bytes × List ℕ)
unfolding take_digits int_of_digits native_size field_type_of pack_items valid_field pack_counts
pack_string val fmt elem_type = do
  let split = take_digits fmt
  len ← int_of_digits split.0
  items ← bytes_arg val
  let valid = length items
  check (leb valid len) assertion
  elem_size ← native_size elem_type
  field_type ← field_type_of elem_size
  payload ← pack_items elem_size items
  let count = len * elem_size
  let padding = (len - valid) * elem_size
  valid_bytes ← valid_field valid
  counts ← pack_counts count padding
  ok (field_type ∷ (valid_bytes ++ (counts ++ (payload ++ replicate padding 0))), split.1)

-- `b'\x02' + bytes([w]) + struct.pack(…, arg)` for a number of `w` bytes.
unfoldable pub pack_int : ℕ → Arg → Result Bytes
unfolding pack_be
pack_int w arg = do n ← int_arg arg; b ← pack_be w n; ok (0x02 ∷ w ∷ b)

-- `elem_type = fmt.pop(0)`
unfoldable pub pack_typed : Arg → List ℕ → Result (Bytes × List ℕ)
unfolding pack_string
pack_typed arg [] = err index
pack_typed arg (elem_type ∷ fmt) = pack_string arg fmt elem_type

-- One round of `pack` for the character `ch`, the rest of the format behind it.
unfoldable pub pack_char : ℕ → Arg → List ℕ → Result (Bytes × List ℕ)
unfolding pack_int pack_string pack_typed
pack_char ch arg fmt =
    if ch == b'B'
    then (do b ← pack_int 1 arg; ok (b, fmt))
    else if ch == b'H'
    then (do b ← pack_int 2 arg; ok (b, fmt))
    else if ch == b'L'
    then (do b ← pack_int 4 arg; ok (b, fmt))
    else if ch == b's'
    then pack_string arg fmt b'B'
    else if ch == b'S'
    then pack_typed arg fmt
    else err value

-- `while len(fmt)`, with fuel. Arguments that are left over are refused behind the loop.
unfoldable pub pack_loop : ℕ → List ℕ → List Arg → Result Bytes
unfolding pack_char
pack_loop fuel [] [] = ok []
pack_loop fuel [] (arg ∷ args) = err value
pack_loop zero (ch ∷ fmt) args = err out_of_fuel
pack_loop (suc fuel) (ch ∷ fmt) [] = err index
pack_loop (suc fuel) (ch ∷ fmt) (arg ∷ args) = do
  (piece, fmt') ← pack_char ch arg fmt
  rest ← pack_loop fuel fmt' args
  ok (piece ++ rest)

-- Each round pops a character at least.
unfoldable pub pack : List ℕ → List Arg → Result Bytes
unfolding pack_loop
pack fmt args = pack_loop (length fmt) fmt args
