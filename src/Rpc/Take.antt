-- ===== src/Rpc/Take.antt =====
-- The decoder of rpc.py: `take_asn_int`, `take_string`, `unpack_unknown` and `unpack`. The
-- functions of the source pop bytes off the front of one bytearray; here each returns what it
-- read with the bytes that are left.
pub mod Laws
pub mod Reads
pub mod Ends
pub mod Agree
use xmm7360_mvp.Prelude.{
  ℕ, zero, suc, ◌+◌, ◌*◌, ◌^◌, bit_and, bit_or, Bool, ◌||◌, List, [], ◌∷◌, ◌==◌, length, take,
  if◌then◌else◌,
}
use xmm7360_mvp.Result.{Result, ok, err, ◌>>=◌, ◌>>◌, check, assertion, index, value, out_of_fuel}
use xmm7360_mvp.Bytes.{Bytes}

-- What `unpack_unknown` puts into its list: an int, or a slice of the bytearray.
pub data Field : Type 0 where
  num : ℕ → Field
  str : Bytes → Field

-- `data.pop(0)`
unfoldable pub pop : Bytes → Result (ℕ × Bytes)
pop [] = err index
pop (b ∷ bs) = ok (b, bs)

-- `for i in range(n): data.pop(0)`
unfoldable pub pop_many : ℕ → Bytes → Result Bytes
unfolding pop
pop_many zero bytes = ok bytes
pop_many (suc n) bytes = do (_, rest) ← pop bytes; pop_many n rest

-- The loop of `take_asn_int` with `n` rounds to go: `val <<= 8; val |= data.pop(0)`.
unfoldable pub take_int_loop : ℕ → ℕ → Bytes → Result (ℕ × Bytes)
unfolding pop
take_int_loop zero val bytes = ok (val, bytes)
take_int_loop (suc n) val bytes = do
  (b, rest) ← pop bytes
  take_int_loop n (bit_or (val * 2 ^ 8) b) rest

unfoldable pub take_asn_int : Bytes → Result (ℕ × Bytes)
unfolding pop take_int_loop
take_asn_int bytes = do
  (t, bytes₁) ← pop bytes
  check (t == 0x02) assertion
  (l_data, bytes₂) ← pop bytes₁
  take_int_loop l_data 0 bytes₂

-- `t in [0x55, 0x56, 0x57]`
abbrev pub is_string_type : ℕ → Bool
is_string_type t = t == 0x55 || (t == 0x56 || t == 0x57)

-- `for byte in range(n): value |= data.pop(0) << (byte * 8)`, from round `byte` on.
unfoldable pub length_loop : ℕ → ℕ → ℕ → Bytes → Result (ℕ × Bytes)
unfolding pop
length_loop zero byte val bytes = ok (val, bytes)
length_loop (suc n) byte val bytes = do
  (b, rest) ← pop bytes
  length_loop n (byte + 1) (bit_or val (b * 2 ^ (byte * 8))) rest

-- The number of elements: one byte, or with the top bit set that many bytes more.
unfoldable pub take_valid : Bytes → Result (ℕ × Bytes)
unfolding pop length_loop
take_valid bytes = do
  (valid, rest) ← pop bytes
  if bit_and valid 0x80 == 0 then ok (valid, rest) else length_loop (bit_and valid 0xf) 0 0 rest

-- `valid <<= 1` for elements of two bytes, `valid <<= 2` for elements of four.
abbrev pub scale_valid : ℕ → ℕ → ℕ
scale_valid t valid = if t == 0x56 then valid * 2 else if t == 0x57 then valid * 4 else valid

unfoldable pub take_string : Bytes → Result (Bytes × Bytes)
unfolding pop pop_many take_valid take_asn_int
take_string bytes = do
  (t, bytes₁) ← pop bytes
  check (is_string_type t) assertion
  (n, bytes₂) ← take_valid bytes₁
  let valid = scale_valid t n
  (count, bytes₃) ← take_asn_int bytes₂
  (padding, bytes₄) ← take_asn_int bytes₃
  check (count == 0 || count == valid + padding) assertion
  bytes₅ ← pop_many (valid + padding) bytes₄
  ok (take valid bytes₄, bytes₅)

-- One round of `unpack_unknown`, on an input that begins with `t`.
unfoldable pub take_field : ℕ → Bytes → Result (Field × Bytes)
unfolding take_asn_int take_string
take_field t bytes =
    if t == 0x02
    then (do (n, rest) ← take_asn_int bytes; ok (num n, rest))
    else if is_string_type t
    then (do (s, rest) ← take_string bytes; ok (str s, rest))
    else err value

-- `while len(data)`, with fuel.
unfoldable pub unknown_loop : ℕ → Bytes → Result (List Field)
unfolding take_field
unknown_loop fuel [] = ok []
unknown_loop zero (t ∷ bytes) = err out_of_fuel
unknown_loop (suc fuel) (t ∷ bytes) = do
  (field, rest) ← take_field t (t ∷ bytes)
  fields ← unknown_loop fuel rest
  ok (field ∷ fields)

-- Each round pops a byte at least.
unfoldable pub unpack_unknown : Bytes → Result (List Field)
unfolding unknown_loop
unpack_unknown bytes = unknown_loop (length bytes) bytes

-- One round of `unpack`.
unfoldable pub take_char : ℕ → Bytes → Result (Field × Bytes)
unfolding take_asn_int take_string
take_char ch bytes =
    if ch == b'n'
    then (do (n, rest) ← take_asn_int bytes; ok (num n, rest))
    else if ch == b's'
    then (do (s, rest) ← take_string bytes; ok (str s, rest))
    else err value

-- `for ch in fmt`; what the format does not reach is left unread.
unfoldable pub unpack : List ℕ → Bytes → Result (List Field)
unfolding take_char
unpack [] bytes = ok []
unpack (ch ∷ fmt) bytes = do
  (field, rest) ← take_char ch bytes
  fields ← unpack fmt rest
  ok (field ∷ fields)
