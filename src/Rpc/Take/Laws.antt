-- ===== src/Rpc/Take/Laws.antt =====
-- The decoder on input of a known shape.
use xmm7360_mvp.Prelude.{
  ℕ, ◌+◌, ◌*◌, ◌^◌, ◌<◌, ◌≡◌, refl, ◌∙◌, [], ◌∷◌, ◌++◌, append_assoc, arith, length, length-append,
  ==_iff, take, take-append, All, ◌==◌, ◌||◌, true,
}
use xmm7360_mvp.Prelude.Bits.{bit_or_shifted, bit_or_above, zero-bit_or, bit_and_high}
use xmm7360_mvp.Result.{ok, ◌>>=◌, ◌>>◌, check, assertion}
use xmm7360_mvp.Bytes.{Bytes, IsByte, be_bytes, from_be_acc}
use xmm7360_mvp.Bytes.Laws.{length-be_bytes, be_bytes-IsByte, from_be-be_bytes}
use xmm7360_mvp.Rpc.Take.{
  is_string_type, pop_many, take_int_loop, take_asn_int, take_valid, take_string, scale_valid,
}

-- The loop of `take_asn_int` reads a big-endian number, of any width.
pub take_int_loop-append :
    (bs : Bytes) (val : ℕ) (rest : Bytes)
    → All IsByte bs
    → take_int_loop (length bs) val (bs ++ rest) ≡ ok (from_be_acc val bs, rest)
unfolding take_int_loop from_be_acc
take_int_loop-append [] val rest h = refl
take_int_loop-append (b ∷ bs) val rest (hb, hbs) =
    rw (bit_or_shifted 8 val b hb) (take_int_loop-append bs (val * 256 + b) rest hbs)

-- `take_asn_int` on any length byte and that many bytes.
pub take_asn_int-append :
    (bs rest : Bytes)
    → All IsByte bs
    → take_asn_int (0x02 ∷ length bs ∷ (bs ++ rest)) ≡ ok (from_be_acc 0 bs, rest)
unfolding take_asn_int
take_asn_int-append bs rest h = take_int_loop-append bs 0 rest h

pub take_asn_int-be_bytes :
    (w n : ℕ) (rest : Bytes)
    → n < 256 ^ w
    → take_asn_int (0x02 ∷ w ∷ (be_bytes w n ++ rest)) ≡ ok (n, rest)
take_asn_int-be_bytes w n rest h =
    let e = take_asn_int-append (be_bytes w n) rest (be_bytes-IsByte w n) in
    rw (length-be_bytes w n, from_be-be_bytes w n h) at e

pub pop_many-append : (xs rest : Bytes) → pop_many (length xs) (xs ++ rest) ≡ ok rest
unfolding pop_many
pop_many-append [] rest = refl
pop_many-append (x ∷ xs) rest = pop_many-append xs rest

-- The number of elements in one byte, in a byte behind 0x81, and in two bytes behind 0x82, where
-- the first byte read is the lower one.
pub take_valid_short : (n : ℕ) (rest : Bytes) → n < 128 → take_valid (n ∷ rest) ≡ ok (n, rest)
unfolding take_valid
take_valid_short n rest h = rw (bit_and_high n (omega arith)) (ground arith)

pub take_valid_one : (n : ℕ) (rest : Bytes) → take_valid (0x81 ∷ n ∷ rest) ≡ ok (n, rest)
unfolding take_valid
take_valid_one n rest = rw (zero-bit_or (n * 1)) (ground arith)

pub take_valid_two :
    (lo hi : ℕ) (rest : Bytes)
    → lo < 256
    → take_valid (0x82 ∷ lo ∷ hi ∷ rest) ≡ ok (lo + 256 * hi, rest)
unfolding take_valid
take_valid_two lo hi rest h =
    rw (zero-bit_or (lo * 1)) (rw (bit_or_above 8 (lo * 1) hi (omega arith)) (ground arith))

-- `count` and `padding` as `pack` writes them.
abbrev pub asn : ℕ → Bytes
asn n = 0x02 ∷ 0x04 ∷ be_bytes 4 n

-- A string whose element count is in `valid_bytes`, on every element type.
module _ (t n : ℕ) (valid_bytes payload : Bytes) (count padding : ℕ) (tail rest : Bytes)
    (reads : (more : Bytes) → take_valid (valid_bytes ++ more) ≡ ok (n, more))
    (small_count : count < 256 ^ 4) (small_padding : padding < 256 ^ 4) where
  -- The decoder goes on behind the two counts with the payload in front of it.
  pub take_string_head :
      is_string_type t ≡ true
      → take_string (t ∷ (valid_bytes ++ (asn count ++ (asn padding ++ tail)))) ≡ (
          check (count == 0 || count == scale_valid t n + padding) assertion
          >> (pop_many (scale_valid t n + padding) tail >>= λ left.
              ok (take (scale_valid t n) tail, left)))
  unfolding take_string
  take_string_head ht = rw ht (
      rw (reads (asn count ++ (asn padding ++ tail))) (
        rw (take_asn_int-be_bytes 4 count (asn padding ++ tail) small_count)
          (rw (take_asn_int-be_bytes 4 padding tail small_padding) refl)))

-- The whole string: the payload comes back, and the padding is skipped.
pub take_string_lem :
    (t n : ℕ) (valid_bytes payload pad : Bytes) (count : ℕ) (rest : Bytes)
    → ((more : Bytes) → take_valid (valid_bytes ++ more) ≡ ok (n, more))
    → is_string_type t ≡ true
    → scale_valid t n ≡ length payload
    → count < 256 ^ 4
    → length pad < 256 ^ 4
    → count ≡ length payload + length pad
    → take_string
        (t ∷ (valid_bytes ++ (asn count ++ (asn (length pad) ++ (payload ++ (pad ++ rest))))))
      ≡ ok (payload, rest)
take_string_lem t n valid_bytes payload pad count rest reads ht scaled hc hp total =
    take_string_head t n valid_bytes payload count (length pad) (payload ++ (pad ++ rest)) rest
      reads hc hp ht
    ∙ rw (scaled, (==_iff count (length payload + length pad)).1 total)
        (rw popped (rw (take-append payload (pad ++ rest)) (ground arith)))
  where
    popped : pop_many (length payload + length pad) (payload ++ (pad ++ rest)) ≡ ok rest
    popped = rw (length-append, append_assoc) at (pop_many-append (payload ++ pad) rest)
