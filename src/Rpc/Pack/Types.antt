-- ===== src/Rpc/Pack/Types.antt =====
-- About the bytes that the encoder returns.
use xmm7360_mvp.Prelude.{
  ℕ, zero, suc, ◌-◌, ◌*◌, ◌^◌, ◌<◌, List, [], ◌∷◌, ◌++◌, arith, length, replicate, All, All-append,
  ◌==◌, ltb, ltb→lt, leb,
}
use xmm7360_mvp.Result.{
  ok, ◌>>=◌, assertion, value, struct, Ensures, returned, raised, Ensures-if, Ensures-check,
  Ensures-bind, Ensures-after,
}
use xmm7360_mvp.Bytes.{Bytes, IsByte, pack_le, pack_be}
use xmm7360_mvp.Bytes.Laws.{le_bytes-IsByte, be_bytes-IsByte}
use xmm7360_mvp.Rpc.Pack.{
  Arg, asn_int4, int_arg, bytes_arg, take_digits, int_of_digits, native_size, field_type_of,
  pack_items, to_bytes, valid_field, pack_counts, pack_int, pack_string, pack_typed, pack_char,
  pack_loop, pack,
}

abbrev pub AreBytes : Bytes → Type 0
AreBytes bs = All IsByte bs

pub both : (xs ys : Bytes) → AreBytes xs → AreBytes ys → AreBytes (xs ++ ys)
both xs ys h k = All-append IsByte xs ys h k

zeros-IsByte : (n : ℕ) → AreBytes (replicate n 0)
zeros-IsByte zero = tt
zeros-IsByte (suc n) = (omega arith, zeros-IsByte n)

-- For a result that is bytes where it returns.
pub ruleset byte_rules =
    (returned, raised, Ensures-if, Ensures-check, Ensures-bind, Ensures-after, both, arith)

pub pack_le-IsByte : (w n : ℕ) → Ensures AreBytes (pack_le w n)
unfolding pack_le
pack_le-IsByte w n = search (byte_rules, le_bytes-IsByte)

pub pack_be-IsByte : (w n : ℕ) → Ensures AreBytes (pack_be w n)
unfolding pack_be
pack_be-IsByte w n = search (byte_rules, be_bytes-IsByte)

pub asn_int4-IsByte : (n : ℕ) → Ensures AreBytes (asn_int4 n)
unfolding asn_int4
asn_int4-IsByte n = search (byte_rules, pack_be-IsByte)

pack_counts-IsByte : (c p : ℕ) → Ensures AreBytes (pack_counts c p)
unfolding pack_counts
pack_counts-IsByte c p = search (byte_rules, asn_int4-IsByte)

pack_items-IsByte : (size : ℕ) (xs : List ℕ) → Ensures AreBytes (pack_items size xs)
unfolding pack_items
pack_items-IsByte size [] = returned tt
pack_items-IsByte size (x ∷ xs) =
    Ensures-bind (pack_le-IsByte size x)
      λ b h. Ensures-bind (pack_items-IsByte size xs) λ rest k. returned (both b rest h k)

to_bytes-IsByte : (xs : List ℕ) → Ensures AreBytes (to_bytes xs)
unfolding to_bytes
to_bytes-IsByte [] = returned tt
to_bytes-IsByte (x ∷ xs) = search (byte_rules, ltb→lt, to_bytes-IsByte xs)

valid_field-IsByte : (n : ℕ) → Ensures AreBytes (valid_field n)
unfolding valid_field
valid_field-IsByte n = search (byte_rules, pack_le-IsByte, to_bytes-IsByte)

field_type-IsByte : (size : ℕ) → Ensures IsByte (field_type_of size)
unfolding field_type_of
field_type-IsByte size = search byte_rules depth 8

-- One piece of the output, with the format that is left.
abbrev Piece : Bytes × List ℕ → Type 0
Piece (piece, fmt) = AreBytes piece

pack_string-IsByte : (val : Arg) (fmt : List ℕ) (t : ℕ) → Ensures Piece (pack_string val fmt t)
unfolding pack_string
pack_string-IsByte val fmt t = Ensures-after (int_of_digits (take_digits fmt).0) λ len.
    Ensures-after (bytes_arg val) λ items. Ensures-check (leb (length items) len) assertion λ _.
      Ensures-after (native_size t) λ size. Ensures-bind (field_type-IsByte size) λ typ small.
        Ensures-bind (pack_items-IsByte size items) λ payload hp.
          Ensures-bind (valid_field-IsByte (length items)) λ valid hv.
            let pad = (len - length items) * size in
            Ensures-bind (pack_counts-IsByte (len * size) pad) λ counts hc.
              let body = both payload (replicate pad 0) hp (zeros-IsByte pad) in
              returned (
                small,
                both valid (counts ++ (payload ++ replicate pad 0)) hv
                    (both counts (payload ++ replicate pad 0) hc body),
              )

pack_typed-IsByte : (arg : Arg) (fmt : List ℕ) → Ensures Piece (pack_typed arg fmt)
unfolding pack_typed
pack_typed-IsByte arg [] = raised
pack_typed-IsByte arg (t ∷ fmt) = pack_string-IsByte arg fmt t

pack_int-IsByte : (w : ℕ) (arg : Arg) → w < 256 → Ensures AreBytes (pack_int w arg)
unfolding pack_int
pack_int-IsByte w arg small =
    Ensures-after (int_arg arg)
      λ n. Ensures-bind (pack_be-IsByte w n) λ b h. returned (omega arith, (small, h))

number-IsByte :
    (w : ℕ) (arg : Arg) (fmt : List ℕ)
    → w < 256
    → Ensures Piece (pack_int w arg >>= λ b. ok (b, fmt))
number-IsByte w arg fmt small = Ensures-bind (pack_int-IsByte w arg small) λ b h. returned h

pack_char-IsByte : (ch : ℕ) (arg : Arg) (fmt : List ℕ) → Ensures Piece (pack_char ch arg fmt)
unfolding pack_char
pack_char-IsByte ch arg fmt =
    search (byte_rules, number-IsByte, pack_string-IsByte, pack_typed-IsByte) depth 8

pack_loop-IsByte :
    (fuel : ℕ) (fmt : List ℕ) (args : List Arg) → Ensures AreBytes (pack_loop fuel fmt args)
unfolding pack_loop
pack_loop-IsByte fuel [] [] = returned tt
pack_loop-IsByte fuel [] (arg ∷ args) = raised
pack_loop-IsByte zero (ch ∷ fmt) args = raised
pack_loop-IsByte (suc fuel) (ch ∷ fmt) [] = raised
pack_loop-IsByte (suc fuel) (ch ∷ fmt) (arg ∷ args) =
    Ensures-bind (pack_char-IsByte ch arg fmt) λ (piece, fmt') h.
      Ensures-bind (pack_loop-IsByte fuel fmt' args) λ rest k. returned (both piece rest h k)

pub pack-IsByte : (fmt : List ℕ) (args : List Arg) → Ensures AreBytes (pack fmt args)
unfolding pack
pack-IsByte fmt args = pack_loop-IsByte (length fmt) fmt args
