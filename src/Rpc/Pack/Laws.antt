-- ===== src/Rpc/Pack/Laws.antt =====
-- What the parts of `pack` write.
use xmm7360_mvp.Prelude.{
  ℕ, zero, suc, ◌+◌, ◌-◌, ◌*◌, ◌/◌, ◌%◌, ◌^◌, ◌≤◌, ◌<◌, ◌≡◌, refl, ap, List, [], ◌∷◌, ◌++◌, arith,
  length, leb, ltb, ltb→lt, All, Bool-cases, inl, inr, ◌==◌,
}
use xmm7360_mvp.Prelude.Bits.{bit_and_byte}
use xmm7360_mvp.Result.{
  Result, ok, err, ◌>>=◌, Ensures, returned, raised, Ensures-after, assertion, Ensures-check,
  Ensures-intro, Ensures-if, Ensures-ok, Ensures-bind, struct,
}
use xmm7360_mvp.Bytes.{Bytes, IsByte, le_bytes, be_bytes, pack_le, pack_be}
use xmm7360_mvp.Rpc.Take.Laws.{asn}
use xmm7360_mvp.Rpc.Pack.{
  asn_int4, pack_items, valid_loop, to_bytes, valid_field, pack_counts, pack_int, Arg, take_digits,
  is_digit, int_of_digits, bytes_arg, native_size, field_type_of, pack_string, pack_typed,
  pack_char,
}

pub pack_be-Ensures : (w n : ℕ) → Ensures (λ b. (b ≡ be_bytes w n) × (n < 256 ^ w)) (pack_be w n)
unfolding pack_be
pack_be-Ensures w n = Ensures-check (ltb n (256 ^ w)) struct (λ h. returned (refl, ltb→lt _ _ h))

pub pack_le-Ensures : (w n : ℕ) → Ensures (λ b. (b ≡ le_bytes w n) × (n < 256 ^ w)) (pack_le w n)
unfolding pack_le
pack_le-Ensures w n = Ensures-check (ltb n (256 ^ w)) struct (λ h. returned (refl, ltb→lt _ _ h))

pub asn_int4-Ensures : (n : ℕ) → Ensures (λ b. (b ≡ asn n) × (n < 256 ^ 4)) (asn_int4 n)
unfolding asn_int4
asn_int4-Ensures n =
    Ensures-bind (pack_be-Ensures 4 n) λ b (e, h). returned (ap (λ bs. 0x02 ∷ 0x04 ∷ bs) e, h)

pub pack_counts-Ensures :
    (c p : ℕ)
    → Ensures (λ b. (b ≡ asn c ++ asn p) × (c < 256 ^ 4) × (p < 256 ^ 4)) (pack_counts c p)
unfolding pack_counts
pack_counts-Ensures c p =
    Ensures-bind (asn_int4-Ensures c)
      λ b (e, h). Ensures-bind (asn_int4-Ensures p) λ b' (e', h'). returned (rw (e, e') refl, h, h')

-- Items of one byte are packed as they are.
pub pack_items-Ensures : (xs : List ℕ) → Ensures (λ b. (b ≡ xs) × All IsByte xs) (pack_items 1 xs)
unfolding pack_items
pack_items-Ensures [] = returned (refl, tt)
pack_items-Ensures (x ∷ xs) = Ensures-bind (pack_le-Ensures 1 x) λ b (e, h).
    Ensures-bind (pack_items-Ensures xs) λ b' (e', h'). returned (rw (e, e') (byte x xs h), (h, h'))
  where
    byte : (y : ℕ) (ys : List ℕ) → y < 256 ^ 1 → le_bytes 1 y ++ ys ≡ y ∷ ys
    byte y ys hy = unfold le_bytes in ap (λ z. z ∷ ys) (omega arith)

-- The number of elements: a single byte, or the bytes of the number with the highest first.
pub valid_field_short : (n : ℕ) → n < 128 → valid_field n ≡ ok (n ∷ [])
unfolding valid_field pack_le le_bytes
valid_field_short n h = ground arith

valid_loop_zero :
    (fuel first m : ℕ) (rest : Bytes) → m ≡ 0 → valid_loop fuel m first rest ≡ ok (first ∷ rest)
unfolding valid_loop
valid_loop_zero fuel first m rest e = rw e refl

valid_loop_step :
    (fuel first m : ℕ) (rest : Bytes)
    → 0 < m
    → valid_loop (suc fuel) m first rest ≡ valid_loop fuel (m / 256) (first + 1) ((m % 256) ∷ rest)
unfolding valid_loop
valid_loop_step fuel first zero rest h = absurd (omega arith)
valid_loop_step fuel first (suc m) rest h = rw (← bit_and_byte (suc m)) refl

pub valid_field_one : (n : ℕ) → 128 ≤ n → n < 256 → valid_field n ≡ ok (0x81 ∷ n ∷ [])
unfolding valid_field to_bytes
valid_field_one n h h' = ground (
  arith,
  valid_loop_step (n - 1) 0x80 n [],
  valid_loop_zero (n - 1) 0x81 (n / 256) ((n % 256) ∷ []),
)

pub valid_field_two :
    (n : ℕ) → 256 ≤ n → n < 256 * 256 → valid_field n ≡ ok (0x82 ∷ (n / 256) ∷ (n % 256) ∷ [])
unfolding valid_field to_bytes
valid_field_two n h h' = ground (
  arith,
  valid_loop_step (n - 1) 0x80 n [],
  valid_loop_step (n - 2) 0x81 (n / 256) ((n % 256) ∷ []),
  valid_loop_zero (n - 2) 0x82 (n / 256 / 256) ((n / 256 % 256) ∷ (n % 256) ∷ []),
)

-- `pack` takes characters off the front of the format only.
take_digits-append : (fmt : List ℕ) → fmt ≡ (take_digits fmt).0 ++ (take_digits fmt).1
unfolding take_digits
take_digits-append [] = refl
take_digits-append (c ∷ fmt) = elim (Bool-cases (is_digit c)) [
  | inl digit ↦ rw digit (ap (λ cs. c ∷ cs) (take_digits-append fmt))
  | inr other ↦ rw other refl
]

abbrev SuffixOf : List ℕ → Bytes × List ℕ → Type 0
SuffixOf fmt (piece, fmt') = (front : List ℕ) × (fmt ≡ front ++ fmt')

pack_string-suffix :
    (val : Arg) (fmt : List ℕ) (t : ℕ) → Ensures (SuffixOf fmt) (pack_string val fmt t)
unfolding pack_string
pack_string-suffix val fmt t = Ensures-after (int_of_digits (take_digits fmt).0) λ len.
    Ensures-after (bytes_arg val) λ items. Ensures-check (leb (length items) len) assertion λ _.
      Ensures-after (native_size t) λ size. Ensures-after (field_type_of size) λ field_type.
        Ensures-after (pack_items size items) λ payload.
          Ensures-after (valid_field (length items)) λ vb.
            Ensures-after (pack_counts (len * size) ((len - length items) * size))
              λ counts. returned ((take_digits fmt).0, take_digits-append fmt)

pack_typed-suffix : (arg : Arg) (fmt : List ℕ) → Ensures (SuffixOf fmt) (pack_typed arg fmt)
unfolding pack_typed
pack_typed-suffix arg [] = raised
pack_typed-suffix arg (t ∷ fmt) = Ensures-intro (pack_string arg fmt t) λ out e.
    let (front, split) = Ensures-ok (pack_string-suffix arg fmt t) e in
    (t ∷ front, ap (λ cs. t ∷ cs) split)

unchanged : (fmt : List ℕ) (r : Result Bytes) → Ensures (SuffixOf fmt) (r >>= λ b. ok (b, fmt))
unchanged fmt (ok b) = returned ([], refl)
unchanged fmt (err e) = raised

pub pack_char-suffix :
    (ch : ℕ) (arg : Arg) (fmt : List ℕ) → Ensures (SuffixOf fmt) (pack_char ch arg fmt)
unfolding pack_char
pack_char-suffix ch arg fmt =
    Ensures-if (ch == b'B') (λ _. unchanged fmt (pack_int 1 arg))
      λ _.
        Ensures-if (ch == b'H') (λ _. unchanged fmt (pack_int 2 arg))
          λ _.
            Ensures-if (ch == b'L') (λ _. unchanged fmt (pack_int 4 arg))
              λ _.
                Ensures-if (ch == b's') (λ _. pack_string-suffix arg fmt b'B')
                  λ _. Ensures-if (ch == b'S') (λ _. pack_typed-suffix arg fmt) λ _. raised
