-- ===== src/Rpc/Pack/RoundTrip.antt =====
-- About `pack` and `unpack_unknown` together, for strings of fewer than 256 elements.
use xmm7360_mvp.Prelude.{
  ℕ, zero, suc, ◌-◌, ◌*◌, ◌^◌, ◌≤◌, ◌<◌, ◌≡◌, ◌≢◌, refl, List, [], ◌∷◌, ◌++◌, append_assoc, arith,
  length, length-replicate, replicate, leb, leb→le, ◌==◌, ==_iff, map, All, All-suffix, Bool-cases,
  inl, inr,
}
use xmm7360_mvp.Result.{
  Result, ok, ◌>>=◌, assertion, Ensures, returned, raised, Ensures-ok, Ensures-check, Ensures-bind,
  Ensures-after, Ensures-if, Ensures-intro,
}
use xmm7360_mvp.Bytes.{Bytes}
use xmm7360_mvp.Rpc.Take.{
  Field, num, str, take_valid, take_field, take_string, unknown_loop, unpack_unknown,
}
use xmm7360_mvp.Rpc.Take.Reads.{Reads, unknown_loop-Reads, unknown_loop-nil}
use xmm7360_mvp.Rpc.Take.Laws.{
  asn, take_valid_short, take_valid_one, take_asn_int-be_bytes, take_string_lem,
}
use xmm7360_mvp.Rpc.Pack.{
  Arg, int, bytes, int_of_digits, take_digits, valid_field, pack_string, pack_int, pack_char,
  pack_loop, pack,
}
use xmm7360_mvp.Rpc.Pack.Laws.{
  pack_char-suffix, pack_be-Ensures, pack_items-Ensures, pack_counts-Ensures, valid_field_short,
  valid_field_one,
}

-- The field that an argument is read back as.
pub field_of : Arg → Field
field_of (int n) = num n
field_of (bytes s) = str s

-- A string whose number of elements takes one byte, or 0x81 and one byte.
abbrev pub IsShort : Arg → Type 0
IsShort (int n) = Unit
IsShort (bytes s) = length s < 256

-- The decoder reads back the number of elements that stands in these bytes.
abbrev ReadsValid : ℕ → Bytes → Type 0
ReadsValid n vb = (more : Bytes) → take_valid (vb ++ more) ≡ ok (n, more)

valid_field-Ensures : (n : ℕ) → n < 256 → Ensures (ReadsValid n) (valid_field n)
valid_field-Ensures n h = elim (Bool-cases (leb 128 n)) [
  | inl long ↦ rw (valid_field_one n (leb→le 128 n long) h) (returned (take_valid_one n))
  | inr short ↦
      let lt : n < 128 = ground arith in
      rw (valid_field_short n lt) (returned (λ more. take_valid_short n more lt))
]

module _ (xs vb : Bytes) (len : ℕ) (fits : length xs ≤ len) (small : len < 256 ^ 4)
    (reads : ReadsValid (length xs) vb) where
  abbrev padding : Bytes
  padding = replicate (len - length xs) 0

  take_string_padded :
      (rest : Bytes)
      → take_string
          (0x55 ∷ (vb ++ (asn len ++ (asn (len - length xs) ++ (xs ++ (padding ++ rest))))))
        ≡ ok (xs, rest)
  take_string_padded rest =
      let e = length-replicate {A = ℕ} (len - length xs) 0 in
      rw e at (
        take_string_lem 0x55 (length xs) vb xs padding len rest reads refl refl small
          (omega (arith, e)) (omega (arith, e)))

  string_piece-Reads :
      Reads (0x55 ∷ (vb ++ ((asn len ++ asn (len - length xs)) ++ (xs ++ padding)))) (str xs)
  unfolding take_field
  string_piece-Reads =
      (0x55, _, refl, λ rest. simp append_assoc (rw (take_string_padded rest) refl))

-- A packed string, whatever its length in the format.
pack_string-Reads :
    (xs : Bytes) (fmt : List ℕ)
    → length xs < 256
    → Ensures (λ (piece, fmt'). Reads piece (str xs)) (pack_string (bytes xs) fmt b'B')
unfolding pack_string
pack_string-Reads xs fmt h = Ensures-after (int_of_digits (take_digits fmt).0) λ len.
    Ensures-check (leb (length xs) len) assertion λ fits.
      Ensures-bind (pack_items-Ensures xs) λ payload (e, _).
        Ensures-bind (valid_field-Ensures (length xs) h) λ vb reads.
          Ensures-bind (pack_counts-Ensures (len * 1) ((len - length xs) * 1))
            λ counts (e', small, _).
              let one : len * 1 ≡ len = omega arith in
              let rest_one : (len - length xs) * 1 ≡ len - length xs = omega arith in
              returned (
                rw (e', e, one, rest_one)
                  (string_piece-Reads xs vb len (leb→le _ _ fits) (omega arith) reads))

-- A packed number of one, two or four bytes.
pack_int-Reads : (w n : ℕ) → Ensures (λ piece. Reads piece (num n)) (pack_int w (int n))
unfolding pack_int take_field
pack_int-Reads w n = Ensures-bind (pack_be-Ensures w n) λ b (e, h).
    returned (0x02, w ∷ b, refl, λ rest. rw e (rw (take_asn_int-be_bytes w n rest h) refl))

pack_int-Reads_arg :
    (w : ℕ) (arg : Arg) → Ensures (λ piece. Reads piece (field_of arg)) (pack_int w arg)
unfolding pack_int field_of
pack_int-Reads_arg w (int n) = pack_int-Reads w n
pack_int-Reads_arg w (bytes s) = raised

with_format :
    (fmt : List ℕ) {field : Field} {r : Result Bytes}
    → Ensures (λ piece. Reads piece field) r
    → Ensures (λ (piece, fmt'). Reads piece field) (r >>= λ b. ok (b, fmt))
with_format fmt h = Ensures-bind h λ b reads. returned reads

pack_string-Reads_arg :
    (arg : Arg) (fmt : List ℕ)
    → IsShort arg
    → Ensures (λ (piece, fmt'). Reads piece (field_of arg)) (pack_string arg fmt b'B')
unfolding field_of pack_string
pack_string-Reads_arg (bytes s) fmt h = pack_string-Reads s fmt h
pack_string-Reads_arg (int n) fmt h =
    Ensures-after (int_of_digits (take_digits fmt).0) λ len. raised

-- Any character but `S`, whose element type may be wider than a byte.
pack_char-Reads :
    (ch : ℕ) (arg : Arg) (fmt : List ℕ)
    → ch ≢ b'S'
    → IsShort arg
    → Ensures (λ (piece, fmt'). Reads piece (field_of arg)) (pack_char ch arg fmt)
unfolding pack_char
pack_char-Reads ch arg fmt no_s short =
    Ensures-if (ch == b'B') (λ _. with_format fmt (pack_int-Reads_arg 1 arg))
      λ _.
        Ensures-if (ch == b'H') (λ _. with_format fmt (pack_int-Reads_arg 2 arg))
          λ _.
            Ensures-if (ch == b'L') (λ _. with_format fmt (pack_int-Reads_arg 4 arg))
              λ _.
                Ensures-if (ch == b's') (λ _. pack_string-Reads_arg arg fmt short)
                  λ _. Ensures-if (ch == b'S') (λ e. absurd (no_s ((==_iff _ _).0 e))) λ _. raised

-- The same with what is left of the format, which has no `S` either.
pack_char-rest :
    (ch : ℕ) (arg : Arg) (fmt : List ℕ)
    → ch ≢ b'S'
    → IsShort arg
    → All (λ c. c ≢ b'S') fmt
    → Ensures
        (λ (piece, fmt'). Reads piece (field_of arg) × All (λ c. c ≢ b'S') fmt')
        (pack_char ch arg fmt)
pack_char-rest ch arg fmt no_s short hf = Ensures-intro (pack_char ch arg fmt) λ (piece, fmt') e.
    let (front, split) = Ensures-ok (pack_char-suffix ch arg fmt) e in
    (
      Ensures-ok (pack_char-Reads ch arg fmt no_s short) e,
      All-suffix (λ c. c ≢ b'S') front fmt' (rw split at hf),
    )

pack_loop-reads :
    (fuel : ℕ) (fmt : List ℕ) (args : List Arg)
    → All (λ ch. ch ≢ b'S') fmt
    → All IsShort args
    → Ensures
        (λ out. (f : ℕ) → length out ≤ f → unknown_loop f out ≡ ok (map field_of args))
        (pack_loop fuel fmt args)
unfolding pack_loop
pack_loop-reads fuel [] [] hf ha = returned (λ f h. unknown_loop-nil f)
pack_loop-reads fuel [] (arg ∷ args) hf ha = raised
pack_loop-reads zero (ch ∷ fmt) args hf ha = raised
pack_loop-reads (suc fuel) (ch ∷ fmt) [] hf ha = raised
pack_loop-reads (suc fuel) (ch ∷ fmt) (arg ∷ args) (hc, hf) (h, ha) =
    Ensures-bind (pack_char-rest ch arg fmt hc h hf) λ (piece, fmt') (reads, hf').
      Ensures-bind (pack_loop-reads fuel fmt' args hf' ha)
        λ out ih. returned (λ f hl. unknown_loop-Reads f piece out reads ih hl)

-- Whatever `pack` writes for a format without `S` and strings of fewer than 256 bytes,
-- `unpack_unknown` reads back as the arguments.
pub unpack_unknown-pack :
    (fmt : List ℕ) (args : List Arg) {out : Bytes}
    → All (λ ch. ch ≢ b'S') fmt
    → All IsShort args
    → pack fmt args ≡ ok out
    → unpack_unknown out ≡ ok (map field_of args)
unfolding pack unpack_unknown
unpack_unknown-pack fmt args {out} hf ha e =
    Ensures-ok (pack_loop-reads (length fmt) fmt args hf ha) e (length out) (omega arith)
