-- ===== src/Trace/Printf/Collect.antt =====
-- A sender's side of a printf message as a specification, and the decoder on what it sends.
use xmm7360_mvp.Prelude.{
  ℕ, zero, suc, ◌^◌, ◌<◌, ◌≤◌, ◌==◌, ◌≡◌, ◌≢◌, refl, ap, sym, ◌∙◌, arith, true, false, none, some,
  List, [], ◌∷◌, ◌++◌, append_assoc, map, All, All-append, length, length-append, lt→ltb, take,
  drop,
}
use xmm7360_mvp.Bytes.{Bytes, le_bytes}
use xmm7360_mvp.Bytes.Laws.{unpack_le-le_bytes}
use xmm7360_mvp.Trace.Printf.{
  decode_ascii, partition, Argument, text, number, Tried, done, take_text, take_number, is_flag,
  is_int_type, find_percent, skip_flags, argument_of, collect, replace_p, formatted_or_bad,
  formatted_with, decode_printf,
}

-- A conversion with the literal text in front of it, the characters between the sign and the type,
-- and its argument: `%s` with a string, or one of the types of numbers with its letter.
pub data Conversion : Type 0 where
  with_string : List ℕ → List ℕ → Bytes → Conversion
  with_number : List ℕ → List ℕ → ℕ → ℕ → Conversion

abbrev literal : Conversion → List ℕ
literal (with_string lit flags bs) = lit
literal (with_number lit flags letter n) = lit

abbrev flags_of : Conversion → List ℕ
flags_of (with_string lit flags bs) = flags
flags_of (with_number lit flags letter n) = flags

abbrev letter_of : Conversion → ℕ
letter_of (with_string lit flags bs) = b's'
letter_of (with_number lit flags letter n) = letter

abbrev pub argument : Conversion → Argument
argument (with_string lit flags bs) = text bs
argument (with_number lit flags letter n) = number n

abbrev encoded : Conversion → Bytes
encoded (with_string lit flags bs) = bs ++ (0 ∷ [])
encoded (with_number lit flags letter n) = le_bytes 4 n

-- The format ends in one more literal text.
abbrev pub format_of : List Conversion → List ℕ → List ℕ
format_of [] end = end
format_of (c ∷ cs) end = literal c ++ (b'%' ∷ (flags_of c ++ (letter_of c ∷ format_of cs end)))

abbrev pub arguments_of : List Conversion → Bytes
arguments_of [] = []
arguments_of (c ∷ cs) = encoded c ++ arguments_of cs

-- An ASCII character other than the end of a string; a text without a sign.
abbrev pub IsChar : ℕ → Type 0
IsChar c = (c ≢ 0) × (c < 128)

abbrev pub IsLiteral : List ℕ → Type 0
IsLiteral lit = All (λ c. c ≢ b'%') lit

abbrev Fits : Conversion → Type 0
Fits (with_string lit flags bs) = All IsChar bs
Fits (with_number lit flags letter n) = (is_int_type letter ≡ true) × (n < 256 ^ 4)

abbrev pub IsConversion : Conversion → Type 0
IsConversion c = IsLiteral (literal c) × All (λ f. is_flag f ≡ true) (flags_of c) × Fits c

partition-zero : (bs rest : Bytes) → All IsChar bs → partition (bs ++ (0 ∷ rest)) ≡ (bs, rest)
unfolding partition
partition-zero [] rest h = refl
partition-zero (b ∷ bs) rest ((ne, _), h) =
    let apart : (b == 0) ≡ false = ground arith in rw (apart, partition-zero bs rest h) refl

pub decode_ascii_lem : (bs : Bytes) → All IsChar bs → decode_ascii bs ≡ bs
decode_ascii_lem [] h = refl
decode_ascii_lem (b ∷ bs) ((_, lt), h) = rw (lt→ltb b 128 lt, decode_ascii_lem bs h) refl

take_text-zero : (bs rest : Bytes) → All IsChar bs → take_text (bs ++ (0 ∷ rest)) ≡ (bs, rest)
unfolding take_text
take_text-zero bs rest h = rw (partition-zero bs rest h, decode_ascii_lem bs h) refl

take_number-le_bytes :
    (n : ℕ) (rest : Bytes)
    → n < 256 ^ 4
    → take_number (le_bytes 4 n ++ rest) ≡ done (number n, rest)
unfolding take_number
take_number-le_bytes n rest h =
    let cut : take 4 (le_bytes 4 n ++ rest) ≡ le_bytes 4 n = unfold le_bytes in refl in
    let left : drop 4 (le_bytes 4 n ++ rest) ≡ rest = unfold le_bytes in refl in
    rw (cut, left, unpack_le-le_bytes 4 n h) refl

-- The type's letter is neither a flag nor a sign.
letter_apart :
    (letter : ℕ)
    → is_int_type letter ≡ true
    → (is_flag letter ≡ false) × ((letter == b's') ≡ false) × (letter ≢ b'%')
letter_apart letter h = (ground arith, ground arith, ground arith)

argument_of-encoded :
    (c : Conversion) (rest : Bytes)
    → Fits c
    → argument_of (letter_of c) (encoded c ++ rest) ≡ done (argument c, rest)
unfolding argument_of
argument_of-encoded (with_string lit flags bs) rest h =
    rw (append_assoc bs (0 ∷ []) rest)
      (ap (λ (r : List ℕ × Bytes). done (text r.0, r.1)) (take_text-zero bs rest h))
argument_of-encoded (with_number lit flags letter n) rest (typ, small) =
    rw ((letter_apart letter typ).1, typ) (take_number-le_bytes n rest small)

find_percent-literal :
    (lit fmt : List ℕ) → IsLiteral lit → find_percent (lit ++ (b'%' ∷ fmt)) ≡ some fmt
unfolding find_percent
find_percent-literal [] fmt h = refl
find_percent-literal (c ∷ lit) fmt (ne, h) =
    let apart : (c == b'%') ≡ false = ground arith in
    rw (apart, find_percent-literal lit fmt h) refl

find_percent-none : (lit : List ℕ) → IsLiteral lit → find_percent lit ≡ none
unfolding find_percent
find_percent-none [] h = refl
find_percent-none (c ∷ lit) (ne, h) =
    let apart : (c == b'%') ≡ false = ground arith in rw (apart, find_percent-none lit h) refl

skip_flags-append :
    (flags fmt : List ℕ) (letter : ℕ)
    → All (λ f. is_flag f ≡ true) flags
    → is_flag letter ≡ false
    → skip_flags (flags ++ (letter ∷ fmt)) ≡ some (letter, fmt)
unfolding skip_flags
skip_flags-append [] fmt letter h apart = rw apart refl
skip_flags-append (f ∷ flags) fmt letter (flag, h) apart =
    rw (flag, skip_flags-append flags fmt letter h apart) refl

letter-IsFlag : (c : Conversion) → Fits c → (is_flag (letter_of c) ≡ false) × (letter_of c ≢ b'%')
letter-IsFlag (with_string lit flags bs) h = (refl, omega arith)
letter-IsFlag (with_number lit flags letter n) (typ, _) =
    let (apart, _, ne) = letter_apart letter typ in (apart, ne)

collect-format_of :
    (cs : List Conversion) (end pre rest : List ℕ) (fuel : ℕ)
    → All IsConversion cs
    → IsLiteral end
    → IsLiteral pre
    → length cs < fuel
    → collect fuel (pre ++ format_of cs end) (arguments_of cs ++ rest) ≡ done (map argument cs)
unfolding collect
collect-format_of cs end pre rest zero hs he hp lt = absurd (omega arith)
collect-format_of [] end pre rest (suc fuel) hs he hp lt =
    rw (find_percent-none (pre ++ end) (All-append (λ c. c ≢ b'%') pre end hp he)) refl
collect-format_of (c ∷ cs) end pre rest (suc fuel) ((hl, hf, fits), hs) he hp lt =
    let (apart, ne) = letter-IsFlag c fits in
    let behind = flags_of c ++ (letter_of c ∷ format_of cs end) in
    let found : find_percent (pre ++ (literal c ++ (b'%' ∷ behind))) ≡ some behind =
      ap find_percent (sym (append_assoc pre (literal c) (b'%' ∷ behind)))
      ∙ find_percent-literal (pre ++ literal c) behind
          (All-append (λ c. c ≢ b'%') pre (literal c) hp hl) in
    let skipped : skip_flags behind ≡ some (letter_of c, format_of cs end) =
      skip_flags-append (flags_of c) (format_of cs end) (letter_of c) hf apart in
    let taken : argument_of (letter_of c) ((encoded c ++ arguments_of cs) ++ rest)
        ≡ done (argument c, arguments_of cs ++ rest) =
      ap (argument_of (letter_of c)) (append_assoc (encoded c) (arguments_of cs) rest)
      ∙ argument_of-encoded c (arguments_of cs ++ rest) fits in
    rw (found, skipped, taken)
      (rw (collect-format_of cs end (letter_of c ∷ []) rest fuel hs he (ne, tt) (omega arith)) refl)

length-format_of : (cs : List Conversion) (end : List ℕ) → length cs ≤ length (format_of cs end)
length-format_of [] end = omega arith
length-format_of (c ∷ cs) end = omega (
  arith,
  length-append (literal c) (b'%' ∷ (flags_of c ++ (letter_of c ∷ format_of cs end))),
  length-append (flags_of c) (letter_of c ∷ format_of cs end),
  length-format_of cs end,
)

-- For a message whose format is literal texts and conversions, in ASCII, followed by the arguments
-- and anything else: the arguments are read back, whatever flags their conversions have, and what is
-- formatted is the format with `%p` made `0x%x`, and these arguments.
pub decode_printf-format_of :
    (percent : List ℕ → List Argument → Tried (List ℕ)) (cs : List Conversion) (end : List ℕ)
    (rest : Bytes)
    → All IsConversion cs
    → IsLiteral end
    → All IsChar (format_of cs end)
    → let fmt = format_of cs end in
      decode_printf percent (fmt ++ (0 ∷ (arguments_of cs ++ rest)))
      ≡ formatted_or_bad (replace_p fmt) (percent (replace_p fmt) (map argument cs))
unfolding decode_printf
decode_printf-format_of percent cs end rest hs he hc =
    let fmt = format_of cs end in
    ap (λ (r : List ℕ × Bytes). formatted_with percent r.0 (collect (suc (length r.0)) r.0 r.1))
      (take_text-zero fmt (arguments_of cs ++ rest) hc)
    ∙ ap (formatted_with percent fmt) (
        collect-format_of cs end [] rest (suc (length fmt)) hs he tt
          (omega (arith, length-format_of cs end)))
