-- ===== src/Tests/Printed.antt =====
-- Formats and their arguments, what is printed of them, and the theorems on it.
use xmm7360_mvp.Prelude.{
  ℕ, ◌==◌, ◌≡◌, ◌≢◌, ◌↔◌, refl, arith, Bool, true, none, some, List, [], ◌∷◌, ◌++◌, map, append-nil,
  ap, not, ◌&&◌, ltb, Bool-cases, inl, inr, All, codes,
}
use xmm7360_mvp.Bytes.{Bytes, unpack_le, starts_with}
use xmm7360_mvp.Trace.{flag}
use xmm7360_mvp.Trace.Escape.{escape, framed}
use xmm7360_mvp.Trace.Framing.{joined}
use xmm7360_mvp.Trace.Printf.{
  Argument, Tried, done, failed, out_of_fuel, partition, take_text, take_number, find_percent,
  skip_flags, argument_of, collect, replace_p, failure_text, formatted_or_bad, decode_printf,
}
use xmm7360_mvp.Trace.Printf.Collect.{
  Conversion, with_string, with_number, format_of, arguments_of, argument, IsChar, IsConversion,
  IsLiteral, decode_printf-format_of,
}
use xmm7360_mvp.Trace.Printf.Ends.{collect-ne-out_of_fuel}
use xmm7360_mvp.Trace.Log.{contains, strip_left, strip, log, output}
use xmm7360_mvp.Trace.Log.Lines.{IsNoise, Stripped, log_iff}
use xmm7360_mvp.Trace.Log.Sent.{plain, printf, Sent, packet_of, lines_of, output-framed}

-- A formatting that gives the format back.
abbrev same : List ℕ → List Argument → Tried (List ℕ)
same fmt args = done fmt

-- `at %p: %4s!` with its arguments.
abbrev conversions : List Conversion
conversions =
    with_number (codes "at ") [] b'p' 0x1020304
    ∷ with_string (codes ": ") (codes "4") (codes "ab")
    ∷ []

conversions-IsConversion : All IsConversion conversions
conversions-IsConversion = (
  ((omega arith, (omega arith, (omega arith, tt))), tt, (refl, omega arith)),
  (
    (
      (omega arith, (omega arith, tt)),
      (refl, tt),
      ((omega arith, omega arith), ((omega arith, omega arith), tt)),
    ),
    tt,
  ),
)

end-IsLiteral : IsLiteral (codes "!")
end-IsLiteral = (omega arith, tt)

abbrev is_char : ℕ → Bool
is_char c = not (c == 0) && ltb c 128

abbrev are_chars : List ℕ → Bool
are_chars [] = true
are_chars (c ∷ cs) = is_char c && are_chars cs

is_char-IsChar : (c : ℕ) → is_char c ≡ true → IsChar c
is_char-IsChar c h = (ground arith, ground arith)

All-IsChar : (cs : List ℕ) → are_chars cs ≡ true → All IsChar cs
All-IsChar [] h = tt
All-IsChar (c ∷ cs) h = elim (Bool-cases (is_char c)) [
  | inl this ↦ (is_char-IsChar c this, All-IsChar cs (rw this at h))
  | inr other ↦ cc (rw other at h)
]

abbrev fmt : List ℕ
fmt = codes "at %p: %4s!"

fmt-IsChar : All IsChar (format_of conversions (codes "!"))
fmt-IsChar = All-IsChar (format_of conversions (codes "!")) refl

decode_printf-format_of_example :
    decode_printf same
      (format_of conversions (codes "!") ++ (0 ∷ (arguments_of conversions ++ (7 ∷ []))))
    ≡ formatted_or_bad (replace_p fmt) (same (replace_p fmt) (map argument conversions))
decode_printf-format_of_example =
    decode_printf-format_of same conversions (codes "!") (7 ∷ []) conversions-IsConversion
      end-IsLiteral fmt-IsChar

decoded :
    decode_printf same (codes "at %p: %4s!" ++ (0 ∷ 4 ∷ 3 ∷ 2 ∷ 1 ∷ 97 ∷ 0 ∷ []))
    ≡ codes "at 0x%x: %4s!"
unfolding decode_printf take_text partition collect find_percent skip_flags argument_of take_number
    unpack_le replace_p
decoded = refl

-- A letter that is no type; a number that is cut off; a sign at the end.
bad_letter : decode_printf same (codes "%-4d" ++ (0 ∷ [])) ≡ codes "BAD PRINTF \"%-4d\" (-)"
unfolding decode_printf take_text partition collect find_percent skip_flags argument_of failure_text
bad_letter = refl

too_short :
    decode_printf same (codes "%d" ++ (0 ∷ 1 ∷ []))
    ≡ codes "BAD PRINTF \"%d\" (unpack requires a buffer of 4 bytes)"
unfolding decode_printf take_text partition collect find_percent skip_flags argument_of take_number
    unpack_le failure_text
too_short = refl

ends_in_sign :
    decode_printf same (codes "100%" ++ (0 ∷ []))
    ≡ codes "BAD PRINTF \"100%\" (string index out of range)"
unfolding decode_printf take_text partition collect find_percent skip_flags failure_text
ends_in_sign = refl

-- A percent sign that is written twice is no type either, and `%p` with a width stays as it is.
percent_sign : decode_printf same (codes "100%%" ++ (0 ∷ [])) ≡ codes "BAD PRINTF \"100%%\" (%)"
unfolding decode_printf take_text partition collect find_percent skip_flags argument_of failure_text
percent_sign = refl

wide_pointer : replace_p (codes "%8p %p") ≡ codes "%8p 0x%x"
unfolding replace_p
wide_pointer = refl

collect-ne-out_of_fuel_example : collect 5 (codes "%%%d") [] ≢ failed out_of_fuel
collect-ne-out_of_fuel_example = collect-ne-out_of_fuel 5 (codes "%%%d") [] (omega arith)

log_iff_example :
    (log (codes " [M] ") ≡ some (codes "[M]"))
    ↔ ((¬ IsNoise (codes " [M] ")) × Stripped (codes " [M] ") (codes "[M]"))
log_iff_example = log_iff (codes " [M] ") (codes "[M]")

-- A text that is left out, a text with a space at its end, and a format.
abbrev sent : List Sent
sent =
    record {
      message = plain (codes "a [ME] b");
      seq = 1;
      unknown = 2;
      checksum = 1 ∷ 2 ∷ 3 ∷ 4 ∷ 5 ∷ [];
    }
    ∷ record {
      message = plain (codes "up ");
      seq = 2;
      unknown = 2;
      checksum = 5 ∷ 4 ∷ 3 ∷ 2 ∷ 1 ∷ [];
    }
    ∷ record {
      message = printf conversions (codes "!");
      seq = 3;
      unknown = 2;
      checksum = 0 ∷ 0 ∷ 0 ∷ 0 ∷ 0 ∷ [];
    }
    ∷ []

abbrev reads : List Bytes
reads = (flag ∷ []) ∷ framed (map packet_of sent) ∷ []

reads-joined : joined reads ≡ flag ∷ framed (map packet_of sent)
reads-joined = ap (λ (r : Bytes). flag ∷ r) (append-nil (framed (map packet_of sent)))

framed_apart : framed (map packet_of sent) ≢ []
unfolding framed escape
framed_apart = λ e. cc

output-framed_example : output same reads ≡ (lines_of same sent, none)
output-framed_example =
    output-framed same sent reads
      (
        (All-IsChar (codes "a [ME] b") refl, refl),
        (
          (All-IsChar (codes "up ") refl, refl),
          (((conversions-IsConversion, end-IsLiteral, fmt-IsChar), refl), tt),
        ),
      )
      ((λ e. cc), (framed_apart, tt)) reads-joined

printed : lines_of same sent ≡ codes "up" ∷ codes "at 0x%x: %4s!" ∷ []
unfolding log contains strip strip_left starts_with replace_p
printed = refl
