-- ===== src/Trace/Printf.antt =====
-- trace.py: `decode_printf`. A text is a list of code points; `fmt % tuple(args)` is a parameter.
pub mod Collect
pub mod Ends
use xmm7360_mvp.Prelude.{
  ℕ, zero, suc, ◌==◌, Bool, true, false, ◌||◌, ◌&&◌, Option, none, some, List, [], ◌∷◌, ◌++◌, map,
  codes, take, drop, length, leb, ltb, if◌then◌else◌,
}
use xmm7360_mvp.Result.{Result, ok, err}
use xmm7360_mvp.Bytes.{Bytes, unpack_le}

-- `decode('ascii', errors='replace')`
abbrev pub ascii : ℕ → ℕ
ascii b = if ltb b 128 then b else 0xfffd

abbrev pub decode_ascii : Bytes → List ℕ
decode_ascii bs = map ascii bs

-- `payload.partition(b'\0')` without the separator.
unfoldable pub partition : Bytes → Bytes × Bytes
partition [] = ([], [])
partition (b ∷ bs) =
    let (string, rest) = partition bs in if b == 0 then ([], bs) else (b ∷ string, rest)

pub data Argument : Type 0 where
  text : List ℕ → Argument
  number : ℕ → Argument

-- The exceptions of the `try`: an index past the format, a payload that is too short for a number, a
-- letter that is no type, and what the formatting itself raises, with its text. The last is none.
pub data Failure : Type 0 where
  past_end short_payload : Failure
  bad_type : ℕ → Failure
  refused : List ℕ → Failure
  out_of_fuel : Failure

pub data Tried {ℓ} (A : Type ℓ) : Type ℓ where
  done : A → Tried A
  failed : Failure → Tried A

-- The inner `take_string` and `take_int`, with the payload that is left.
unfoldable pub take_text : Bytes → List ℕ × Bytes
unfolding partition
take_text payload = let (string, rest) = partition payload in (decode_ascii string, rest)

abbrev pub number_of : Result ℕ → Bytes → Tried (Argument × Bytes)
number_of (ok val) rest = done (number val, rest)
number_of (err e) rest = failed short_payload

unfoldable pub take_number : Bytes → Tried (Argument × Bytes)
unfolding unpack_le
take_number payload = number_of (unpack_le 4 (take 4 payload)) (drop 4 payload)

-- `isdigit()` and `isspace()` of an ASCII character or of the replacement character.
abbrev pub is_digit_char : ℕ → Bool
is_digit_char c = leb b'0' c && leb c b'9'

abbrev pub is_space : ℕ → Bool
is_space c = (leb 9 c && leb c 13) || (leb 28 c && leb c 32)

-- What may stand between `%` and the type.
abbrev pub is_flag : ℕ → Bool
is_flag c = is_digit_char c || is_space c || c == b'.' || c == b'l'

-- `atype in 'dxpui'`
abbrev pub is_int_type : ℕ → Bool
is_int_type c = c == b'd' || c == b'x' || c == b'p' || c == b'u' || c == b'i'

-- `fmt.find('%', …)`: the characters behind the sign.
unfoldable pub find_percent : List ℕ → Option (List ℕ)
find_percent [] = none
find_percent (c ∷ fmt) = let rest = find_percent fmt in if c == b'%' then some fmt else rest

-- The loop over the flags: the type, and the characters behind it.
unfoldable pub skip_flags : List ℕ → Option (ℕ × List ℕ)
skip_flags [] = none
skip_flags (c ∷ fmt) = let rest = skip_flags fmt in if is_flag c then rest else some (c, fmt)

unfoldable pub argument_of : ℕ → Bytes → Tried (Argument × Bytes)
unfolding take_text take_number
argument_of atype payload =
    if atype == b's'
    then (let (string, rest) = take_text payload in done (text string, rest))
    else if is_int_type atype
    then take_number payload
    else failed (bad_type atype)

abbrev pub cons_argument : Argument → Tried (List Argument) → Tried (List Argument)
cons_argument arg (done args) = done (arg ∷ args)
cons_argument arg (failed e) = failed e

abbrev pub with_argument :
    Tried (Argument × Bytes) → (Bytes → Tried (List Argument)) → Tried (List Argument)
with_argument (done (arg, rest)) next = cons_argument arg (next rest)
with_argument (failed e) next = failed e

-- One round behind a sign: the next sign is looked for from the type on.
abbrev pub at_type :
    Option (ℕ × List ℕ) → Bytes → (List ℕ → Bytes → Tried (List Argument)) → Tried (List Argument)
at_type none payload next = failed past_end
at_type (some (atype, fmt)) payload next =
    with_argument (argument_of atype payload) (next (atype ∷ fmt))

abbrev pub at_percent :
    Option (List ℕ) → Bytes → (List ℕ → Bytes → Tried (List Argument)) → Tried (List Argument)
at_percent none payload next = done []
at_percent (some fmt) payload next = at_type (skip_flags fmt) payload next

-- `while where >= 0`, on the format from `where` on, with fuel: the arguments.
unfoldable pub collect : ℕ → List ℕ → Bytes → Tried (List Argument)
collect zero fmt payload = failed out_of_fuel
collect (suc fuel) fmt payload =
    at_percent (find_percent fmt) payload (λ fmt' payload'. collect fuel fmt' payload')

-- `fmt.replace('%p', '0x%x')`
unfoldable pub replace_p : List ℕ → List ℕ
replace_p [] = []
replace_p (c ∷ []) = c ∷ []
replace_p (c ∷ d ∷ fmt) = elim (c == b'%' && d == b'p') [
  | true ↦ codes "0x%x" ++ replace_p fmt
  | false ↦ c ∷ replace_p (d ∷ fmt)
]

-- `str(e)`
unfoldable pub failure_text : Failure → List ℕ
failure_text past_end = codes "string index out of range"
failure_text short_payload = codes "unpack requires a buffer of 4 bytes"
failure_text (bad_type atype) = atype ∷ []
failure_text (refused message) = message
failure_text out_of_fuel = []

-- `'BAD PRINTF "%s" (%s)' % (fmt, e)`
abbrev pub bad_printf : List ℕ → Failure → List ℕ
bad_printf fmt e = codes "BAD PRINTF \"" ++ (fmt ++ (codes "\" (" ++ (failure_text e ++ codes ")")))

abbrev pub formatted_or_bad : List ℕ → Tried (List ℕ) → List ℕ
formatted_or_bad fmt (done out) = out
formatted_or_bad fmt (failed e) = bad_printf fmt e

module _ (percent : List ℕ → List Argument → Tried (List ℕ)) where
  -- Behind the loop the format is changed before it is used, also for the handler.
  abbrev pub formatted_with : List ℕ → Tried (List Argument) → List ℕ
  formatted_with fmt (done args) = formatted_or_bad (replace_p fmt) (percent (replace_p fmt) args)
  formatted_with fmt (failed e) = bad_printf fmt e

  unfoldable pub decode_printf : Bytes → List ℕ
  unfolding take_text collect
  decode_printf payload =
      let (fmt, rest) = take_text payload in
      formatted_with fmt (collect (suc (length fmt)) fmt rest)
