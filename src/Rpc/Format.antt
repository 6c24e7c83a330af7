-- ===== src/Rpc/Format.antt =====
-- `format_unknown`: the text that `pump` prints for a body, as code points.
use xmm7360_mvp.Prelude.{
  ℕ, zero, suc, ◌+◌, ◌/◌, ◌%◌, ◌==◌, ◌||◌, List, [], ◌∷◌, ◌++◌, leb, ltb, codes, if◌then◌else◌,
}
use xmm7360_mvp.Result.{Result, ok, ◌>>=◌}
use xmm7360_mvp.Bytes.{Bytes}
use xmm7360_mvp.Rpc.Take.{Field, num, str, unpack_unknown}

-- `'0x%x' % n`: the digits of a number, most significant first, with enough fuel.
abbrev hex_digit : ℕ → ℕ
hex_digit d = if leb 10 d then 87 + d else 48 + d

unfoldable pub hex_digits : ℕ → ℕ → List ℕ → List ℕ
hex_digits zero n out = out
hex_digits (suc fuel) n out =
    let rest = hex_digits fuel (n / 16) (hex_digit (n % 16) ∷ out) in
    if leb 16 n then rest else hex_digit n ∷ out

unfoldable pub hex : ℕ → List ℕ
unfolding hex_digits
hex n = 48 ∷ 120 ∷ hex_digits (suc n) n []

-- The quote that `repr` of a bytearray chooses: the double one where the bytes hold a single quote
-- and no double one, else the single one.
unfoldable pub quote_for : ℕ → Bytes → ℕ
quote_for q [] = q
quote_for q (b ∷ bs) =
    let rest = quote_for (if b == 39 then 34 else q) bs in if b == 34 then 39 else rest

-- A single quote is escaped whichever quote stands around.
unfoldable pub escape_byte : ℕ → List ℕ
escape_byte b =
    if b == 39 || b == 92
    then 92 ∷ b ∷ []
    else if b == 9
    then codes "\\t"
    else if b == 10
    then codes "\\n"
    else if b == 13
    then codes "\\r"
    else if ltb b 32 || leb 127 b
    then 92 ∷ 120 ∷ hex_digit (b / 16) ∷ hex_digit (b % 16) ∷ []
    else b ∷ []

unfoldable pub escape_all : Bytes → List ℕ
unfolding escape_byte
escape_all [] = []
escape_all (b ∷ bs) = escape_byte b ++ escape_all bs

-- `repr(field)` of a bytearray.
unfoldable pub repr : Bytes → List ℕ
unfolding quote_for escape_all
repr s = let q = quote_for 39 s in codes "bytearray(b" ++ (q ∷ (escape_all s ++ (q ∷ codes ")")))

unfoldable pub format_field : Field → List ℕ
unfolding hex repr
format_field (num n) = hex n
format_field (str s) = repr s

-- `', '.join(out)`
unfoldable pub join : List Field → List ℕ
unfolding format_field
join [] = []
join (x ∷ []) = format_field x
join (x ∷ y ∷ xs) = format_field x ++ (codes ", " ++ join (y ∷ xs))

unfoldable pub format_unknown : Bytes → Result (List ℕ)
unfolding join
format_unknown body = do fields ← unpack_unknown body; ok (join fields)
