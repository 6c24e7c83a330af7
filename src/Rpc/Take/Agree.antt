-- ===== src/Rpc/Take/Agree.antt =====
-- About the two decoders, `unpack_unknown` by the tags and `unpack` by a format.
use xmm7360_mvp.Prelude.{
  ℕ, zero, suc, ◌≡◌, refl, List, [], ◌∷◌, ◌==◌, map, length, Bool-cases, inl, inr,
}
use mathlib.Core.Path.{subst}
use xmm7360_mvp.Result.{ok, ◌>>=◌, bind_returned}
use xmm7360_mvp.Bytes.{Bytes}
use xmm7360_mvp.Rpc.Take.{
  Field, num, str, take_asn_int, take_string, is_string_type, take_field, unknown_loop,
  unpack_unknown, take_char, unpack,
}

-- The format character of a field.
abbrev pub char_of : Field → ℕ
char_of (num n) = b'n'
char_of (str s) = b's'

int_read :
    (bs : Bytes) (n : ℕ) (left : Bytes)
    → take_asn_int bs ≡ ok (n, left)
    → take_char b'n' bs ≡ ok (num n, left)
unfolding take_char
int_read bs n left taken = rw taken refl

string_read :
    (bs : Bytes) (s : Bytes) (left : Bytes)
    → take_string bs ≡ ok (s, left)
    → take_char b's' bs ≡ ok (str s, left)
unfolding take_char
string_read bs s left taken = rw taken refl

-- `unpack`, with the character of the field, takes it as well.
abbrev Agrees : Bytes → Field × Bytes → Type 0
Agrees bs p = take_char (char_of p.0) bs ≡ ok p

module _ (bs : Bytes) (x : Field) (rest : Bytes) where
  int_char :
      ◌>>=◌ {B = Field × Bytes} (take_asn_int bs) (λ (n, left). ok (num n, left)) ≡ ok (x, rest)
      → take_char (char_of x) bs ≡ ok (x, rest)
  int_char e =
      let ((n, left), taken, same) = bind_returned (take_asn_int bs) _ e in
      let found : (num n, left) ≡ (x, rest) = cc same in
      subst (Agrees bs) found (int_read bs n left taken)

  string_char :
      ◌>>=◌ {B = Field × Bytes} (take_string bs) (λ (s, left). ok (str s, left)) ≡ ok (x, rest)
      → take_char (char_of x) bs ≡ ok (x, rest)
  string_char e =
      let ((s, left), taken, same) = bind_returned (take_string bs) _ e in
      let found : (str s, left) ≡ (x, rest) = cc same in
      subst (Agrees bs) found (string_read bs s left taken)

  take_field-char :
      (t : ℕ) → take_field t bs ≡ ok (x, rest) → take_char (char_of x) bs ≡ ok (x, rest)
  unfolding take_field
  take_field-char t e = elim (Bool-cases (t == 0x02)) [
    | inl int_tag ↦ int_char (rw int_tag at e)
    | inr other ↦ (elim (Bool-cases (is_string_type t)) [
      | inl string_tag ↦ string_char (rw (other, string_tag) at e)
      | inr unknown ↦ cc (rw (other, unknown) at e)
    ])
  ]

unknown_loop-chars :
    (fuel : ℕ) (bs : Bytes) (fields : List Field)
    → unknown_loop fuel bs ≡ ok fields
    → unpack (map char_of fields) bs ≡ ok fields
unfolding unknown_loop unpack
unknown_loop-chars fuel [] fields e = let none_left : [] ≡ fields = cc e in rw (← none_left) refl
unknown_loop-chars zero (t ∷ bs) fields e = cc e
unknown_loop-chars (suc fuel) (t ∷ bs) fields e =
    let ((x, rest), first, e₁) = bind_returned (take_field t (t ∷ bs)) _ e in
    let (xs, others, e₂) = bind_returned (unknown_loop fuel rest) _ e₁ in
    let parts : x ∷ xs ≡ fields = cc e₂ in
    rw (← parts)
      (rw (take_field-char (t ∷ bs) x rest t first, unknown_loop-chars fuel rest xs others) refl)

-- Where `unpack_unknown` reads a body, `unpack` with the format of the fields it found reads the same.
pub unpack-unpack_unknown :
    (bs : Bytes) (fields : List Field)
    → unpack_unknown bs ≡ ok fields
    → unpack (map char_of fields) bs ≡ ok fields
unfolding unpack_unknown
unpack-unpack_unknown bs fields e = unknown_loop-chars (length bs) bs fields e
