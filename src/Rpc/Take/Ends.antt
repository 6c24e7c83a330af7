-- ===== src/Rpc/Take/Ends.antt =====
-- About the fuel of the decoder, and how much input each of its functions takes.
use xmm7360_mvp.Prelude.{
  ℕ, zero, suc, ◌+◌, ◌*◌, ◌^◌, ◌≤◌, ◌<◌, ◌≢◌, List, [], ◌∷◌, ◌||◌, arith, length, ◌==◌, bit_and,
  bit_or,
}
use xmm7360_mvp.Result.{Result, err, assertion, out_of_fuel}
use xmm7360_mvp.Result.Ends.{Ends, returns, raises, Ends-ne, Ends-if, Ends-check, Ends-bind}
use xmm7360_mvp.Bytes.{Bytes}
use xmm7360_mvp.Rpc.Take.{
  pop, pop_many, take_int_loop, take_asn_int, is_string_type, length_loop, take_valid, scale_valid,
  take_string, take_field, unknown_loop, unpack_unknown, take_char, unpack,
}

-- At most `n` bytes are left.
abbrev pub Leaves {ℓ} : {A : Type ℓ} → ℕ → A × Bytes → Type 0
Leaves n (a, rest) = length rest ≤ n

Leaves-le {ℓ} :
    {A : Type ℓ} {n m : ℕ} {r : Result (A × Bytes)} → n ≤ m → Ends (Leaves n) r → Ends (Leaves m) r
Leaves-le h (returns h') = returns (omega arith)
Leaves-le h (raises ne) = raises ne

Leaves-lt {ℓ} :
    {A : Type ℓ} {n m : ℕ} {r : Result (A × Bytes)}
    → n < m
    → Ends (Leaves n) r
    → Ends (λ p. length p.1 < m) r
Leaves-lt h (returns h') = returns (omega arith)
Leaves-lt h (raises ne) = raises ne

pop-Ends : (bs : Bytes) → Ends (λ (b, rest). length rest < length bs) (pop bs)
unfolding pop
pop-Ends [] = raises (λ e. cc)
pop-Ends (b ∷ bs) = returns (omega arith)

pop_many-Ends : (n : ℕ) (bs : Bytes) → Ends (λ rest. length rest ≤ length bs) (pop_many n bs)
unfolding pop_many
pop_many-Ends zero bs = returns (omega arith)
pop_many-Ends (suc n) [] = raises (λ e. cc)
pop_many-Ends (suc n) (b ∷ bs) = weaken (pop_many-Ends n bs)
  where
    weaken :
        {r : Result Bytes}
        → Ends (λ rest. length rest ≤ length bs) r
        → Ends (λ rest. length rest ≤ suc (length bs)) r
    weaken (returns h) = returns (omega arith)
    weaken (raises ne) = raises ne

take_int_loop-Ends : (n val : ℕ) (bs : Bytes) → Ends (Leaves (length bs)) (take_int_loop n val bs)
unfolding take_int_loop
take_int_loop-Ends zero val bs = returns (omega arith)
take_int_loop-Ends (suc n) val bs =
    Ends-bind (pop-Ends bs)
      λ (b, rest) h. Leaves-le (omega arith) (take_int_loop-Ends n (bit_or (val * 2 ^ 8) b) rest)

take_asn_int-Ends : (bs : Bytes) → Ends (λ (n, rest). length rest < length bs) (take_asn_int bs)
unfolding take_asn_int
take_asn_int-Ends bs = Ends-bind (pop-Ends bs) λ (t, bs₁) h₁.
    Ends-check (t == 0x02) assertion (λ e. cc)
      λ _.
        Ends-bind (pop-Ends bs₁) λ (l, bs₂) h₂. Leaves-lt (omega arith) (take_int_loop-Ends l 0 bs₂)

length_loop-Ends :
    (n byte val : ℕ) (bs : Bytes) → Ends (Leaves (length bs)) (length_loop n byte val bs)
unfolding length_loop
length_loop-Ends zero byte val bs = returns (omega arith)
length_loop-Ends (suc n) byte val bs = Ends-bind (pop-Ends bs) λ (b, rest) h.
    Leaves-le (omega arith) (length_loop-Ends n (byte + 1) (bit_or val (b * 2 ^ (byte * 8))) rest)

take_valid-Ends : (bs : Bytes) → Ends (Leaves (length bs)) (take_valid bs)
unfolding take_valid
take_valid-Ends bs = Ends-bind (pop-Ends bs) λ (valid, rest) h.
    Ends-if (bit_and valid 0x80 == 0) (λ _. returns (omega arith))
      λ _. Leaves-le (omega arith) (length_loop-Ends (bit_and valid 0xf) 0 0 rest)

take_string-Ends : (bs : Bytes) → Ends (λ (s, rest). length rest < length bs) (take_string bs)
unfolding take_string
take_string-Ends bs = Ends-bind (pop-Ends bs) λ (t, bs₁) h₁.
    Ends-check (is_string_type t) assertion (λ e. cc)
      λ _. Ends-bind (take_valid-Ends bs₁) λ (n, bs₂) h₂.
        Ends-bind (take_asn_int-Ends bs₂) λ (count, bs₃) h₃.
          Ends-bind (take_asn_int-Ends bs₃) λ (padding, bs₄) h₄.
            Ends-check (count == 0 || count == scale_valid t n + padding) assertion (λ e. cc)
              λ _.
                Ends-bind (pop_many-Ends (scale_valid t n + padding) bs₄)
                  λ bs₅ h₅. returns (omega arith)

take_field-Ends :
    (t : ℕ) (bs : Bytes) → Ends (λ (x, rest). length rest < length bs) (take_field t bs)
unfolding take_field
take_field-Ends t bs =
    Ends-if (t == 0x02) (λ _. Ends-bind (take_asn_int-Ends bs) λ (n, rest) h. returns h)
      λ _.
        Ends-if (is_string_type t) (λ _. Ends-bind (take_string-Ends bs) λ (s, rest) h. returns h)
          λ _. raises (λ e. cc)

unknown_loop-Ends :
    (fuel : ℕ) (bs : Bytes) → length bs ≤ fuel → Ends (λ _. Unit {0}) (unknown_loop fuel bs)
unfolding unknown_loop
unknown_loop-Ends fuel [] h = returns tt
unknown_loop-Ends zero (t ∷ bs) h = absurd (omega arith)
unknown_loop-Ends (suc fuel) (t ∷ bs) h =
    Ends-bind (take_field-Ends t (t ∷ bs))
      λ (x, rest) h'. Ends-bind (unknown_loop-Ends fuel rest (omega arith)) λ xs _. returns tt

pub unpack_unknown-Ends : (bs : Bytes) → Ends (λ _. Unit {0}) (unpack_unknown bs)
unfolding unpack_unknown
unpack_unknown-Ends bs = unknown_loop-Ends (length bs) bs (omega arith)

-- The loop of `unpack_unknown` ends on every input: the fuel never runs out.
pub unpack_unknown-ne-out_of_fuel : (bs : Bytes) → unpack_unknown bs ≢ err out_of_fuel
unpack_unknown-ne-out_of_fuel bs = Ends-ne (unpack_unknown-Ends bs)

take_char-Ends :
    (ch : ℕ) (bs : Bytes) → Ends (λ (x, rest). length rest < length bs) (take_char ch bs)
unfolding take_char
take_char-Ends ch bs =
    Ends-if (ch == b'n') (λ _. Ends-bind (take_asn_int-Ends bs) λ (n, rest) h. returns h)
      λ _.
        Ends-if (ch == b's') (λ _. Ends-bind (take_string-Ends bs) λ (s, rest) h. returns h)
          λ _. raises (λ e. cc)

pub unpack-Ends : (fmt : List ℕ) (bs : Bytes) → Ends (λ _. Unit {0}) (unpack fmt bs)
unfolding unpack
unpack-Ends [] bs = returns tt
unpack-Ends (ch ∷ fmt) bs =
    Ends-bind (take_char-Ends ch bs)
      λ (x, rest) h. Ends-bind (unpack-Ends fmt rest) λ xs _. returns tt
