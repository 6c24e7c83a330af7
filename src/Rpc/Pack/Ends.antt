-- ===== src/Rpc/Pack/Ends.antt =====
-- About the fuel of the encoder.
use xmm7360_mvp.Prelude.{
  ℕ, zero, suc, ◌+◌, ◌/◌, ◌≤◌, ◌≡◌, ◌≢◌, List, [], ◌∷◌, ◌++◌, arith, length, refl, length-append,
  ap,
}
use xmm7360_mvp.Result.{Result, err, out_of_fuel, Ensures, Ensures-ok}
use xmm7360_mvp.Result.Ends.{Ends, returns, raises, Ends-ne, Ends-bind, Finishes, finish_rules}
use xmm7360_mvp.Bytes.Ends.{pack_le-Ends, pack_be-Ends}
use xmm7360_mvp.Bytes.{Bytes}
use xmm7360_mvp.Rpc.Pack.{
  Arg, int, bytes, asn_int4, int_arg, bytes_arg, int_of_digits, native_size, field_type_of,
  pack_items, valid_loop, to_bytes, valid_field, pack_counts, pack_int, pack_string, pack_typed,
  pack_char, pack_loop, pack,
}
use xmm7360_mvp.Rpc.Pack.Laws.{pack_char-suffix}

pub asn_int4-Ends : (n : ℕ) → Finishes (asn_int4 n)
unfolding asn_int4
asn_int4-Ends n = search (finish_rules, pack_be-Ends)

pack_counts-Ends : (c p : ℕ) → Finishes (pack_counts c p)
unfolding pack_counts
pack_counts-Ends c p = search (finish_rules, asn_int4-Ends)

pack_items-Ends : (size : ℕ) (xs : List ℕ) → Finishes (pack_items size xs)
unfolding pack_items
pack_items-Ends size [] = search finish_rules
pack_items-Ends size (x ∷ xs) = search (finish_rules, pack_le-Ends, pack_items-Ends size xs)

valid_loop-Ends :
    (fuel m first : ℕ) (rest : Bytes) → m ≤ fuel → Finishes (valid_loop fuel m first rest)
unfolding valid_loop
valid_loop-Ends fuel zero first rest h = search finish_rules
valid_loop-Ends zero (suc n) first rest h = absurd (omega arith)
valid_loop-Ends (suc fuel) (suc n) first rest h =
    valid_loop-Ends fuel (suc n / 256) (first + 1) _ (omega arith)

to_bytes-Ends : (xs : List ℕ) → Finishes (to_bytes xs)
unfolding to_bytes
to_bytes-Ends [] = search finish_rules
to_bytes-Ends (x ∷ xs) = search (finish_rules, to_bytes-Ends xs)

valid_field-Ends : (n : ℕ) → Finishes (valid_field n)
unfolding valid_field
valid_field-Ends n =
    search (finish_rules, pack_le-Ends, valid_loop-Ends n n 0x80 [] (omega arith), to_bytes-Ends)

int_arg-Ends : (arg : Arg) → Finishes (int_arg arg)
int_arg-Ends (int n) = search finish_rules
int_arg-Ends (bytes s) = search finish_rules

bytes_arg-Ends : (arg : Arg) → Finishes (bytes_arg arg)
bytes_arg-Ends (int n) = search finish_rules
bytes_arg-Ends (bytes s) = search finish_rules

int_of_digits-Ends : (ds : List ℕ) → Finishes (int_of_digits ds)
unfolding int_of_digits
int_of_digits-Ends [] = search finish_rules
int_of_digits-Ends (d ∷ ds) = search finish_rules

native_size-Ends : (t : ℕ) → Finishes (native_size t)
unfolding native_size
native_size-Ends t = search finish_rules depth 8

field_type_of-Ends : (size : ℕ) → Finishes (field_type_of size)
unfolding field_type_of
field_type_of-Ends size = search finish_rules depth 8

ruleset field_rules = (
  finish_rules, int_of_digits-Ends, bytes_arg-Ends, native_size-Ends, field_type_of-Ends,
  pack_items-Ends, valid_field-Ends, pack_counts-Ends,
)

pack_string-Ends : (val : Arg) (fmt : List ℕ) (t : ℕ) → Finishes (pack_string val fmt t)
unfolding pack_string
pack_string-Ends val fmt t = search field_rules depth 12

pack_typed-Ends : (arg : Arg) (fmt : List ℕ) → Finishes (pack_typed arg fmt)
unfolding pack_typed
pack_typed-Ends arg [] = search finish_rules
pack_typed-Ends arg (t ∷ fmt) = pack_string-Ends arg fmt t

pack_int-Ends : (w : ℕ) (arg : Arg) → Finishes (pack_int w arg)
unfolding pack_int
pack_int-Ends w arg = search (finish_rules, int_arg-Ends, pack_be-Ends)

pack_char-Ends : (ch : ℕ) (arg : Arg) (fmt : List ℕ) → Finishes (pack_char ch arg fmt)
unfolding pack_char
pack_char-Ends ch arg fmt =
    search (finish_rules, pack_int-Ends, pack_string-Ends, pack_typed-Ends) depth 9

-- What a round leaves of the format is no longer than what it was given.
pack_char-shorter :
    (ch : ℕ) (arg : Arg) (fmt : List ℕ)
    → Ends (λ (piece, fmt'). length fmt' ≤ length fmt) (pack_char ch arg fmt)
pack_char-shorter ch arg fmt = both (pack_char-Ends ch arg fmt) (pack_char-suffix ch arg fmt)
  where
    both :
        {r : Result (Bytes × List ℕ)}
        → Finishes r
        → Ensures (λ (piece, fmt'). (front : List ℕ) × (fmt ≡ front ++ fmt')) r
        → Ends (λ (piece, fmt'). length fmt' ≤ length fmt) r
    both (returns {a} _) s =
        let (front, split) = Ensures-ok s refl in
        returns (omega (arith, ap length split, length-append front a.1))
    both (raises ne) s = raises ne

pack_loop-Ends :
    (fuel : ℕ) (fmt : List ℕ) (args : List Arg)
    → length fmt ≤ fuel
    → Finishes (pack_loop fuel fmt args)
unfolding pack_loop
pack_loop-Ends fuel [] [] h = returns tt
pack_loop-Ends fuel [] (arg ∷ args) h = raises (λ e. cc)
pack_loop-Ends zero (ch ∷ fmt) args h = absurd (omega arith)
pack_loop-Ends (suc fuel) (ch ∷ fmt) [] h = raises (λ e. cc)
pack_loop-Ends (suc fuel) (ch ∷ fmt) (arg ∷ args) h =
    Ends-bind (pack_char-shorter ch arg fmt) λ (piece, fmt') shorter.
      Ends-bind (pack_loop-Ends fuel fmt' args (omega arith)) λ _ _. returns tt

pub pack-Ends : (fmt : List ℕ) (args : List Arg) → Finishes (pack fmt args)
unfolding pack
pack-Ends fmt args = pack_loop-Ends (length fmt) fmt args (omega arith)

-- The loops of `pack` end on every format and every arguments: the fuel never runs out.
pub pack-ne-out_of_fuel : (fmt : List ℕ) (args : List Arg) → pack fmt args ≢ err out_of_fuel
pack-ne-out_of_fuel fmt args = Ends-ne (pack-Ends fmt args)
