-- ===== src/Trace/Printf/Ends.antt =====
-- About the fuel of the loop over the conversions.
use xmm7360_mvp.Prelude.{
  ℕ, zero, suc, ◌+◌, ◌<◌, ◌==◌, ◌≡◌, ◌≢◌, refl, ap, arith, Bool-cases, inl, inr, Option, none, some,
  List, [], ◌∷◌, length, take, drop,
}
use xmm7360_mvp.Result.{Result, ok, err}
use xmm7360_mvp.Bytes.{Bytes, unpack_le}
use xmm7360_mvp.Trace.Printf.{
  Argument, Tried, done, failed, out_of_fuel, number_of, take_number, is_flag, is_int_type,
  find_percent, skip_flags, argument_of, cons_argument, with_argument, at_type, at_percent, collect,
}

find_percent-shorter : (fmt rest : List ℕ) → find_percent fmt ≡ some rest → length rest < length fmt
unfolding find_percent
find_percent-shorter [] rest h = cc
find_percent-shorter (c ∷ fmt) rest h = ground (arith, find_percent-shorter fmt rest)

skip_flags-shorter :
    (fmt rest : List ℕ) (atype : ℕ) → skip_flags fmt ≡ some (atype, rest) → length rest < length fmt
unfolding skip_flags
skip_flags-shorter [] rest atype h = cc
skip_flags-shorter (c ∷ fmt) rest atype h = elim (Bool-cases (is_flag c)) [
  | inl flag ↦ omega (arith, skip_flags-shorter fmt rest atype (rw flag at h))
  | inr letter ↦ let same : fmt ≡ rest = cc (rw letter at h) in omega (arith, ap length same)
]

-- A call that did not run out of fuel.
abbrev Ended {ℓ} : {A : Type ℓ} → Tried A → Type ℓ
Ended {A} r = r ≢ failed out_of_fuel

number_of-Ended : (r : Result ℕ) (rest : Bytes) → Ended (number_of r rest)
number_of-Ended (ok n) rest = λ e. cc e
number_of-Ended (err x) rest = λ e. cc e

argument_of-Ended : (atype : ℕ) (payload : Bytes) → Ended (argument_of atype payload)
unfolding argument_of take_number
argument_of-Ended atype payload = elim (Bool-cases (atype == b's')) [
  | inl str ↦ rw str (λ e. cc e)
  | inr other ↦ rw other (elim (Bool-cases (is_int_type atype)) [
    | inl int ↦ rw int (number_of-Ended (unpack_le 4 (take 4 payload)) (drop 4 payload))
    | inr bad ↦ rw bad (λ e. cc e)
  ])
]

cons_argument-Ended :
    (arg : Argument) (r : Tried (List Argument)) → Ended r → Ended (cons_argument arg r)
cons_argument-Ended arg (done args) h = λ e. cc e
cons_argument-Ended arg (failed x) h = λ e. h (cc e)

with_argument-Ended :
    (r : Tried (Argument × Bytes)) (next : Bytes → Tried (List Argument))
    → Ended r
    → ((rest : Bytes) → Ended (next rest))
    → Ended (with_argument r next)
with_argument-Ended (done (arg, rest)) next h k = cons_argument-Ended arg (next rest) (k rest)
with_argument-Ended (failed x) next h k = λ e. h (cc e)

-- The loop over the conversions ends on every format and payload: each round takes a character.
pub collect-ne-out_of_fuel :
    (fuel : ℕ) (fmt : List ℕ) (payload : Bytes)
    → length fmt < fuel
    → collect fuel fmt payload ≢ failed out_of_fuel
unfolding collect
collect-ne-out_of_fuel zero fmt payload lt = absurd (omega arith)
collect-ne-out_of_fuel (suc fuel) fmt payload lt =
    round (find_percent fmt) (λ rest e. find_percent-shorter fmt rest e)
      (λ fmt' payload' lt'. collect-ne-out_of_fuel fuel fmt' payload' lt')
  where
    typed :
        (found : Option (ℕ × List ℕ))
        → ((more : List ℕ) (atype : ℕ) → found ≡ some (atype, more) → length more + 1 < length fmt)
        → ((fmt' : List ℕ) (payload' : Bytes)
            → length fmt' < fuel
            → Ended (collect fuel fmt' payload'))
        → Ended (at_type found payload (λ fmt' payload'. collect fuel fmt' payload'))
    typed none shorter ih = λ e. cc e
    typed (some (atype, more)) shorter ih =
        with_argument-Ended (argument_of atype payload) (collect fuel (atype ∷ more))
          (argument_of-Ended atype payload)
          (λ rest. ih (atype ∷ more) rest (omega (arith, shorter more atype refl)))

    round :
        (found : Option (List ℕ))
        → ((rest : List ℕ) → found ≡ some rest → length rest < length fmt)
        → ((fmt' : List ℕ) (payload' : Bytes)
            → length fmt' < fuel
            → Ended (collect fuel fmt' payload'))
        → Ended (at_percent found payload (λ fmt' payload'. collect fuel fmt' payload'))
    round none shorter ih = λ e. cc e
    round (some rest) shorter ih =
        typed (skip_flags rest)
          (λ more atype e. omega (arith, skip_flags-shorter rest more atype e, shorter rest refl))
          ih
