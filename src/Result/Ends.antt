-- ===== src/Result/Ends.antt =====
-- Calls that the model's fuel does not cut short.
use xmm7360_mvp.Prelude.{◌≡◌, ◌≢◌, refl, Bool, true, false, if◌then◌else◌}
use xmm7360_mvp.Result.{
  Result, Error, ok, err, assertion, index, value, struct, key, type, io, out_of_fuel, ◌>>=◌, ◌>>◌,
  check,
}

-- The call returns a value with `P`, or raises an exception of Python's.
pub data Ends {ℓ κ} {A : Type ℓ} (P : A → Type κ) : Result A → Type (ℓ ⊔ κ) where
  returns : {a : A} → P a → Ends P (ok a)
  raises : {e : Error} → e ≢ out_of_fuel → Ends P (err e)

module _ {ℓ κ} {A : Type ℓ} {P : A → Type κ} where
  pub Ends-ne : {r : Result A} → Ends P r → r ≢ err out_of_fuel
  Ends-ne (returns h) e = cc
  Ends-ne (raises h) e = h (cc)

  pub Ends-if :
      (b : Bool) {x y : Result A}
      → (b ≡ true → Ends P x)
      → (b ≡ false → Ends P y)
      → Ends P (if b then x else y)
  Ends-if true hx hy = hx refl
  Ends-if false hx hy = hy refl

  pub Ends-check :
      (b : Bool) (e : Error) {m : Result A}
      → e ≢ out_of_fuel
      → (b ≡ true → Ends P m)
      → Ends P (check b e >> m)
  Ends-check true e ne h = h refl
  Ends-check false e ne h = raises ne

module _ {ℓ κ ℓ' κ'} {A : Type ℓ} {P : A → Type κ} {B : Type ℓ'} {Q : B → Type κ'} where
  pub Ends-bind :
      {r : Result A} {f : A → Result B}
      → Ends P r
      → ((a : A) → P a → Ends Q (f a))
      → Ends Q (r >>= f)
  Ends-bind (returns {a} h) k = k a h
  Ends-bind (raises ne) k = raises ne

pub Ends-of_ne {ℓ} : {A : Type ℓ} (r : Result A) → r ≢ err out_of_fuel → Ends (λ _. Unit {0}) r
Ends-of_ne (ok a) h = returns tt
Ends-of_ne (err e) h = raises (λ same. h (cc))

-- The call ends, whatever it returns: the rules for `search`.
abbrev pub Finishes {ℓ} : {A : Type ℓ} → Result A → Type ℓ
Finishes r = Ends (λ _. Unit {0}) r

module _ {ℓ} {A : Type ℓ} where
  pub Finishes-ok : (a : A) → Finishes (ok a)
  Finishes-ok a = returns tt

  pub Finishes-err : (e : Error) → e ≢ out_of_fuel → Finishes {A = A} (err e)
  Finishes-err e ne = raises ne

  pub Finishes-if :
      (b : Bool) (x y : Result A) → Finishes x → Finishes y → Finishes (if b then x else y)
  Finishes-if true x y hx hy = hx
  Finishes-if false x y hx hy = hy

  pub Finishes-check :
      (b : Bool) (e : Error) (m : Result A)
      → e ≢ out_of_fuel
      → Finishes m
      → Finishes (check b e >> m)
  Finishes-check b e m ne h = Ends-check b e ne (λ _. h)

pub Finishes-bind {ℓ κ} :
    {A : Type ℓ} {B : Type κ} (r : Result A) (f : A → Result B)
    → Finishes r
    → ((a : A) → Finishes (f a))
    → Finishes (r >>= f)
Finishes-bind r f h k = Ends-bind h (λ a _. k a)

-- Python’s exceptions are not the model’s own.
pub assertion_apart : assertion ≢ out_of_fuel
assertion_apart e = cc

pub index_apart : index ≢ out_of_fuel
index_apart e = cc

pub value_apart : value ≢ out_of_fuel
value_apart e = cc

pub struct_apart : struct ≢ out_of_fuel
struct_apart e = cc

pub key_apart : key ≢ out_of_fuel
key_apart e = cc

pub type_apart : type ≢ out_of_fuel
type_apart e = cc

pub io_apart : io ≢ out_of_fuel
io_apart e = cc

pub ruleset finish_rules = (
  Finishes-ok, Finishes-err, Finishes-if, Finishes-check, Finishes-bind, assertion_apart,
  index_apart, value_apart, struct_apart, key_apart, type_apart, io_apart,
)
