-- ===== src/Result.antt =====
-- Python's exceptions as values. A call returns or raises; what it raises is one of these.
pub mod Ends
pub mod Action
use mathlib.Core.Path.{subst}
use xmm7360_mvp.Prelude.{◌≡◌, refl, Bool, true, false, Option, none, some, if◌then◌else◌}

-- `value` is ValueError (UnicodeEncodeError included), `io` OSError/IOError, `struct` struct.error,
-- `stop` StopIteration, `attribute` AttributeError, `unbound` NameError and `exit` SystemExit. Two are no Python exception: `blocked` is a read
-- that waits for a message which never comes, `out_of_fuel` a loop cut short by the model.
pub data Error : Type 0 where
  assertion index value struct key type io stop attribute unbound exit blocked out_of_fuel : Error

pub data Result {ℓ} (A : Type ℓ) : Type ℓ where
  ok : A → Result A
  err : Error → Result A

-- `assert b`, or `if not b: raise e`.
abbrev pub check : Bool → Error → Result (Unit {0})
check true e = ok tt
check false e = err e

abbrev pub from_option {ℓ} : {A : Type ℓ} → Option A → Error → Result A
from_option none e = err e
from_option (some a) e = ok a

pub from_option-ok {ℓ} :
    {A : Type ℓ} (o : Option A) (e : Error) {a : A} → from_option o e ≡ ok a → o ≡ some a
from_option-ok none e h = cc
from_option-ok (some a) e h = cc

-- One call after another: what the first raises is raised.
infixl 5 ◌>>=◌ ◌>>◌
abbrev pub ◌>>=◌ {ℓ κ} : {A : Type ℓ} {B : Type κ} → Result A → (A → Result B) → Result B
err e >>= next = err e
ok x >>= next = next x

abbrev pub ◌>>◌ {ℓ} : {B : Type ℓ} → Result (Unit {0}) → Result B → Result B
first >> second = first >>= λ _. second

-- Where a chain returns, its first call did.
pub bind_returned {ℓ κ} :
    {A : Type ℓ} {B : Type κ} (r : Result A) (next : A → Result B) {y : B}
    → (r >>= next) ≡ ok y
    → (x : A) × (r ≡ ok x) × (next x ≡ ok y)
bind_returned (err e) next h = cc
bind_returned (ok x) next h = (x, refl, h)

-- If the call returns, `P` holds of what it returns.
pub data Ensures {ℓ κ} {A : Type ℓ} (P : A → Type κ) : Result A → Type (ℓ ⊔ κ) where
  returned : {a : A} → P a → Ensures P (ok a)
  raised : {e : Error} → Ensures P (err e)

module _ {ℓ κ} {A : Type ℓ} {P : A → Type κ} where
  pub Ensures-ok : {r : Result A} {a : A} → Ensures P r → r ≡ ok a → P a
  Ensures-ok (returned h) e = subst P (cc) h
  Ensures-ok raised e = cc

  pub Ensures-if :
      (b : Bool) {x y : Result A}
      → (b ≡ true → Ensures P x)
      → (b ≡ false → Ensures P y)
      → Ensures P (if b then x else y)
  Ensures-if true hx hy = hx refl
  Ensures-if false hx hy = hy refl

  pub Ensures-check :
      (b : Bool) (e : Error) {m : Result A} → (b ≡ true → Ensures P m) → Ensures P (check b e >> m)
  Ensures-check true e h = h refl
  Ensures-check false e h = raised

  pub Ensures-intro : (r : Result A) → ((a : A) → r ≡ ok a → P a) → Ensures P r
  Ensures-intro (ok a) h = returned (h a refl)
  Ensures-intro (err e) h = raised

module _ {ℓ κ ℓ' κ'} {A : Type ℓ} {P : A → Type κ} {B : Type ℓ'} {Q : B → Type κ'} where
  pub Ensures-bind :
      {r : Result A} {f : A → Result B}
      → Ensures P r
      → ((a : A) → P a → Ensures Q (f a))
      → Ensures Q (r >>= f)
  Ensures-bind (returned {a} h) k = k a h
  Ensures-bind raised k = raised

-- What the first call returned is not asked.
module _ {ℓ ℓ' κ'} {A : Type ℓ} {B : Type ℓ'} {Q : B → Type κ'} where
  pub Ensures-after :
      (r : Result A) {f : A → Result B} → ((a : A) → Ensures Q (f a)) → Ensures Q (r >>= f)
  Ensures-after (ok a) h = h a
  Ensures-after (err e) h = raised
