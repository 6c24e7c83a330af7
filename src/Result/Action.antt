-- ===== src/Result/Action.antt =====
-- Calls on a state: what they changed before an exception stays.
pub mod Laws
use xmm7360_mvp.Result.{Result, Error, ok, err}

abbrev pub Action {ℓ} : Type 0 → Type ℓ → Type ℓ
Action S A = S → Result A × S

abbrev pub pure {ℓ} : {S : Type 0} {A : Type ℓ} → A → Action S A
pure a s = (ok a, s)

abbrev pub raise {ℓ} : {S : Type 0} {A : Type ℓ} → Error → Action S A
raise e s = (err e, s)

abbrev pub lift {ℓ} : {S : Type 0} {A : Type ℓ} → Result A → Action S A
lift r s = (r, s)

abbrev pub bind {ℓ κ} :
    {S : Type 0} {A : Type ℓ} {B : Type κ} → Result A × S → (A → Action S B) → Result B × S
bind (ok a, s) next = next a s
bind (err e, s) next = (err e, s)

infixl 5 ◌>>=◌ ◌>>◌
abbrev pub ◌>>=◌ {ℓ κ} :
    {S : Type 0} {A : Type ℓ} {B : Type κ} → Action S A → (A → Action S B) → Action S B
◌>>=◌ m next s = bind (m s) next

abbrev pub ◌>>◌ {ℓ} : {S : Type 0} {B : Type ℓ} → Action S (Unit {0}) → Action S B → Action S B
m >> k = m >>= λ _. k

-- A call that changes the state, or raises and leaves it.
abbrev pub change : {S : Type 0} → (S → Result S) → Action S (Unit {0})
change f s = elim (f s) [ ok t ↦ (ok tt, t) | err e ↦ (err e, s) ]

abbrev pub reads {ℓ} : {S : Type 0} {A : Type ℓ} → (S → Result A) → Action S A
reads f s = (f s, s)
