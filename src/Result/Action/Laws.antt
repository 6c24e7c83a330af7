-- ===== src/Result/Action/Laws.antt =====
-- About calls that returned.
use xmm7360_mvp.Prelude.{◌≡◌, refl, ap}
use xmm7360_mvp.Result.{Result, ok, err}
use xmm7360_mvp.Result.Action.{Action, pure, bind, change}

-- Where a chain returned, its first call did, and the rest did from what it gave.
pub bind-ok {ℓ κ} :
    {S : Type 0} {A : Type ℓ} {B : Type κ} (r : Result A × S) (next : A → Action S B) (b : B)
    (u : S)
    → bind r next ≡ (ok b, u)
    → (a : A) × (t : S) × (r ≡ (ok a, t)) × (next a t ≡ (ok b, u))
bind-ok (ok a, t) next b u h = (a, t, refl, h)
bind-ok {S} {A} {B} (err e, t) next b u h = cc (ap (λ (p : Result B × S). p.0) h)

ok_value {ℓ} : {A : Type ℓ} → A → Result A → A
ok_value a (ok b) = b
ok_value a (err e) = a

-- What only returns, returned its value and left the state.
pub pure-ok {ℓ} :
    {S : Type 0} {A : Type ℓ} (a b : A) (s u : S) → pure a s ≡ (ok b, u) → (a ≡ b) × (s ≡ u)
unfolding ok_value
pure-ok {S} {A} a b s u h =
    (ap (λ (p : Result A × S). ok_value a p.0) h, ap (λ (p : Result A × S). p.1) h)

-- Where the first call only reads, it leaves the state.
pub lift-ok {ℓ κ} :
    {S : Type 0} {A : Type ℓ} {B : Type κ} (r : Result A) (s : S) (next : A → Action S B) (b : B)
    (u : S)
    → bind (r, s) next ≡ (ok b, u)
    → (a : A) × (r ≡ ok a) × (next a s ≡ (ok b, u))
lift-ok (ok a) s next b u h = (a, refl, h)
lift-ok {S} {A} {B} (err e) s next b u h = cc (ap (λ (p : Result B × S). p.0) h)

-- A change that returned was made.
pub change-ok : {S : Type 0} (f : S → Result S) (s u : S) → change f s ≡ (ok tt, u) → f s ≡ ok u
change-ok {S} f s u h = made (f s) h
  where
    made :
        (r : Result S)
        → elim r as (λ _. Result (Unit {0}) × S) [ ok t ↦ (ok tt, t) | err e ↦ (err e, s) ]
          ≡ (ok tt, u)
        → r ≡ ok u
    made (ok t) h = ap ok (ap (λ (p : Result (Unit {0}) × S). p.1) h)
    made (err e) h = cc (ap (λ (p : Result (Unit {0}) × S). p.0) h)

-- The other way about: what a chain gives, from what its first call gave.
pub bind_run {ℓ κ} :
    {S : Type 0} {A : Type ℓ} {B : Type κ} {r : Result A × S} (next : A → Action S B) {a : A}
    {t : S} {out : Result B × S}
    → r ≡ (ok a, t)
    → next a t ≡ out
    → bind r next ≡ out
bind_run next e h = rw e h

pub lift_run {ℓ κ} :
    {S : Type 0} {A : Type ℓ} {B : Type κ} {r : Result A} {s : S} (next : A → Action S B) {a : A}
    {out : Result B × S}
    → r ≡ ok a
    → next a s ≡ out
    → bind (r, s) next ≡ out
lift_run next e h = rw e h
