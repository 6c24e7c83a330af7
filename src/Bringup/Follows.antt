-- ===== src/Bringup/Follows.antt =====
-- Rules for programs whose requests follow the protocol.
use xmm7360_mvp.Prelude.{◌≡◌, ◌≢◌, refl, ap, sym, String, Bool, true, false, [], ◌∷◌, ◌⊎◌, inl, inr}
use mathlib.Core.Path.{subst}
use xmm7360_mvp.Result.{Result, Error, err, out_of_fuel}
use xmm7360_mvp.Result.Ends.{Ends, returns, raises}
use xmm7360_mvp.Bytes.{Bytes, be_bytes}
use xmm7360_mvp.Rpc.Pack.{asn_int4}
use xmm7360_mvp.Rpc.Message.{name, Response}
use xmm7360_mvp.Rpc.Session.{Modem, M, step, pure, execute, execute_default}
use xmm7360_mvp.Rpc.Session.Effects.{Holds, gave, threw, Holds-step, Holds-weaken, Quiet}
use xmm7360_mvp.Rpc.Session.Await.{Requested, execute-Holds}
use xmm7360_mvp.Bringup.Protocol.{Stage, Step, Talk, Talk-none, Talk-trans, Talk-one}

-- A program that starts in stage `p`: it never runs out of fuel, where it returns it is in a stage
-- with `R`, and where it raises or waits for ever in one with `E`.
abbrev pub Follows {ℓ} : {A : Type ℓ} → Stage → (Stage → Type 0) → (Stage → Type 0) → M A → Type ℓ
Follows {A = A} p R E m =
    (s : Modem)
    → Holds {A = A} (λ _ t. (q : Stage) × R q × Talk p q s t)
        (λ t. (q : Stage) × E q × Talk p q s t) (m s)

module _ {ℓ κ} {A : Type ℓ} {B : Type κ} {p : Stage} {R E R' : Stage → Type 0} where
  pub Follows-bind :
      {m : M A} {f : A → M B}
      → Follows p R E m
      → ((a : A) (q : Stage) → R q → Follows q R' E (f a))
      → Follows p R' E (λ s. step (m s) f)
  Follows-bind hm hf s = Holds-step (hm s) λ a t (q, r, talk).
      Holds-weaken (hf a q r t)
        (λ b u (q', r', talk'). (q', r', Talk-trans p q q' s t u talk talk'))
        (λ u (q', e, talk'). (q', e, Talk-trans p q q' s t u talk talk'))

module _ {ℓ κ} {A : Type ℓ} {B : Type κ} {p : Stage} {R E : Stage → Type 0} where
  -- A pure step.
  pub Follows-lift :
      {r : Result A} {f : A → M B}
      → Ends (λ _. Unit {0}) r
      → E p
      → ((a : A) → Follows p R E (f a))
      → Follows p R E (λ s. step (r, s) f)
  Follows-lift (returns {a} _) e hf s = hf a s
  Follows-lift (raises ne) e hf s = threw ne (p, e, Talk-none p s s refl)

  -- A part that writes nothing.
  pub Follows-Quiet :
      {m : M A} {f : A → M B}
      → ((s : Modem) → Holds (λ _ t. Quiet s t) (Quiet s) (m s))
      → E p
      → ((a : A) → Follows p R E (f a))
      → Follows p R E (λ s. step (m s) f)
  Follows-Quiet hm e hf s =
      Holds-step (Holds-weaken (hm s) (λ a t h. h) (λ t (same, _, _). (p, e, Talk-none p s t same)))
        λ a t (same, _, _).
          Holds-weaken (hf a t)
            (λ b u (q, r, talk). (q, r, Talk-trans p p q s t u (Talk-none p s t same) talk))
            (λ u (q, e', talk). (q, e', Talk-trans p p q s t u (Talk-none p s t same) talk))

module _ {ℓ} {A : Type ℓ} {p : Stage} {R E : Stage → Type 0} where
  pub Follows-pure : (a : A) → R p → Follows p R E (pure a)
  Follows-pure a r s = gave (p, r, Talk-none p s s refl)

  pub Follows-raise : (e : Error) → e ≢ out_of_fuel → E p → Follows {A = A} p R E (λ s. (err e, s))
  Follows-raise e ne h s = threw ne (p, h, Talk-none p s s refl)

-- One call, and the rest behind it.
module _ {κ} {B : Type κ} {p q : Stage} {R E : Stage → Type 0} where
  pub Follows-execute :
      (w : String) (body : Bytes) (is_async : Bool) {f : Response → M B}
      → Step p w q
      → E p
      → E q
      → ((r : Response) → Follows q R E (f r))
      → Follows p R E (λ s. step (execute (name w) body is_async s) f)
  Follows-execute w body is_async st ep eq hf s =
      Holds-step
        (Holds-weaken (execute-Holds (name w) body is_async s)
          (λ r t (is, req). Talk-one s t body is_async st req) (failed s))
        λ r t talk.
          Holds-weaken (hf r t) (λ b u (z, rz, more). (z, rz, Talk-trans p q z s t u talk more))
            (λ u (z, ez, more). (z, ez, Talk-trans p q z s t u talk more))
    where
      failed :
          (s t : Modem)
          → Requested (name w) body is_async s t ⊎ (t ≡ s)
          → (z : Stage) × E z × Talk p z s t
      failed s t (inl req) = (q, eq, Talk-one s t body is_async st req)
      failed s t (inr same) = (p, ep, Talk-none p s t (ap (λ (m : Modem). m.outbox) same))

  pub Follows-execute_default :
      (w : String) (is_async : Bool) {f : Response → M B}
      → Step p w q
      → E p
      → E q
      → ((r : Response) → Follows q R E (f r))
      → Follows p R E (λ s. step (execute_default w is_async s) f)
  unfolding execute_default asn_int4 be_bytes
  Follows-execute_default w is_async st ep eq hf s =
      Follows-execute w (0x02 ∷ 0x04 ∷ 0 ∷ 0 ∷ 0 ∷ 0 ∷ []) is_async st ep eq hf s

pub Follows-at {ℓ} :
    {A : Type ℓ} {R E : Stage → Type 0} {m : M A} (p q : Stage)
    → q ≡ p
    → Follows p R E m
    → Follows q R E m
Follows-at {R} {E} {m} p q e h = subst (λ z. Follows z R E m) (sym e) h

-- A part that writes nothing, as the last one.
pub Follows-Quiet_end {ℓ} :
    {A : Type ℓ} {p : Stage} {R E : Stage → Type 0} {m : M A}
    → ((s : Modem) → Holds (λ _ t. Quiet s t) (Quiet s) (m s))
    → R p
    → E p
    → Follows p R E m
Follows-Quiet_end {p} hm r e s =
    Holds-weaken (hm s) (λ a t (same, _, _). (p, r, Talk-none p s t same))
      (λ t (same, _, _). (p, e, Talk-none p s t same))

pub Follows-if {ℓ} :
    {A : Type ℓ} {p : Stage} {R E : Stage → Type 0} (b : Bool) (x y : M A)
    → Follows p R E x
    → Follows p R E y
    → Follows p R E (elim b [ true ↦ x | false ↦ y ])
Follows-if true x y hx hy = hx
Follows-if false x y hx hy = hy
