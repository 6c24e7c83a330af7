-- ===== src/Rpc/Session/Effects.antt =====
-- What a call on the modem leaves behind, whether it returns or raises.
use xmm7360_mvp.Prelude.{◌≡◌, ◌≢◌, refl, ap, ◌∙◌, sym, List, [], ◌∷◌, ◌++◌, append_assoc}
use mathlib.Core.Path.{subst₂}
use xmm7360_mvp.Result.{Result, Error, ok, err, out_of_fuel}
use xmm7360_mvp.Result.Ends.{Ends, returns, raises}
use xmm7360_mvp.Bytes.{Bytes}
use xmm7360_mvp.Rpc.Message.{Response, Kind, handle_message, unsolicited}
use xmm7360_mvp.Rpc.Session.{Modem, M, step, lift, read, read_from, note_unsolicited, pump}
use xmm7360_mvp.Rpc.Message.Ends.{handle_message-Ends, handle_unsolicited-Ends, format_unknown-Ends}

-- A call returned with `P` of its value and the modem, or raised an exception of Python's with
-- `Q` of the modem.
pub data Holds {ℓ} {A : Type ℓ} (P : A → Modem → Type 0) (Q : Modem → Type 0)
    : Result A × Modem → Type ℓ where
  gave : {a : A} {s : Modem} → P a s → Holds P Q (ok a, s)
  threw : {e : Error} {s : Modem} → e ≢ out_of_fuel → Q s → Holds P Q (err e, s)

-- The rule for a bind: the first call, then the rest from where it left the modem.
pub Holds-step {ℓ κ} :
    {A : Type ℓ} {B : Type κ} {P : A → Modem → Type 0} {R : B → Modem → Type 0} {Q : Modem → Type 0}
    {r : Result A × Modem} {f : A → M B}
    → Holds P Q r
    → ((a : A) (s : Modem) → P a s → Holds R Q (f a s))
    → Holds R Q (step r f)
Holds-step (gave {a} {s} h) k = k a s h
Holds-step (threw ne h) k = threw ne h

module _ {ℓ} {A : Type ℓ} {P : A → Modem → Type 0} {Q : Modem → Type 0} where
  pub Holds-weaken :
      {P' : A → Modem → Type 0} {Q' : Modem → Type 0} {r : Result A × Modem}
      → Holds P Q r
      → ((a : A) (s : Modem) → P a s → P' a s)
      → ((s : Modem) → Q s → Q' s)
      → Holds P' Q' r
  Holds-weaken (gave {a} {s} h) f g = gave (f a s h)
  Holds-weaken (threw {s = s} ne h) f g = threw ne (g s h)

  pub Holds-ok : {r : Result A × Modem} {a : A} {s : Modem} → Holds P Q r → r ≡ (ok a, s) → P a s
  Holds-ok (gave h) e =
      subst₂ P (cc (ap (λ (p : Result A × Modem). p.0) e)) (ap (λ (p : Result A × Modem). p.1) e) h
  Holds-ok (threw ne h) e = cc (ap (λ (p : Result A × Modem). p.0) e)

  -- A pure step.
  pub Holds-lift :
      {r : Result A} {s : Modem}
      → Ends (λ _. Unit {0}) r
      → ((a : A) → r ≡ ok a → P a s)
      → Q s
      → Holds P Q (lift r s)
  Holds-lift (returns {a} _) f q = gave (f a refl)
  Holds-lift (raises ne) f q = threw ne q

pub Holds-both {ℓ} :
    {A : Type ℓ} {P P' : A → Modem → Type 0} {Q Q' : Modem → Type 0} {r : Result A × Modem}
    → Holds P Q r
    → Holds P' Q' r
    → Holds (λ a s. P a s × P' a s) (λ s. Q s × Q' s) r
Holds-both (gave h) (gave h') = gave (h, h')
Holds-both (threw ne h) (threw _ h') = threw ne (h, h')

-- Nothing was written, and some messages were read.
abbrev pub Quiet : Modem → Modem → Type 0
Quiet s t = (t.outbox ≡ s.outbox) × (got : List Bytes) × (s.inbox ≡ got ++ t.inbox)

pub Quiet-refl : (s : Modem) → Quiet s s
Quiet-refl s = (refl, [], refl)

pub Quiet-trans : (s t u : Modem) → Quiet s t → Quiet t u → Quiet s u
Quiet-trans s t u (e, got, split) (e', got', split') =
    (e' ∙ e, got ++ got', split ∙ rw (split', append_assoc) refl)

-- One message was read and nothing was written.
abbrev pub Receives : Modem → Bytes → Modem → Type 0
Receives s m t = (t.outbox ≡ s.outbox) × (s.inbox ≡ m ∷ t.inbox)

pub Receives-Quiet : {m : Bytes} (s t : Modem) → Receives s m t → Quiet s t
Receives-Quiet {m} s t (e, split) = (e, m ∷ [], split)

read-Holds : (s : Modem) → Holds (λ m t. Receives s m t) (Quiet s) (read s)
unfolding read
read-Holds s = from s.inbox refl
  where
    from :
        (ms : List Bytes) → s.inbox ≡ ms → Holds (λ m t. Receives s m t) (Quiet s) (read_from ms s)
    from [] e = threw (λ h. cc) (Quiet-refl s)
    from (m ∷ ms) e = gave (refl, e)

-- Only the notice that attaching is allowed changes `attach_allowed`.
note_unsolicited-Holds :
    (kind : Kind) (resp : Response) (s : Modem)
    → Holds
        (λ _ t. (t.outbox ≡ s.outbox) × (t.inbox ≡ s.inbox))
        (λ t. t ≡ s)
        (note_unsolicited kind resp s)
unfolding note_unsolicited
note_unsolicited-Holds unsolicited resp s =
    Holds-step {P = λ _ t. t ≡ s}
      (Holds-lift (handle_unsolicited-Ends resp s.attach_allowed) (λ _ _. refl) refl)
      λ allowed t e. gave (rw e (refl, refl))
note_unsolicited-Holds _ resp s = gave (refl, refl)

-- What `pump` reads and returns.
abbrev pub Pumped : Modem → Response → Modem → Type 0
Pumped s r t =
    (t.outbox ≡ s.outbox) × (m : Bytes) × (s.inbox ≡ m ∷ t.inbox) × (handle_message m ≡ ok r)

pub pump-Holds : (s : Modem) → Holds (Pumped s) (Quiet s) (pump s)
unfolding pump
pump-Holds s = Holds-step (read-Holds s) λ m t got.
    Holds-step {P = λ r u. (u ≡ t) × (handle_message m ≡ ok r)}
      (Holds-lift (handle_message-Ends m) (λ r e. (refl, e)) (Receives-Quiet s t got))
      λ r u (same, e).
        Holds-step
          (Holds-weaken (note_unsolicited-Holds r.kind r u) (λ _ v h. h)
            (λ v h. rw (h, same) (Receives-Quiet s t got)))
          λ _ v (e₁, e₂).
            let out : v.outbox ≡ s.outbox = e₁ ∙ ap (λ (w : Modem). w.outbox) same ∙ got.0 in
            let inb : s.inbox ≡ m ∷ v.inbox =
              got.1 ∙ ap (λ ms. m ∷ ms) (sym (e₂ ∙ ap (λ (w : Modem). w.inbox) same)) in
            Holds-step {P = λ _ w. w ≡ v}
              (Holds-lift (format_unknown-Ends r.body) (λ _ _. refl) (out, m ∷ [], inb))
              λ _ w same'. gave (rw same' (out, m, inb, e))
