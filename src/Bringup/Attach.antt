-- ===== src/Bringup/Attach.antt =====
-- About attaching to the network.
use xmm7360_mvp.Prelude.{
  ℕ, zero, suc, ◌≡◌, ◌≢◌, refl, ap, sym, ◌∙◌, true, false, ◌==◌, ==_iff, Bool-cases, length, inl,
  inr, ◌⊎◌,
}
use xmm7360_mvp.Result.{Result, ok, err}
use xmm7360_mvp.Rpc.Message.{Response}
use xmm7360_mvp.Rpc.Session.{Modem, M, step, pump, pure}
use xmm7360_mvp.Bringup.{truthy, request_attach, wait_allowed, attach_failed, attach_network}

-- The two ways to get attached: at once, or after the modem has said that attaching is allowed.
pub data AttachedAs (s u : Modem) : Type 0 where
  at_once :
      (status : ℕ) → request_attach s ≡ (ok status, u) → status ≢ attach_failed → AttachedAs s u
  after_waiting :
      (t v : Modem) (status : ℕ)
      → request_attach s ≡ (ok attach_failed, t)
      → wait_allowed (suc (length t.inbox)) t ≡ (ok tt, v)
      → truthy v.attach_allowed ≡ true
      → request_attach v ≡ (ok status, u)
      → status ≢ attach_failed
      → AttachedAs s u

wait_allowed-truthy :
    (fuel : ℕ) (s t : Modem) → wait_allowed fuel s ≡ (ok tt, t) → truthy t.attach_allowed ≡ true
unfolding wait_allowed
wait_allowed-truthy zero s t e = cc (ap (λ (p : Result (Unit {0}) × Modem). p.0) e)
wait_allowed-truthy (suc fuel) s t e = elim (Bool-cases (truthy s.attach_allowed)) [
  | inl allowed ↦
      (let same : s ≡ t =
          ap (λ (p : Result (Unit {0}) × Modem). p.1) (rw (allowed, wait_allowed) at e) in
        rw same at allowed)
  | inr other ↦ pumped (pump s) (λ u. wait_allowed-truthy fuel u t) (rw (other, wait_allowed) at e)
]
  where
    pumped :
        (r : Result Response × Modem)
        → ((u : Modem) → wait_allowed fuel u ≡ (ok tt, t) → truthy t.attach_allowed ≡ true)
        → step r (λ _. wait_allowed fuel) ≡ (ok tt, t)
        → truthy t.attach_allowed ≡ true
    pumped (ok a, u) ih h = ih u h
    pumped (err x, u) ih h = cc (ap (λ (p : Result (Unit {0}) × Modem). p.0) h)

-- The second attempt, and the decision behind either.
decided :
    (status : ℕ) (other : M (Unit {0})) (t u : Modem)
    → elim (status == attach_failed) as (λ _. M (Unit {0})) [ true ↦ other | false ↦ pure tt ] t
      ≡ (ok tt, u)
    → ((status ≡ attach_failed) × (other t ≡ (ok tt, u))) ⊎ ((status ≢ attach_failed) × (t ≡ u))
decided status other t u h = elim (Bool-cases (status == attach_failed)) [
  | inl failed ↦ inl ((==_iff status attach_failed).0 failed, rw failed at h)
  | inr fine ↦ inr (
    (λ e. cc (sym ((==_iff status attach_failed).1 e) ∙ fine)),
    ap (λ (p : Result (Unit {0}) × Modem). p.1) (rw fine at h),
  )
]

stepped {ℓ} :
    {A : Type ℓ} (r : Result A × Modem) (f : A → M (Unit {0})) (u : Modem)
    → step r f ≡ (ok tt, u)
    → (a : A) × (t : Modem) × (r ≡ (ok a, t)) × (f a t ≡ (ok tt, u))
stepped (ok a, t) f u h = (a, t, refl, h)
stepped (err x, t) f u h = cc (ap (λ (p : Result (Unit {0}) × Modem). p.0) h)

-- Where the script gets past attaching, the last attach request was answered with a status other
-- than 0xffffffff. If it was the second one, the first was answered with 0xffffffff, and the modem
-- allowed attaching before the second was sent.
pub attach_network-AttachedAs : (s u : Modem) → attach_network s ≡ (ok tt, u) → AttachedAs s u
unfolding attach_network
attach_network-AttachedAs s u h =
    let (status, t, first, h₁) = stepped (request_attach s) _ u h in
    elim (decided status _ t u h₁) [
      | inr (fine, same) ↦ at_once status (rw same at first) fine
      | inl (failed, h₂) ↦
          (let (_, v, waited, h₃) = stepped (wait_allowed (suc (length t.inbox)) t) _ u h₂ in
            let (status', w, second, h₄) = stepped (request_attach v) _ u h₃ in
            elim (decided status' _ w u h₄) [
              | inr (fine, same) ↦
                  after_waiting t v status' (rw failed at first) waited
                    (wait_allowed-truthy (suc (length t.inbox)) t v waited) (rw same at second) fine
              | inl (failed', h₅) ↦ cc (ap (λ (p : Result (Unit {0}) × Modem). p.0) h₅)
            ])
    ]
