-- ===== src/Rpc/Session/Await.antt =====
-- The loop of `execute` against the loop of the source, which has no fuel.
use xmm7360_mvp.Prelude.{
  ℕ, zero, suc, ◌<◌, ◌≡◌, ◌↔◌, refl, ap, ◌∙◌, Bool, true, false, List, [], ◌∷◌, ◌++◌, arith, length,
  Bool-cases, inl, inr, ◌⊎◌,
}
use xmm7360_mvp.Result.{Result, ok, err}
use xmm7360_mvp.Bytes.{Bytes}
use xmm7360_mvp.Rpc.Message.{Command, request, Response, is_response}
use xmm7360_mvp.Rpc.Message.Ends.{request-Ends}
use xmm7360_mvp.Rpc.Session.{Modem, M, step, pure, pump, await_response, execute}
use xmm7360_mvp.Rpc.Session.Effects.{
  Holds, gave, Holds-step, Holds-weaken, Holds-ok, Holds-lift, Quiet, Quiet-trans, pump-Holds,
}

-- The runs of `while True: resp = self.pump(); if resp['type'] == 'response': break`.
pub data Awaits : Modem → Response → Modem → Type 0 where
  arrives :
      {s u : Modem} {r : Response} → pump s ≡ (ok r, u) → is_response r.kind ≡ true → Awaits s r u
  skips :
      {s u : Modem} {r : Response} (q : Response) (t : Modem)
      → pump s ≡ (ok q, t)
      → is_response q.kind ≡ false
      → Awaits t r u
      → Awaits s r u

-- One round, with the rest of the loop as a parameter.
abbrev resume : M Response → Response → M Response
resume rest resp = elim (is_response resp.kind) [ true ↦ pure resp | false ↦ rest ]

resumed→Awaits :
    (rest : M Response) (s : Modem) (r : Response) (u : Modem)
    → ((t : Modem) → rest t ≡ (ok r, u) → Awaits t r u)
    → (p : Result Response × Modem) → pump s ≡ p
    → step p (resume rest) ≡ (ok r, u)
    → Awaits s r u
resumed→Awaits rest s r u ih (err x, t) hp e = cc (ap (λ (p : Result Response × Modem). p.0) e)
resumed→Awaits rest s r u ih (ok q, t) hp e = elim (Bool-cases (is_response q.kind)) [
  | inl now ↦
      let last : (ok q, t) ≡ (ok r, u) = rw (now, resume) at e in
      let same : q ≡ r = cc (ap (λ (p : Result Response × Modem). p.0) last) in
      arrives (hp ∙ last) (rw same at now)
  | inr later ↦ skips q t hp later (ih t (rw (later, resume) at e))
]

await_response→Awaits :
    (fuel : ℕ) (s : Modem) (r : Response) (u : Modem)
    → await_response fuel s ≡ (ok r, u)
    → Awaits s r u
unfolding await_response
await_response→Awaits zero s r u e = cc (ap (λ (p : Result Response × Modem). p.0) e)
await_response→Awaits (suc fuel) s r u e =
    resumed→Awaits (await_response fuel) s r u (λ t. await_response→Awaits fuel t r u) (pump s) refl
      e

-- A message less is waiting behind each round.
pump_shortens :
    (s : Modem) (q : Response) (t : Modem) → pump s ≡ (ok q, t) → length t.inbox < length s.inbox
pump_shortens s q t e =
    let (_, m, split, _) = Holds-ok (pump-Holds s) e in omega (arith, ap length split)

Awaits→await_response :
    (fuel : ℕ) (s : Modem) (r : Response) (u : Modem)
    → length s.inbox < fuel
    → Awaits s r u
    → await_response fuel s ≡ (ok r, u)
unfolding await_response
Awaits→await_response zero s r u h w = absurd (omega arith)
Awaits→await_response (suc fuel) s r u h (arrives e now) = rw e (rw (now, step) refl)
Awaits→await_response (suc fuel) s r u h (skips q t e later w) =
    rw e
      (rw (later, step) (Awaits→await_response fuel t r u (omega (arith, pump_shortens s q t e)) w))

-- With a unit of fuel more than there are messages, the model's loop returns exactly what the loop
-- of the source returns.
pub await_response_iff :
    (s : Modem) (r : Response) (u : Modem)
    → (await_response (suc (length s.inbox)) s ≡ (ok r, u)) ↔ Awaits s r u
await_response_iff s r u = (
  await_response→Awaits (suc (length s.inbox)) s r u,
  Awaits→await_response (suc (length s.inbox)) s r u (omega arith),
)

-- A response, and nothing was written.
abbrev Answered : Modem → Response → Modem → Type 0
Answered s r t = (is_response r.kind ≡ true) × Quiet s t

await_response-Holds :
    (fuel : ℕ) (s : Modem)
    → length s.inbox < fuel
    → Holds (Answered s) (Quiet s) (await_response fuel s)
unfolding await_response
await_response-Holds zero s h = absurd (omega arith)
await_response-Holds (suc fuel) s h = Holds-step (pump-Holds s) λ q t (out, m, split, handled).
    let got : Quiet s t = (out, m ∷ [], split) in
    elim (Bool-cases (is_response q.kind)) [
      | inl now ↦ rw now (gave (now, got))
      | inr later ↦ rw later (
          Holds-weaken (await_response-Holds fuel t (omega (arith, ap length split)))
            (λ r u (is, quiet). (is, Quiet-trans s t u got quiet))
            (λ u quiet. Quiet-trans s t u got quiet))
    ]

-- After an `execute`: the request was written, and nothing else.
abbrev pub Requested : Command → Bytes → Bool → Modem → Modem → Type 0
Requested cmd body is_async s t =
    (frame : Bytes) × (request cmd body is_async ≡ ok frame)
    × (t.outbox ≡ s.outbox ++ (frame ∷ []))
    × (got : List Bytes) × (s.inbox ≡ got ++ t.inbox)

-- `execute` never runs out of fuel. Where it returns, it wrote the one request and returns a
-- response. Where it raises, or is left waiting for a message, it wrote that request, or nothing at
-- all and the modem is as before. In each case it read a front part of the messages.
pub execute-Holds :
    (cmd : Command) (body : Bytes) (is_async : Bool) (s : Modem)
    → Holds
        (λ r t. (is_response r.kind ≡ true) × Requested cmd body is_async s t)
        (λ t. Requested cmd body is_async s t ⊎ (t ≡ s))
        (execute cmd body is_async s)
unfolding execute
execute-Holds cmd body is_async s =
    Holds-step {P = λ frame t. (request cmd body is_async ≡ ok frame) × (t ≡ s)}
      (Holds-lift (request-Ends cmd body is_async) (λ _ e. (e, refl)) (inr refl))
      λ frame t (e, same).
        let u : Modem = record t { outbox = t.outbox ++ (frame ∷ []) } in
        Holds-weaken (await_response-Holds (suc (length t.inbox)) u (omega arith))
          (λ r v (is, (out, got, split)). (is, (frame, e, rw same at out, got, rw same at split)))
          (λ v (out, got, split). inl (frame, e, rw same at out, got, rw same at split))

await_response-shorter :
    (fuel : ℕ) (s : Modem)
    → length s.inbox < fuel
    → Holds (λ _ t. length t.inbox < length s.inbox) (λ _. Unit {0}) (await_response fuel s)
unfolding await_response
await_response-shorter zero s h = absurd (omega arith)
await_response-shorter (suc fuel) s h =
    Holds-step (Holds-weaken (pump-Holds s) (λ q t (_, m, split, _). ap length split) (λ _ _. tt))
      λ q t split. elim (Bool-cases (is_response q.kind)) [
        | inl now ↦ rw now (gave (omega (arith, split)))
        | inr later ↦ rw later (
            Holds-weaken (await_response-shorter fuel t (omega (arith, split)))
              (λ r u less. omega (arith, split, less)) (λ _ _. tt))
      ]

-- Where `execute` returns, it read a message at least.
pub execute-shorter :
    (cmd : Command) (body : Bytes) (is_async : Bool) (s : Modem)
    → Holds (λ _ t. length t.inbox < length s.inbox) (λ _. Unit {0}) (execute cmd body is_async s)
unfolding execute
execute-shorter cmd body is_async s =
    Holds-step {P = λ _ t. t ≡ s} (Holds-lift (request-Ends cmd body is_async) (λ _ _. refl) tt)
      λ frame t same.
        let u : Modem = record t { outbox = t.outbox ++ (frame ∷ []) } in
        Holds-weaken (await_response-shorter (suc (length t.inbox)) u (omega arith))
          (λ r v less. rw same at less) (λ _ _. tt)
