-- ===== src/Rpc/Session/Modes.antt =====
-- About `UtaModeSet`: what it sends, and when it returns.
use xmm7360_mvp.Prelude.{
  ℕ, zero, suc, ◌+◌, ◌≤◌, ◌<◌, ◌≡◌, ◌≢◌, refl, ap, ◌∙◌, sym, Bool, true, false, List, [], ◌∷◌, ◌++◌,
  append_assoc, arith, length, length-append, Bool-cases, inl, inr, ==_iff, codes, ◌⊎◌,
}
use xmm7360_mvp.Result.{Error, ok, io, out_of_fuel}
use xmm7360_mvp.Bytes.{Bytes}
use xmm7360_mvp.Rpc.Take.{Field, num, str}
use xmm7360_mvp.Rpc.Pack.{int}
use xmm7360_mvp.Rpc.Pack.Ends.{pack-Ends}
use xmm7360_mvp.Rpc.Message.{Command, name, Response, handle_message, unsol_is, field_at, is_num}
use xmm7360_mvp.Rpc.Message.Ends.{field_at-Ends}
use xmm7360_mvp.Rpc.Session.{Modem, step, check, await_mode, uta_mode_set}
use xmm7360_mvp.Rpc.Session.Effects.{
  Holds, gave, threw, Holds-step, Holds-weaken, Holds-lift, Quiet, Quiet-trans, pump-Holds,
}
use xmm7360_mvp.Rpc.Session.Await.{Requested, execute-Holds}

-- The modem sent the callback of UtaModeSet with this mode.
abbrev pub Confirmed : ℕ → List Bytes → Type 0
Confirmed mode got =
    (before : List Bytes) × (m : Bytes) × (after : List Bytes) × (got ≡ before ++ (m ∷ after))
    × (r : Response) × (handle_message m ≡ ok r)
    × (unsol_is "UtaModeSetRspCb" r.code ≡ true)
    × (field_at 0 r.content ≡ ok (num mode))

Confirmed-append :
    (mode : ℕ) (more got : List Bytes) → Confirmed mode got → Confirmed mode (more ++ got)
Confirmed-append mode more got (before, m, after, parts, r, handled, callback, first) = (
  more ++ before,
  m,
  after,
  ap (λ ms. more ++ ms) parts ∙ sym (append_assoc more before (m ∷ after)),
  r,
  handled,
  callback,
  first,
)

-- The loop wrote nothing, and what it read last is the confirmation.
abbrev pub SetMode : ℕ → Modem → Modem → Type 0
SetMode mode s t =
    (t.outbox ≡ s.outbox) × (got : List Bytes) × (s.inbox ≡ got ++ t.inbox) × Confirmed mode got

is_num→eq : (n : ℕ) (x : Field) → is_num n x ≡ true → x ≡ num n
is_num→eq n (num m) h = ap num ((==_iff m n).0 h)
is_num→eq n (str s) h = cc

pub check-Holds :
    (b : Bool) (e : Error) {Q : Modem → Type 0} (s : Modem)
    → e ≢ out_of_fuel
    → Q s
    → Holds (λ _ t. (t ≡ s) × (b ≡ true)) Q (check b e s)
check-Holds true e s ne q = gave (refl, refl)
check-Holds false e s ne q = threw ne q

pub await_mode-Holds :
    (fuel mode : ℕ) (s : Modem)
    → length s.inbox < fuel
    → Holds (λ _ t. SetMode mode s t) (Quiet s) (await_mode fuel mode s)
unfolding await_mode
await_mode-Holds zero mode s h = absurd (omega arith)
await_mode-Holds (suc fuel) mode s h = Holds-step (pump-Holds s) λ r t (out, m, split, handled).
    let got : Quiet s t = (out, m ∷ [], split) in
    elim (Bool-cases (unsol_is "UtaModeSetRspCb" r.code)) [
      | inl callback ↦
          rw (callback, step)
            (Holds-step {P = λ first u. (u ≡ t) × (field_at 0 r.content ≡ ok first)}
              (Holds-lift (field_at-Ends 0 r.content) (λ first e. (refl, e)) got)
              λ first u (same, e).
                Holds-weaken (check-Holds (is_num mode first) io u (λ x. cc) (rw same got))
                  (λ _ v (same', yes_mode).
                    let stays : v ≡ t = same' ∙ same in
                    rw stays (
                      out,
                      m ∷ [],
                      split,
                      (
                        [],
                        m,
                        [],
                        refl,
                        r,
                        handled,
                        callback,
                        e ∙ ap ok (is_num→eq mode first yes_mode),
                      ),
                    ))
                  (λ v q. q))
      | inr other ↦
          rw (other, step)
            (Holds-weaken (await_mode-Holds fuel mode t (omega (arith, ap length split)))
              (λ _ u (out', got', split', found). (
                out' ∙ out,
                m ∷ got',
                split ∙ ap (λ ms. m ∷ ms) split',
                Confirmed-append mode (m ∷ []) got' found,
              ))
              (λ u quiet. Quiet-trans s t u got quiet))
    ]

-- At most `n` requests were written.
abbrev pub Sent : ℕ → Modem → Modem → Type 0
Sent n s t = length t.outbox ≤ length s.outbox + n

pub Requested-Sent :
    (cmd : Command) (body : Bytes) (is_async : Bool) (s t : Modem)
    → Requested cmd body is_async s t
    → Sent 1 s t
Requested-Sent cmd body is_async s t (frame, _, out, _, _) =
    omega (arith, ap length out, length-append s.outbox (frame ∷ []))

pub failed-Sent :
    (cmd : Command) (body : Bytes) (is_async : Bool) (s t : Modem)
    → Requested cmd body is_async s t ⊎ (t ≡ s)
    → Sent 1 s t
failed-Sent cmd body is_async s t (inl req) = Requested-Sent cmd body is_async s t req
failed-Sent cmd body is_async s t (inr same) = rw same (omega arith)

-- `UtaModeSet` never runs out of fuel, and sends at most one request. Where it returns, one of the
-- messages that it read is the callback UtaModeSetRspCb with the mode that was asked for.
pub uta_mode_set-Holds :
    (mode : ℕ) (s : Modem)
    → Holds
        (λ _ t.
          (length t.outbox ≤ length s.outbox + 1)
          × (got : List Bytes) × (s.inbox ≡ got ++ t.inbox)
          × Confirmed mode got)
        (Sent 1 s)
        (uta_mode_set mode s)
unfolding uta_mode_set
uta_mode_set-Holds mode s =
    Holds-step {P = λ _ t. t ≡ s}
      (Holds-lift (pack-Ends (codes "LLL") (int 0 ∷ int 15 ∷ int mode ∷ [])) (λ _ _. refl)
        (omega arith))
      λ body s' same.
        Holds-step
          (Holds-weaken (execute-Holds (name "UtaModeSetReq") body false s') (λ r t h. h)
            (λ t h. rw same at (failed-Sent (name "UtaModeSetReq") body false s' t h)))
          λ r t (is, req).
            let sent : Sent 1 s t =
              rw same at (Requested-Sent (name "UtaModeSetReq") body false s' t req) in
            let split : s.inbox ≡ req.3 ++ t.inbox = rw same at (req.4) in
            Holds-step {P = λ _ u. u ≡ t}
              (Holds-lift (field_at-Ends 0 r.content) (λ _ _. refl) sent)
              λ first u stays.
                Holds-step (check-Holds (is_num 0 first) io u (λ x. cc) (rw stays sent))
                  λ _ v (stays', _).
                    let here : v ≡ t = stays' ∙ stays in
                    Holds-weaken (await_mode-Holds (suc (length v.inbox)) mode v (omega arith))
                      (λ _ w (out, got, more, found). (
                        rw (← out) at (rw (← here) at sent),
                        req.3 ++ got,
                        split
                            ∙ ap (λ ms. req.3 ++ ms) (rw here at more)
                            ∙ sym (append_assoc req.3 got w.inbox),
                        Confirmed-append mode req.3 got found,
                      ))
                      (λ w (out, _, _). rw (← out) at (rw (← here) at sent))
