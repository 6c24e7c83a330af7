-- ===== src/Rpc/Session/Lost.antt =====
-- About `UtaModeSet` and the order of the two messages that it waits for.
use xmm7360_mvp.Prelude.{
  ℕ, suc, ◌==◌, ==_iff, ◌^◌, ◌<◌, ◌≡◌, ◌≢◌, refl, ◌∙◌, Bool, true, false, if◌then◌else◌, List, [],
  ◌∷◌, ◌++◌, length, codes, arith,
}
use xmm7360_mvp.Result.{ok, err, blocked, io}
use xmm7360_mvp.Bytes.{Bytes, be_bytes}
use xmm7360_mvp.Bytes.Laws.{pack_be-eq-ok}
use xmm7360_mvp.Rpc.Take.{Field, num, unpack_unknown}
use xmm7360_mvp.Rpc.Take.Laws.{asn}
use xmm7360_mvp.Rpc.Pack.{int, pack, pack_loop, pack_int}
use xmm7360_mvp.Rpc.CallIds.{call_ids}
use xmm7360_mvp.Rpc.UnsolTable.{xmm7360_unsol}
use xmm7360_mvp.Rpc.Format.{format_unknown}
use xmm7360_mvp.Rpc.Message.{
  name, request, command_code, Response, Kind, response, unsolicited, handle_message,
  handle_unsolicited, unsol_is, field_at,
}
use xmm7360_mvp.Rpc.Message.RoundTrip.{frame, request-eq-frame}
use xmm7360_mvp.Rpc.Session.{
  check, read, note_unsolicited, pump, await_response, execute, await_mode, uta_mode_set,
}
use xmm7360_mvp.Rpc.Session.Answered.{state}

-- A message of this kind whose first field is this number.
pub record Carries (kind : Kind) (m : Bytes) (n : ℕ) : Type 0 where
  pub message : Response
  pub handled : handle_message m ≡ ok message
  pub is_kind : message.kind ≡ kind
  pub more : List Field
  pub fields : message.content ≡ num n ∷ more
  pub body_fields : List Field
  pub readable : unpack_unknown message.body ≡ ok body_fields

-- The answer to the request, and the callback UtaModeSetRspCb, with their first fields.
abbrev pub Answers : Bytes → ℕ → Type 0
Answers m n = Carries response m n

pub record Confirms (m : Bytes) (n : ℕ) : Type 0 where
  pub carries : Carries unsolicited m n
  pub callback : carries.message.code ≡ 0x12d

abbrev mode_body : ℕ → Bytes
mode_body mode = asn 0 ++ (asn 15 ++ asn mode)

-- The one request.
abbrev pub mode_request : ℕ → Bytes
mode_request mode = frame false 0x12f (mode_body mode)

pump-response :
    (m : Bytes) (n : ℕ) (rest outbox : List Bytes) (allowed : Field)
    → (a : Answers m n)
    → pump (state (m ∷ rest) outbox allowed) ≡ (ok a.message, state rest outbox allowed)
unfolding pump read note_unsolicited format_unknown
pump-response m n rest outbox allowed a =
    rw a.handled (rw (a.is_kind, note_unsolicited, a.readable) refl)

pump-callback :
    (m : Bytes) (n : ℕ) (rest outbox : List Bytes) (allowed : Field)
    → (c : Confirms m n)
    → pump (state (m ∷ rest) outbox allowed) ≡ (ok c.carries.message, state rest outbox allowed)
unfolding pump read note_unsolicited format_unknown handle_unsolicited unsol_is xmm7360_unsol
pump-callback m n rest outbox allowed c =
    rw c.carries.handled
      (rw (c.carries.is_kind, note_unsolicited, c.callback, c.carries.readable) refl)

mode_code : command_code (name "UtaModeSetReq") ≡ ok 0x12f
unfolding command_code call_ids
mode_code = refl

mode_packed :
    (mode : ℕ)
    → mode < 256 ^ 4
    → pack (codes "LLL") (int 0 ∷ int 15 ∷ int mode ∷ []) ≡ ok (mode_body mode)
unfolding pack pack_loop pack_int be_bytes
mode_packed mode h = rw (pack_be-eq-ok 4 mode h) refl

mode_requested :
    (mode : ℕ) → request (name "UtaModeSetReq") (mode_body mode) false ≡ ok (mode_request mode)
unfolding be_bytes
mode_requested mode =
    request-eq-frame (name "UtaModeSetReq") 0x12f (mode_body mode) false mode_code (omega arith)
      (omega arith)

-- The answer comes first, or behind a callback.
execute-Answers :
    (mode : ℕ) (m : Bytes) (n : ℕ) (rest outbox : List Bytes) (allowed : Field)
    → (a : Answers m n)
    → execute (name "UtaModeSetReq") (mode_body mode) false (state (m ∷ rest) outbox allowed)
      ≡ (ok a.message, state rest (outbox ++ (mode_request mode ∷ [])) allowed)
unfolding execute await_response
execute-Answers mode m n rest outbox allowed a =
    rw (mode_requested mode)
      (rw (pump-response m n rest (outbox ++ (mode_request mode ∷ [])) allowed a, a.is_kind) refl)

execute-Confirms :
    (mode : ℕ) (m m' : Bytes) (n n' : ℕ) (rest outbox : List Bytes) (allowed : Field)
    → Confirms m n
    → (a : Answers m' n')
    → execute (name "UtaModeSetReq") (mode_body mode) false (state (m ∷ m' ∷ rest) outbox allowed)
      ≡ (ok a.message, state rest (outbox ++ (mode_request mode ∷ [])) allowed)
unfolding execute await_response
execute-Confirms mode m m' n n' rest outbox allowed c a = rw (mode_requested mode) (
    rw
      (
        pump-callback m n (m' ∷ rest) (outbox ++ (mode_request mode ∷ [])) allowed c,
        c.carries.is_kind,
      )
      (rw (pump-response m' n' rest (outbox ++ (mode_request mode ∷ [])) allowed a, a.is_kind)
        refl))

await_mode-Confirms :
    (fuel mode : ℕ) (m : Bytes) (n : ℕ) (rest outbox : List Bytes) (allowed : Field)
    → Confirms m n
    → await_mode (suc fuel) mode (state (m ∷ rest) outbox allowed)
      ≡ (if n == mode then ok tt else err io, state rest outbox allowed)
unfolding await_mode unsol_is xmm7360_unsol field_at
await_mode-Confirms fuel mode m n rest outbox allowed c =
    rw (pump-callback m n rest outbox allowed c)
      (rw (c.callback, c.carries.fields) (checked (n == mode)))
  where
    checked :
        (b : Bool)
        → check b io (state rest outbox allowed)
          ≡ (if b then ok tt else err io, state rest outbox allowed)
    checked true = refl
    checked false = refl

-- `UtaModeSet`, with a mode of 32 bits and readable messages, takes the answer to its request and the
-- confirmation in this order alone. If the answer's first field is 0, it returns with the confirmation
-- of the mode behind it, and raises IOError with one of another mode; an answer with another number is
-- an IOError at once. A confirmation in front of the answer is lost: without a further message it
-- waits for ever. In each case the one request was written.
pub uta_mode_set-Confirms :
    (mode other refusal : ℕ) (accepts refuses confirms differs : Bytes) (rest outbox : List Bytes)
    (allowed : Field)
    → mode < 256 ^ 4
    → other ≢ mode
    → refusal ≢ 0
    → Answers accepts 0
    → Answers refuses refusal
    → Confirms confirms mode
    → Confirms differs other
    → let sent = outbox ++ (mode_request mode ∷ []) in
      (uta_mode_set mode (state (accepts ∷ confirms ∷ rest) outbox allowed)
        ≡ (ok tt, state rest sent allowed))
      × (uta_mode_set mode (state (accepts ∷ differs ∷ rest) outbox allowed)
          ≡ (err io, state rest sent allowed))
      × (uta_mode_set mode (state (refuses ∷ rest) outbox allowed)
          ≡ (err io, state rest sent allowed))
      × (uta_mode_set mode (state (confirms ∷ accepts ∷ []) outbox allowed)
          ≡ (err blocked, state [] sent allowed))
unfolding uta_mode_set await_mode field_at pump read
uta_mode_set-Confirms mode other refusal accepts refuses confirms differs rest outbox allowed small
      ne ne' acc ref conf diff =
    let sent = outbox ++ (mode_request mode ∷ []) in
    let same : (mode == mode) ≡ true = (==_iff mode mode).1 refl in
    let apart : (other == mode) ≡ false = ground arith in
    let refused : (refusal == 0) ≡ false = ground arith in
    (
      rw
          (
            mode_packed mode small,
            execute-Answers mode accepts 0 (confirms ∷ rest) outbox allowed acc,
            acc.fields,
          )
          (await_mode-Confirms (suc (length rest)) mode confirms mode rest sent allowed conf
            ∙ rw same refl),
      rw
          (
            mode_packed mode small,
            execute-Answers mode accepts 0 (differs ∷ rest) outbox allowed acc,
            acc.fields,
          )
          (await_mode-Confirms (suc (length rest)) mode differs other rest sent allowed diff
            ∙ rw apart refl),
      rw
          (
            mode_packed mode small,
            execute-Answers mode refuses refusal rest outbox allowed ref,
            ref.fields,
          )
          (rw refused refl),
      rw
          (
            mode_packed mode small,
            execute-Confirms mode confirms accepts mode 0 [] outbox allowed conf acc,
            acc.fields,
          )
          refl,
    )
