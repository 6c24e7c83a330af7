-- ===== src/Tests/Modem.antt =====
-- Sessions with a modem whose messages are given, and the theorems on them.
use xmm7360_mvp.Prelude.{
  ℕ, ◌+◌, ◌≤◌, ◌≡◌, ◌↔◌, refl, List, [], ◌∷◌, ◌++◌, replicate, arith, true, false, length, ◌⊎◌,
}
use xmm7360_mvp.Result.{ok, err, io}
use xmm7360_mvp.Bytes.{Bytes, le_bytes, be_bytes}
use xmm7360_mvp.Rpc.Take.{num, unpack, unpack_unknown}
use xmm7360_mvp.Rpc.Pack.{pack, asn_int4}
use xmm7360_mvp.Rpc.Message.{
  name, number, command_code, request, tid_word_of, Response, response, unsolicited, is_response,
  handle_message, handle_unsolicited, unsol_is, field_at,
}
use xmm7360_mvp.Rpc.Message.RoundTrip.{frame, handle_message-request}
use xmm7360_mvp.Rpc.Format.{format_unknown}
use xmm7360_mvp.Rpc.CallIds.{call_ids}
use xmm7360_mvp.Rpc.UnsolTable.{xmm7360_unsol}
use xmm7360_mvp.Rpc.Session.{
  Modem, pump, await_response, execute, execute_default, uta_mode_set, await_mode,
}
use xmm7360_mvp.Rpc.Session.Effects.{Holds}
use xmm7360_mvp.Rpc.Session.Await.{Awaits, await_response_iff, Requested, execute-Holds}
use xmm7360_mvp.Rpc.Session.Attach.{pump_attach_allowed}
use xmm7360_mvp.Rpc.Session.Modes.{Confirmed, Sent, uta_mode_set-Holds}
use xmm7360_mvp.Rpc.Fcc.{keys, try_keys, do_fcc_unlock}
use xmm7360_mvp.Rpc.Fcc.Ends.{do_fcc_unlock-Holds}

-- A message with the code and the transaction word given.
abbrev pub message : ℕ → ℕ → Bytes → Bytes
message code word body =
    let total = length body + 16 in
    le_bytes 4 total
    ++ (0x02 ∷ 0x04 ∷ be_bytes 4 total
        ++ (0x02 ∷ 0x04 ∷ be_bytes 4 code ++ (be_bytes 4 word ++ body)))

abbrev pub n4 : ℕ → Bytes
n4 n = 0x02 ∷ 0x04 ∷ be_bytes 4 n

abbrev pub modem : List Bytes → Modem
modem ms = record { inbox = ms; outbox = []; attach_allowed = num 0 }

-- The notice that attaching is allowed, then the answer to UtaMsSmsInit, then one message more.
abbrev notice : Bytes
notice = message 0x06c 0 (n4 0 ++ (n4 0 ++ n4 1))

abbrev reply : Bytes
reply = message 0x1e 0x11000100 (n4 0)

abbrev three : Modem
three = modem (notice ∷ reply ∷ reply ∷ [])

abbrev noticed : Modem
noticed = record { inbox = reply ∷ reply ∷ []; outbox = []; attach_allowed = num 1 }

abbrev notice_response : Response
notice_response = record {
  tid = 0;
  kind = unsolicited;
  code = 0x06c;
  body = n4 0 ++ (n4 0 ++ n4 1);
  content = num 0 ∷ num 0 ∷ num 1 ∷ [];
}

abbrev reply_response : Response
reply_response = record {
  tid = 0x11000100;
  kind = response;
  code = 0x1e;
  body = n4 0;
  content = num 0 ∷ [];
}

pump_notice : pump three ≡ (ok notice_response, noticed)
unfolding pump handle_message handle_unsolicited format_unknown unpack_unknown xmm7360_unsol
    le_bytes be_bytes
pump_notice = refl

pump_attach_allowed_example :
    (notice_response.kind ≡ unsolicited)
    × (unsol_is "UtaMsNetIsAttachAllowedIndCb" notice_response.code ≡ true)
    × (field_at 2 notice_response.content ≡ ok (num 1))
pump_attach_allowed_example =
    pump_attach_allowed three noticed notice_response pump_notice (λ e. cc e)

answered : Modem
answered = record { inbox = reply ∷ []; outbox = []; attach_allowed = num 1 }

await_response_iff_example :
    (await_response 4 three ≡ (ok reply_response, answered)) ↔ Awaits three reply_response answered
await_response_iff_example = await_response_iff three reply_response answered

execute-Holds_example :
    Holds
      (λ r t. (is_response r.kind ≡ true) × Requested (name "UtaMsSmsInit") (n4 0) false three t)
      (λ t. Requested (name "UtaMsSmsInit") (n4 0) false three t ⊎ (t ≡ three))
      (execute (name "UtaMsSmsInit") (n4 0) false three)
execute-Holds_example = execute-Holds (name "UtaMsSmsInit") (n4 0) false three

sms_init_sent : execute_default "UtaMsSmsInit" false three ≡ (
  ok reply_response,
  record { inbox = reply ∷ []; outbox = frame false 0x30 (n4 0) ∷ []; attach_allowed = num 1 },
)
unfolding execute_default execute await_response request asn_int4 call_ids pump handle_message
    handle_unsolicited format_unknown unpack_unknown xmm7360_unsol le_bytes be_bytes
sms_init_sent = refl

body_fields : unpack_unknown (n4 5) ≡ ok (num 5 ∷ [])
unfolding unpack_unknown be_bytes
body_fields = refl

handle_message-request_example :
    (out : Bytes) × (request (number 0x123) (n4 5) true ≡ ok out)
    × (handle_message out
        ≡ ok (record {
          tid = tid_word_of true;
          kind = response;
          code = 0x123;
          body = n4 5;
          content = num 5 ∷ [];
        }))
unfolding be_bytes command_code
handle_message-request_example =
    handle_message-request (number 0x123) 0x123 (n4 5) true refl (omega arith) (omega arith)
      body_fields

-- The modem accepts the request, then reports mode 1.
abbrev mode_modem : Modem
mode_modem = modem (message 0x12f 0x11000100 (n4 0) ∷ message 0x12d 0 (n4 1) ∷ [])

uta_mode_set-Holds_example :
    Holds
      (λ _ t.
        (length t.outbox ≤ length mode_modem.outbox + 1)
        × (got : List Bytes) × (mode_modem.inbox ≡ got ++ t.inbox)
        × Confirmed 1 got)
      (Sent 1 mode_modem)
      (uta_mode_set 1 mode_modem)
uta_mode_set-Holds_example = uta_mode_set-Holds 1 mode_modem

mode_set : (uta_mode_set 1 mode_modem).0 ≡ ok tt
unfolding uta_mode_set await_mode pack execute await_response request asn_int4 call_ids pump
    handle_message handle_unsolicited format_unknown unpack_unknown xmm7360_unsol le_bytes be_bytes
    unsol_is field_at
mode_set = refl

mode_refused : (uta_mode_set 2 mode_modem).0 ≡ err io
unfolding uta_mode_set await_mode pack execute await_response request asn_int4 call_ids pump
    handle_message handle_unsolicited format_unknown unpack_unknown xmm7360_unsol le_bytes be_bytes
    unsol_is field_at
mode_refused = refl

-- A stand-in for the hash.
abbrev pub sevens : Bytes → Bytes
sevens _ = replicate 32 7

abbrev lock_reply : ℕ → Bytes → Bytes
lock_reply code body = message code 0x11000101 (n4 0x11000101 ++ body)

-- The first key is refused and the second accepted.
abbrev key_modem : Modem
key_modem = modem (lock_reply 0x192 (n4 0) ∷ lock_reply 0x192 (n4 1) ∷ [])

abbrev key_frame : Bytes
key_frame = frame true 0x192 (n4 0x07070707)

abbrev unlocked : Modem
unlocked = record { inbox = []; outbox = key_frame ∷ key_frame ∷ []; attach_allowed = num 0 }

second_key_accepted : try_keys sevens (1 ∷ 2 ∷ 3 ∷ 4 ∷ []) keys key_modem ≡ (ok tt, unlocked)
unfolding try_keys pack execute await_response request asn_int4 call_ids pump handle_message
    handle_unsolicited format_unknown unpack_unknown xmm7360_unsol le_bytes be_bytes unpack field_at
second_key_accepted = refl

do_fcc_unlock-Holds_example :
    Holds
      (λ _ t. length t.outbox ≤ length key_modem.outbox + 4)
      (λ t. length t.outbox ≤ length key_modem.outbox + 4)
      (do_fcc_unlock sevens key_modem)
do_fcc_unlock-Holds_example = do_fcc_unlock-Holds sevens key_modem
