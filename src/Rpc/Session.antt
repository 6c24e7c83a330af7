-- ===== src/Rpc/Session.antt =====
-- The session with the modem: `pump` and `execute` of XMMRPC, and the procedures on top of them.
-- The device is what `os.read` will return and what `os.write` was handed. A read that finds no
-- message waits; `blocked` stands for a wait that never ends.
pub mod Effects
pub mod Await
pub mod Attach
pub mod Modes
pub mod Lost
pub mod Lookup
pub mod Answered
use xmm7360_mvp.Prelude.{
  ℕ, zero, suc, ◌+◌, ◌==◌, ◌^◌, String, Bool, true, false, not, Option, none, some, List, [], ◌∷◌,
  ◌++◌, take, length, codes, if◌then◌else◌,
}
use xmm7360_mvp.Result.{Result, Error, ok, err, assertion, index, io, value, blocked, out_of_fuel}
use xmm7360_mvp.Bytes.{Bytes, le_bytes, pack_le, unpack_le}
use xmm7360_mvp.Rpc.Take.{Field, num, str, unpack_unknown, unpack}
use xmm7360_mvp.Rpc.Pack.{Arg, int, bytes, asn_int4, pack}
use xmm7360_mvp.Rpc.Message.{
  Command, name, number, request, Response, is_response, Kind, response, async_ack, unsolicited,
  handle_message, handle_unsolicited, unsol_is, field_at, is_num,
}
use xmm7360_mvp.Rpc.Format.{format_unknown}
use xmm7360_mvp.Rpc.Calls.{
  Dns, unpack_uta_ms_call_ps_get_neg_ip_addr_req, unpack_uta_ms_call_ps_get_negotiated_dns_req,
  pack_uta_ms_call_ps_get_neg_ip_addr_req, pack_uta_ms_call_ps_get_negotiated_dns_req,
  pack_uta_sys_get_info, unpack_uta_sys_get_info,
}

pub record Modem : Type 0 where
  pub inbox : List Bytes
  pub outbox : List Bytes
  pub attach_allowed : Field

-- A call on the object: what was written and read stays so when it raises.
abbrev pub M {ℓ} : Type ℓ → Type ℓ
M A = Modem → Result A × Modem

abbrev pub pure {ℓ} : {A : Type ℓ} → A → M A
pure a s = (ok a, s)

abbrev pub raise {ℓ} : {A : Type ℓ} → Error → M A
raise e s = (err e, s)

abbrev pub lift {ℓ} : {A : Type ℓ} → Result A → M A
lift r s = (r, s)

abbrev pub step {ℓ κ} : {A : Type ℓ} {B : Type κ} → Result A × Modem → (A → M B) → Result B × Modem
step (ok a, s) f = f a s
step (err e, s) f = (err e, s)

infixl 5 ◌>>=◌ ◌>>◌
abbrev pub ◌>>=◌ {ℓ κ} : {A : Type ℓ} {B : Type κ} → M A → (A → M B) → M B
◌>>=◌ m f s = step (m s) f

abbrev pub ◌>>◌ {ℓ κ} : {A : Type ℓ} {B : Type κ} → M A → M B → M B
m >> k = m >>= λ _. k

abbrev pub check : Bool → Error → M (Unit {0})
check true e s = (ok tt, s)
check false e s = (err e, s)

-- `os.read(self.fp, 131072)`
unfoldable pub read_from : List Bytes → M Bytes
read_from [] s = (err blocked, s)
read_from (m ∷ ms) s = (ok m, record s { inbox = ms })

unfoldable pub read : M Bytes
unfolding read_from
read s = read_from s.inbox s

-- `os.write(self.fp, …)`; a short write is only printed.
unfoldable pub write : Bytes → M (Unit {0})
write frame s = (ok tt, record s { outbox = s.outbox ++ (frame ∷ []) })

-- `self.handle_unsolicited(resp)`, for an unsolicited message.
unfoldable pub note_unsolicited : Kind → Response → M (Unit {0})
note_unsolicited unsolicited resp = do
  allowed ← λ s. (handle_unsolicited resp s.attach_allowed, s)
  λ s. (ok tt, record s { attach_allowed = allowed })
note_unsolicited _ resp = pure tt

unfoldable pub pump : M Response
unfolding read note_unsolicited
pump = do
  message ← read
  resp ← lift (handle_message message)
  note_unsolicited resp.kind resp
  text ← lift (format_unknown resp.body)
  pure resp

-- `while True: resp = self.pump(); if resp['type'] == 'response': break`, with fuel.
unfoldable pub await_response : ℕ → M Response
await_response zero = raise out_of_fuel
await_response (suc fuel) = do
  resp ← pump
  elim (is_response resp.kind) [ true ↦ pure resp | false ↦ await_response fuel ]

-- Each round of the loop reads a message, so one more than there are is enough.
unfoldable pub execute : Command → Bytes → Bool → M Response
unfolding write
execute cmd body is_async = do
  frame ← lift (request cmd body is_async)
  write frame
  λ s. await_response (suc (length s.inbox)) s

-- `execute` with its default body.
unfoldable pub execute_default : String → Bool → M Response
execute_default cmd is_async = do body ← lift (asn_int4 0); execute (name cmd) body is_async

unfoldable pub uta_sys_get_info : ℕ → M Field
uta_sys_get_info i = do
  body ← lift (pack_uta_sys_get_info i)
  resp ← execute (name "UtaSysGetInfo") body false
  lift (unpack_uta_sys_get_info resp.body)

-- The loop of `UtaModeSet`, with fuel.
unfoldable pub await_mode : ℕ → ℕ → M (Unit {0})
await_mode zero mode = raise out_of_fuel
await_mode (suc fuel) mode = do
  msg ← pump
  elim (unsol_is "UtaModeSetRspCb" msg.code) [
    | true ↦ (do first ← lift (field_at 0 msg.content); check (is_num mode first) io)
    | false ↦ await_mode fuel mode
  ]

unfoldable pub uta_mode_set : ℕ → M (Unit {0})
uta_mode_set mode = do
  body ← lift (pack (codes "LLL") (int 0 ∷ int 15 ∷ int mode ∷ []))
  resp ← execute (name "UtaModeSetReq") body false
  first ← lift (field_at 0 resp.content)
  check (is_num 0 first) io
  λ s. await_mode (suc (length s.inbox)) mode s

-- `for addr in ip_values[::-1]`: the last address that is not 0.0.0.0.
unfoldable pub last_nonzero : ℕ × ℕ × ℕ → Option ℕ
last_nonzero (a1, a2, a3) =
    if not (a3 == 0)
    then some a3
    else if not (a2 == 0)
    then some a2
    else if not (a1 == 0)
    then some a1
    else none

abbrev pub with_dns : Option ℕ → Dns → Option (ℕ × Dns)
with_dns none dns = none
with_dns (some a) dns = some (a, dns)

-- `None, None` is `none`.
unfoldable pub get_ip : M (Option (ℕ × Dns))
unfolding last_nonzero
get_ip = do
  ip_body ← lift pack_uta_ms_call_ps_get_neg_ip_addr_req
  ip ← execute (name "UtaMsCallPsGetNegIpAddrReq") ip_body true
  ip_values ← lift (unpack_uta_ms_call_ps_get_neg_ip_addr_req ip.body)
  dns_body ← lift pack_uta_ms_call_ps_get_negotiated_dns_req
  dns ← execute (name "UtaMsCallPsGetNegotiatedDnsReq") dns_body true
  dns_values ← lift (unpack_uta_ms_call_ps_get_negotiated_dns_req dns.body)
  pure (with_dns (last_nonzero ip_values) dns_values)
