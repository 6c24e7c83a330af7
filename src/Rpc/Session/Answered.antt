-- ===== src/Rpc/Session/Answered.antt =====
-- `execute` and `get_ip` on a modem that answers at once.
use xmm7360_mvp.Prelude.{
  ℕ, ◌==◌, ==_iff, ◌≢◌, ◌⊎◌, inl, inr, sym, Bool-cases, false, Option, none, some, ◌^◌, ◌<◌, ◌≡◌,
  refl, ◌∙◌, Bool, true, List, [], ◌∷◌, ◌++◌, append_assoc, map, length, All, codes, arith,
}
use xmm7360_mvp.Result.{ok}
use xmm7360_mvp.Bytes.{Bytes, be_bytes}
use xmm7360_mvp.Rpc.Take.{Field, num, unpack_unknown}
use xmm7360_mvp.Rpc.Take.Agree.{char_of}
use xmm7360_mvp.Rpc.Pack.{pack, pack_loop, pack_int}
use xmm7360_mvp.Rpc.CallIds.{call_ids}
use xmm7360_mvp.Rpc.Message.{
  Command, name, request, Response, response, handle_message, command_code,
}
use xmm7360_mvp.Rpc.Message.RoundTrip.{handle_message-request}
use xmm7360_mvp.Rpc.Format.{format_unknown}
use xmm7360_mvp.Rpc.Calls.{
  Dns, pack_uta_ms_call_ps_get_neg_ip_addr_req, pack_uta_ms_call_ps_get_negotiated_dns_req,
}
use xmm7360_mvp.Rpc.Calls.Replies.{
  Server, IsServer, v4_of, v6_of, dns_fields, negotiated_dns-dns_fields, address_fields,
  neg_ip_addr-address_fields,
}
use xmm7360_mvp.Rpc.Session.{
  Modem, read, note_unsolicited, pump, await_response, execute, last_nonzero, with_dns, get_ip,
}

-- A message that is a response whose fields are these.
pub record IsAnswer (m : Bytes) (fields : List Field) : Type 0 where
  pub answer : Response
  pub handled : handle_message m ≡ ok answer
  pub kind : answer.kind ≡ response
  pub read : unpack_unknown answer.body ≡ ok fields

abbrev pub state : List Bytes → List Bytes → Field → Modem
state inbox outbox allowed = record { inbox = inbox; outbox = outbox; attach_allowed = allowed }

pub execute-IsAnswer :
    (cmd : Command) (body : Bytes) (is_async : Bool) (frame m : Bytes) (rest outbox : List Bytes)
    (allowed : Field) {fields : List Field}
    → request cmd body is_async ≡ ok frame
    → (is : IsAnswer m fields)
    → execute cmd body is_async (state (m ∷ rest) outbox allowed)
      ≡ (ok is.answer, state rest (outbox ++ (frame ∷ [])) allowed)
unfolding execute await_response pump read note_unsolicited format_unknown
execute-IsAnswer cmd body is_async frame m rest outbox allowed made is =
    rw made (rw is.handled (rw (is.kind, note_unsolicited, is.read) refl))

-- The body of both requests.
abbrev pub zeros_body : Bytes
zeros_body = 2 ∷ 1 ∷ 0 ∷ 2 ∷ 4 ∷ 0 ∷ 0 ∷ 0 ∷ 0 ∷ 2 ∷ 4 ∷ 0 ∷ 0 ∷ 0 ∷ 0 ∷ []

neg_ip_addr_req-zeros_body : pack_uta_ms_call_ps_get_neg_ip_addr_req ≡ ok zeros_body
unfolding pack_uta_ms_call_ps_get_neg_ip_addr_req pack pack_loop pack_int be_bytes
neg_ip_addr_req-zeros_body = refl

negotiated_dns_req-zeros_body : pack_uta_ms_call_ps_get_negotiated_dns_req ≡ ok zeros_body
unfolding pack_uta_ms_call_ps_get_negotiated_dns_req pack pack_loop pack_int be_bytes
negotiated_dns_req-zeros_body = refl

zeros_body-read : unpack_unknown zeros_body ≡ ok (num 0 ∷ num 0 ∷ num 0 ∷ [])
unfolding unpack_unknown
zeros_body-read = refl

ip_code : command_code (name "UtaMsCallPsGetNegIpAddrReq") ≡ ok 0x49
unfolding command_code call_ids
ip_code = refl

dns_code : command_code (name "UtaMsCallPsGetNegotiatedDnsReq") ≡ ok 0x47
unfolding command_code call_ids
dns_code = refl

-- The last of the addresses that is not 0.0.0.0, with the name servers; nothing if there is none.
abbrev pub IsUsable : List ℕ → Dns → Option (ℕ × Dns) → Type 0
IsUsable addresses dns result =
    ((result ≡ none) × All (λ a. a ≡ 0) addresses)
    ⊎ ((a : ℕ) × (before after : List ℕ) × (addresses ≡ before ++ (a ∷ after))
        × (a ≢ 0)
        × All (λ b. b ≡ 0) after
        × (result ≡ some (a, dns)))

zero_or : (a : ℕ) → ((a ≡ 0) × ((a == 0) ≡ true)) ⊎ ((a ≢ 0) × ((a == 0) ≡ false))
zero_or a = elim (Bool-cases (a == 0)) [
  | inl same ↦ inl ((==_iff a 0).0 same, same)
  | inr other ↦ inr (λ e. cc (sym ((==_iff a 0).1 e) ∙ other), other)
]

last_nonzero-IsUsable :
    (a1 a2 a3 : ℕ) (dns : Dns)
    → IsUsable (a1 ∷ a2 ∷ a3 ∷ []) dns (with_dns (last_nonzero (a1, a2, a3)) dns)
unfolding last_nonzero
last_nonzero-IsUsable a1 a2 a3 dns = elim (zero_or a3) [
  | inr (ne, t) ↦ rw t (inr (a3, a1 ∷ a2 ∷ [], [], refl, ne, tt, refl))
  | inl (z3, t3) ↦ (elim (zero_or a2) [
    | inr (ne, t) ↦ rw (t3, t) (inr (a2, a1 ∷ [], a3 ∷ [], refl, ne, (z3, tt), refl))
    | inl (z2, t2) ↦ (elim (zero_or a1) [
      | inr (ne, t) ↦ rw (t3, t2, t) (inr (a1, [], a2 ∷ a3 ∷ [], refl, ne, (z2, (z3, tt)), refl))
      | inl (z1, t1) ↦ rw (t3, t2, t1) (inl (refl, (z1, (z2, (z3, tt)))))
    ])
  ])
]

-- Where the first two messages answer the two requests, the first with three addresses and the second
-- with sixteen name servers: `get_ip` writes the two requests and nothing else, reads the two messages,
-- and returns the last address that is not 0.0.0.0, if there is one, with the name servers of each
-- version in their order.
pub get_ip-IsAnswer :
    (m m' : Bytes) (rest outbox : List Bytes) (allowed : Field) (a1 a2 a3 : ℕ) (pad : Bytes) (n : ℕ)
    (ns : List ℕ) (n' : ℕ) (ss : List Server) (tail : List Field)
    → a1 < 256 ^ 4
    → a2 < 256 ^ 4
    → a3 < 256 ^ 4
    → length ns ≡ 4
    → length ss ≡ 16
    → All IsServer ss
    → map char_of tail ≡ codes "nsnnnn"
    → IsAnswer m (address_fields a1 a2 a3 pad n ns)
    → IsAnswer m' (dns_fields n' ss tail)
    → (frame frame' : Bytes) × (request (name "UtaMsCallPsGetNegIpAddrReq") zeros_body true
        ≡ ok frame)
      × (request (name "UtaMsCallPsGetNegotiatedDnsReq") zeros_body true ≡ ok frame')
      × (result : Option (ℕ × Dns)) × IsUsable
          (a1 ∷ a2 ∷ a3 ∷ [])
          (record { v4 = v4_of ss; v6 = v6_of ss })
          result
      × (get_ip (state (m ∷ m' ∷ rest) outbox allowed)
          ≡ (ok result, state rest (outbox ++ (frame ∷ frame' ∷ [])) allowed))
unfolding get_ip
get_ip-IsAnswer m m' rest outbox allowed a1 a2 a3 pad n ns n' ss tail h1 h2 h3 size size' h shape is
      is' =
    let (frame, made, _) =
      handle_message-request (name "UtaMsCallPsGetNegIpAddrReq") 0x49 zeros_body true ip_code
        (omega arith) (omega arith) zeros_body-read in
    let (frame', made', _) =
      handle_message-request (name "UtaMsCallPsGetNegotiatedDnsReq") 0x47 zeros_body true dns_code
        (omega arith) (omega arith) zeros_body-read in
    let first =
      execute-IsAnswer (name "UtaMsCallPsGetNegIpAddrReq") zeros_body true frame m (m' ∷ rest)
        outbox allowed made is in
    let second =
      execute-IsAnswer (name "UtaMsCallPsGetNegotiatedDnsReq") zeros_body true frame' m' rest
        (outbox ++ (frame ∷ [])) allowed made' is' in
    let addresses =
      neg_ip_addr-address_fields is.answer.body a1 a2 a3 pad n ns h1 h2 h3 size is.read in
    let servers = negotiated_dns-dns_fields is'.answer.body n' ss tail size' h shape is'.read in
    (
      frame,
      frame',
      made,
      made',
      with_dns (last_nonzero (a1, a2, a3)) (record { v4 = v4_of ss; v6 = v6_of ss }),
      last_nonzero-IsUsable a1 a2 a3 (record { v4 = v4_of ss; v6 = v6_of ss }),
      rw (neg_ip_addr_req-zeros_body, first)
          (rw (addresses, negotiated_dns_req-zeros_body, second)
            (rw (servers, append_assoc outbox (frame ∷ []) (frame' ∷ [])) refl)),
    )
