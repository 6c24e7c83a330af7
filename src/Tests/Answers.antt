-- ===== src/Tests/Answers.antt =====
-- Answers of the modem with addresses, the script of rpc.py, and the theorems on them.
use xmm7360_mvp.Prelude.{
  ℕ, zero, suc, ◌≡◌, refl, String, Bool, true, Option, List, [], ◌∷◌, ◌++◌, replicate, length, All,
  arith, codes, text_eq,
}
use xmm7360_mvp.Result.{Result, ok, Ensures, ◌>>=◌}
use xmm7360_mvp.Bytes.{Bytes, be_bytes, le_bytes}
use xmm7360_mvp.Rpc.Take.{
  Field, num, str, unpack_unknown, take_field, take_asn_int, take_int_loop, take_string, take_valid,
  pop, pop_many,
}
use xmm7360_mvp.Rpc.Pack.{int, bytes, pack}
use xmm7360_mvp.Rpc.Message.{name, request, response, handle_message, classify}
use xmm7360_mvp.Rpc.Message.Types.{IsMessage, request-pack-IsMessage}
use xmm7360_mvp.Rpc.Calls.{Dns, unpack_uta_ms_call_ps_get_negotiated_dns_req}
use xmm7360_mvp.Rpc.Calls.Replies.{
  Server, server_v4, server_v6, unused, IsServer, dns_fields, address_fields,
  negotiated_dns-dns_fields,
}
use xmm7360_mvp.Rpc.Session.{get_ip}
use xmm7360_mvp.Rpc.Session.Answered.{IsAnswer, state, zeros_body, IsUsable, get_ip-IsAnswer}
use xmm7360_mvp.Rpc.Main.{script}
use xmm7360_mvp.Rpc.Main.Talks.{Ran, Opened, script-Ran}
use xmm7360_mvp.Tests.Modem.{message, n4}

-- A field with a string of fewer than 128 bytes.
abbrev s1 : Bytes → Bytes
s1 bs = 0x55 ∷ length bs ∷ (n4 (length bs) ++ (n4 0 ++ bs))

abbrev encoded : List Field → Bytes
encoded [] = []
encoded (num n ∷ fields) = n4 n ++ encoded fields
encoded (str bs ∷ fields) = s1 bs ++ encoded fields

abbrev fourteen : List Server
fourteen = replicate 14 (unused [] 0)

-- 8.8.8.8, ::1, and entries that are not used.
abbrev servers : List Server
servers = server_v4 0x8080808 [] ∷ server_v6 1 (7 ∷ []) ∷ fourteen

abbrev tail : List Field
tail = num 0 ∷ str [] ∷ num 0 ∷ num 0 ∷ num 0 ∷ num 0 ∷ []

unused-IsServer : (n : ℕ) → All IsServer (replicate n (unused [] 0))
unused-IsServer zero = tt
unused-IsServer (suc n) = ((omega arith, omega arith), unused-IsServer n)

servers-IsServer : All IsServer servers
servers-IsServer = (omega arith, (omega arith, unused-IsServer 14))

abbrev dns_body : Bytes
dns_body = encoded (dns_fields 0 servers tail)

dns_body-read : unpack_unknown dns_body ≡ ok (dns_fields 0 servers tail)
unfolding unpack_unknown take_field take_asn_int take_int_loop take_string take_valid pop pop_many
    be_bytes
dns_body-read = refl

negotiated_dns-dns_fields_example :
    unpack_uta_ms_call_ps_get_negotiated_dns_req dns_body
    ≡ ok (record { v4 = 0x8080808 ∷ []; v6 = 1 ∷ [] })
negotiated_dns-dns_fields_example =
    negotiated_dns-dns_fields dns_body 0 servers tail refl servers-IsServer refl dns_body-read

-- 10.0.0.1 in front of two addresses 0.0.0.0.
abbrev ip_body : Bytes
ip_body = encoded (address_fields 0x0a000001 0 0 [] 0 (0 ∷ 0 ∷ 0 ∷ 0 ∷ []))

abbrev ip_message : Bytes
ip_message = message 0x49 0x11000100 ip_body

abbrev dns_message : Bytes
dns_message = message 0x47 0x11000100 dns_body

ip_message-IsAnswer : IsAnswer ip_message (address_fields 0x0a000001 0 0 [] 0 (0 ∷ 0 ∷ 0 ∷ 0 ∷ []))
unfolding handle_message classify unpack_unknown take_field take_asn_int take_int_loop take_string
    take_valid pop pop_many be_bytes le_bytes
ip_message-IsAnswer = record {
  answer = record {
    tid = 0x11000100;
    kind = response;
    code = 0x49;
    body = ip_body;
    content = address_fields 0x0a000001 0 0 [] 0 (0 ∷ 0 ∷ 0 ∷ 0 ∷ []);
  };
  handled = refl;
  kind = refl;
  read = refl;
}

dns_message-IsAnswer : IsAnswer dns_message (dns_fields 0 servers tail)
unfolding handle_message classify unpack_unknown take_field take_asn_int take_int_loop take_string
    take_valid pop pop_many be_bytes le_bytes
dns_message-IsAnswer = record {
  answer = record {
    tid = 0x11000100;
    kind = response;
    code = 0x47;
    body = dns_body;
    content = dns_fields 0 servers tail;
  };
  handled = refl;
  kind = refl;
  read = refl;
}

get_ip-IsAnswer_example :
    (frame frame' : Bytes) × (request (name "UtaMsCallPsGetNegIpAddrReq") zeros_body true
      ≡ ok frame)
    × (request (name "UtaMsCallPsGetNegotiatedDnsReq") zeros_body true ≡ ok frame')
    × (result : Option (ℕ × Dns)) × IsUsable
        (0x0a000001 ∷ 0 ∷ 0 ∷ [])
        (record { v4 = 0x8080808 ∷ []; v6 = 1 ∷ [] })
        result
    × (get_ip (state (ip_message ∷ dns_message ∷ []) [] (num 0))
        ≡ (ok result, state [] (frame ∷ frame' ∷ []) (num 0)))
get_ip-IsAnswer_example =
    get_ip-IsAnswer ip_message dns_message [] [] (num 0) 0x0a000001 0 0 [] 0 (0 ∷ 0 ∷ 0 ∷ 0 ∷ []) 0
      servers tail (omega arith) (omega arith) (omega arith) refl refl servers-IsServer refl
      ip_message-IsAnswer dns_message-IsAnswer

-- A body that can be packed, for a call of the table.
request-pack-IsMessage_example : Ensures IsMessage (
    pack (codes "BHs4") (int 7 ∷ int 300 ∷ bytes (1 ∷ 2 ∷ []) ∷ []) >>= λ body.
    request (name "UtaMsSmsInit") body true)
request-pack-IsMessage_example =
    request-pack-IsMessage (codes "BHs4") (int 7 ∷ int 300 ∷ bytes (1 ∷ 2 ∷ []) ∷ [])
      (name "UtaMsSmsInit") true

-- Only the second file is there, and a modem that says nothing.
abbrev exists : String → Bool
exists file = text_eq file "/dev/wwan0xmmrpc0"

abbrev os_open : String → Result (List Bytes)
os_open file = ok []

script-Ran_example :
    Ran (script (λ bs. bs) exists os_open)
    × Opened exists os_open (script (λ bs. bs) exists os_open).1
script-Ran_example = script-Ran (λ bs. bs) exists os_open (λ file e. cc)
