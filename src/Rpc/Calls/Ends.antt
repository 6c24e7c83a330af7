-- ===== src/Rpc/Calls/Ends.antt =====
-- About the fuel of the requests and replies.
use xmm7360_mvp.Prelude.{ℕ, zero, suc, List, [], ◌∷◌, arith}
use xmm7360_mvp.Result.Ends.{Ends-of_ne, Finishes, finish_rules}
use xmm7360_mvp.Bytes.{Bytes}
use xmm7360_mvp.Rpc.Take.{Field, num, str}
use xmm7360_mvp.Rpc.Take.Ends.{unpack-Ends}
use xmm7360_mvp.Rpc.Pack.Ends.{pack-Ends}
use xmm7360_mvp.Rpc.Calls.{
  Dns, encode_ascii, int_of_hex, bytes_to_ipv4, bytes_to_ipv6, second_of_six, field_bytes,
  add_server, dns_loop, pack_uta_ms_call_ps_attach_apn_config_req, pack_uta_ms_net_attach_req,
  pack_uta_ms_call_ps_connect_req, pack_uta_rpc_ps_connect_to_datachannel_req,
  pack_uta_ms_call_ps_get_neg_ip_addr_req, pack_uta_ms_call_ps_get_negotiated_dns_req,
  unpack_uta_ms_call_ps_get_neg_ip_addr_req, unpack_uta_ms_call_ps_get_negotiated_dns_req,
}

encode_ascii-Ends : (cs : List ℕ) → Finishes (encode_ascii cs)
unfolding encode_ascii
encode_ascii-Ends [] = search finish_rules
encode_ascii-Ends (c ∷ cs) = search (finish_rules, encode_ascii-Ends cs)

ruleset call_rules = (finish_rules, encode_ascii-Ends, pack-Ends, unpack-Ends)

pub apn_config_req-Ends : (apn : List ℕ) → Finishes (pack_uta_ms_call_ps_attach_apn_config_req apn)
unfolding pack_uta_ms_call_ps_attach_apn_config_req
apn_config_req-Ends apn = search call_rules

pub datachannel_req-Ends :
    (path : List ℕ) → Finishes (pack_uta_rpc_ps_connect_to_datachannel_req path)
unfolding pack_uta_rpc_ps_connect_to_datachannel_req
datachannel_req-Ends path = search call_rules

pub net_attach_req-Ends : Finishes pack_uta_ms_net_attach_req
unfolding pack_uta_ms_net_attach_req
net_attach_req-Ends = search call_rules

pub connect_req-Ends : Finishes pack_uta_ms_call_ps_connect_req
unfolding pack_uta_ms_call_ps_connect_req
connect_req-Ends = search call_rules

pub neg_ip_addr_req-Ends : Finishes pack_uta_ms_call_ps_get_neg_ip_addr_req
unfolding pack_uta_ms_call_ps_get_neg_ip_addr_req
neg_ip_addr_req-Ends = search call_rules

pub negotiated_dns_req-Ends : Finishes pack_uta_ms_call_ps_get_negotiated_dns_req
unfolding pack_uta_ms_call_ps_get_negotiated_dns_req
negotiated_dns_req-Ends = search call_rules

int_of_hex-Ends : (bs : Bytes) → Finishes (int_of_hex bs)
unfolding int_of_hex
int_of_hex-Ends [] = search finish_rules
int_of_hex-Ends (b ∷ bs) = search finish_rules

bytes_to_ipv4-Ends : (bs : Bytes) → Finishes (bytes_to_ipv4 bs)
unfolding bytes_to_ipv4
bytes_to_ipv4-Ends bs = search (finish_rules, int_of_hex-Ends)

bytes_to_ipv6-Ends : (bs : Bytes) → Finishes (bytes_to_ipv6 bs)
unfolding bytes_to_ipv6
bytes_to_ipv6-Ends bs = search (finish_rules, int_of_hex-Ends)

second_of_six-Ends : (xs : List Field) → Finishes (second_of_six xs)
second_of_six-Ends xs = Ends-of_ne (second_of_six xs) (λ e. ground arith)

field_bytes-Ends : (x : Field) → Finishes (field_bytes x)
field_bytes-Ends (num n) = search finish_rules
field_bytes-Ends (str s) = search finish_rules

ruleset reply_rules =
    (call_rules, second_of_six-Ends, field_bytes-Ends, bytes_to_ipv4-Ends, bytes_to_ipv6-Ends)

pub neg_ip_addr-Ends : (reply : Bytes) → Finishes (unpack_uta_ms_call_ps_get_neg_ip_addr_req reply)
unfolding unpack_uta_ms_call_ps_get_neg_ip_addr_req
neg_ip_addr-Ends reply = search reply_rules depth 10

add_server-Ends : (address typ : Field) (dns : Dns) → Finishes (add_server address typ dns)
unfolding add_server
add_server-Ends address (str s) dns = search reply_rules
add_server-Ends address (num typ) dns = search reply_rules depth 8

dns_loop-Ends : (n : ℕ) (vals : List Field) (dns : Dns) → Finishes (dns_loop n vals dns)
unfolding dns_loop
dns_loop-Ends zero vals dns = search finish_rules
dns_loop-Ends (suc n) [] dns = search finish_rules
dns_loop-Ends (suc n) (x ∷ []) dns = search finish_rules
dns_loop-Ends (suc n) (x ∷ y ∷ vals) dns =
    search (finish_rules, add_server-Ends, dns_loop-Ends n vals)

pub negotiated_dns-Ends :
    (reply : Bytes) → Finishes (unpack_uta_ms_call_ps_get_negotiated_dns_req reply)
unfolding unpack_uta_ms_call_ps_get_negotiated_dns_req
negotiated_dns-Ends reply = search (reply_rules, dns_loop-Ends)
