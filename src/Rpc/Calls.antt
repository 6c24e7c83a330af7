-- ===== src/Rpc/Calls.antt =====
-- The requests and replies of rpc.py: the `pack_…` and `unpack_…` functions of each call.
pub mod Ends
pub mod Replies
use xmm7360_mvp.Prelude.{
  ℕ, zero, suc, ◌^◌, ◌==◌, List, [], ◌∷◌, ◌++◌, take, drop, replicate, ltb, length, codes,
  if◌then◌else◌,
}
use xmm7360_mvp.Result.{Result, ok, err, ◌>>=◌, ◌>>◌, check, value, type}
use xmm7360_mvp.Bytes.{Bytes, from_be_acc}
use xmm7360_mvp.Rpc.Take.{Field, num, str, unpack}
use xmm7360_mvp.Rpc.Pack.{Arg, int, bytes, pack}

abbrev pub zeros : ℕ → Arg
zeros n = bytes (replicate n 0)

-- `text.encode('ascii')`, on the code points of the text.
unfoldable pub encode_ascii : List ℕ → Result Bytes
encode_ascii [] = ok []
encode_ascii (c ∷ cs) = do check (ltb c 128) value; rest ← encode_ascii cs; ok (c ∷ rest)

-- `int(binascii.hexlify(data), 16)`: no digits are a ValueError.
unfoldable pub int_of_hex : Bytes → Result ℕ
unfolding from_be_acc
int_of_hex [] = err value
int_of_hex (b ∷ bs) = ok (from_be_acc 0 (b ∷ bs))

-- An address is the number that `ipaddress` keeps for it, and out of range is a ValueError.
unfoldable pub bytes_to_ipv4 : Bytes → Result ℕ
unfolding int_of_hex
bytes_to_ipv4 bs = do n ← int_of_hex bs; check (ltb n (2 ^ 32)) value; ok n

unfoldable pub bytes_to_ipv6 : Bytes → Result ℕ
unfolding int_of_hex
bytes_to_ipv6 bs = do n ← int_of_hex bs; check (ltb n (2 ^ 128)) value; ok n

-- `apn_string = bytearray(101); apn_string[:len(apn)] = …`: a longer name makes it longer.
unfoldable pub fill_apn : Bytes → Bytes
fill_apn apn = apn ++ drop (length apn) (replicate 101 0)

abbrev pub apn_types : List ℕ
apn_types =
    codes "Bs260Ls66s65s250Bs252HLLLLLLLLLLLLLLLLLLLLLs20Ls104"
    ++ (codes "s260Ls66s65s250Bs252HLLLLLLLLLLLLLLLLLLLLLs20Ls104"
        ++ (codes "s260Ls66s65s250Bs252HLLLLLLLLLLLLLLLLLLLLLs20Ls104"
            ++ codes "s260Ls66s65s250Bs252HLLLLLLLLLLLLLLLLLLLLLs20Ls103BL"))

abbrev pub apn_args : Bytes → List Arg
apn_args apn_string =
    int 0
    ∷ zeros 257
    ∷ int 0
    ∷ zeros 65
    ∷ zeros 65
    ∷ zeros 250
    ∷ int 0
    ∷ zeros 250
    ∷ int 0
    ∷ int 0
    ∷ int 0
    ∷ int 0
    ∷ int 0
    ∷ int 0
    ∷ int 0
    ∷ int 0
    ∷ int 0
    ∷ int 0
    ∷ int 0
    ∷ int 0
    ∷ int 0
    ∷ int 0
    ∷ int 0
    ∷ int 0
    ∷ int 0
    ∷ int 0
    ∷ int 0
    ∷ int 0
    ∷ int 0
    ∷ int 0
    ∷ zeros 20
    ∷ int 0
    ∷ zeros 101
    ∷ zeros 257
    ∷ int 0
    ∷ zeros 65
    ∷ zeros 65
    ∷ zeros 250
    ∷ int 0
    ∷ zeros 250
    ∷ int 0
    ∷ int 0
    ∷ int 0
    ∷ int 0
    ∷ int 0
    ∷ int 0
    ∷ int 0
    ∷ int 0
    ∷ int 0
    ∷ int 0
    ∷ int 0
    ∷ int 0
    ∷ int 0
    ∷ int 0
    ∷ int 0
    ∷ int 0
    ∷ int 0
    ∷ int 0
    ∷ int 0
    ∷ int 0
    ∷ int 0
    ∷ int 0
    ∷ zeros 20
    ∷ int 0
    ∷ zeros 101
    ∷ zeros 257
    ∷ int 0
    ∷ zeros 65
    ∷ zeros 65
    ∷ zeros 250
    ∷ int 0
    ∷ zeros 250
    ∷ int 0
    ∷ int 0
    ∷ int 0
    ∷ int 0
    ∷ int 0
    ∷ int 1
    ∷ int 0
    ∷ int 0
    ∷ int 0
    ∷ int 0
    ∷ int 0
    ∷ int 0
    ∷ int 0
    ∷ int 1
    ∷ int 0
    ∷ int 0
    ∷ int 0x404
    ∷ int 1
    ∷ int 0
    ∷ int 1
    ∷ int 0
    ∷ int 0
    ∷ zeros 20
    ∷ int 3
    ∷ bytes apn_string
    ∷ zeros 257
    ∷ int 0
    ∷ zeros 65
    ∷ zeros 65
    ∷ zeros 250
    ∷ int 0
    ∷ zeros 250
    ∷ int 0
    ∷ int 0
    ∷ int 0
    ∷ int 0
    ∷ int 0
    ∷ int 1
    ∷ int 0
    ∷ int 0
    ∷ int 0
    ∷ int 0
    ∷ int 0
    ∷ int 0
    ∷ int 0
    ∷ int 1
    ∷ int 0
    ∷ int 0
    ∷ int 0x404
    ∷ int 1
    ∷ int 0
    ∷ int 1
    ∷ int 0
    ∷ int 0
    ∷ zeros 20
    ∷ int 3
    ∷ bytes apn_string
    ∷ int 3
    ∷ int 0
    ∷ []

unfoldable pub pack_uta_ms_call_ps_attach_apn_config_req : List ℕ → Result Bytes
unfolding encode_ascii fill_apn
pack_uta_ms_call_ps_attach_apn_config_req apn = do
  encoded ← encode_ascii apn
  pack apn_types (apn_args (fill_apn encoded))

unfoldable pub pack_uta_ms_net_attach_req : Result Bytes
pack_uta_ms_net_attach_req =
    pack (codes "BLLLLHHLL")
      (int 0 ∷ int 0 ∷ int 0 ∷ int 0 ∷ int 0 ∷ int 0xffff ∷ int 0xffff ∷ int 0 ∷ int 0 ∷ [])

unfoldable pub pack_uta_ms_call_ps_get_neg_ip_addr_req : Result Bytes
pack_uta_ms_call_ps_get_neg_ip_addr_req = pack (codes "BLL") (int 0 ∷ int 0 ∷ int 0 ∷ [])

-- `_, addresses, _, _, _, _ = …`
abbrev pub second_of_six : List Field → Result Field
second_of_six (_ ∷ x ∷ _ ∷ _ ∷ _ ∷ _ ∷ []) = ok x
second_of_six _ = err value

-- A slice of a field: an int cannot be sliced.
abbrev pub field_bytes : Field → Result Bytes
field_bytes (num n) = err type
field_bytes (str s) = ok s

unfoldable pub unpack_uta_ms_call_ps_get_neg_ip_addr_req : Bytes → Result (ℕ × ℕ × ℕ)
unpack_uta_ms_call_ps_get_neg_ip_addr_req reply = do
  fields ← unpack (codes "nsnnnn") reply
  field ← second_of_six fields
  addresses ← field_bytes field
  a1 ← bytes_to_ipv4 (take 4 addresses)
  a2 ← bytes_to_ipv4 (take 4 (drop 4 addresses))
  a3 ← bytes_to_ipv4 (take 4 (drop 8 addresses))
  ok (a1, a2, a3)

unfoldable pub pack_uta_ms_call_ps_get_negotiated_dns_req : Result Bytes
pack_uta_ms_call_ps_get_negotiated_dns_req = pack (codes "BLL") (int 0 ∷ int 0 ∷ int 0 ∷ [])

pub record Dns : Type 0 where
  pub v4 : List ℕ
  pub v6 : List ℕ

-- One round of the loop over the name servers: the address and its type.
unfoldable pub add_server : Field → Field → Dns → Result Dns
unfolding bytes_to_ipv4 bytes_to_ipv6
add_server address (str s) dns = ok dns
add_server address (num typ) dns =
    if typ == 1
    then (do
      a ← field_bytes address
      n ← bytes_to_ipv4 (take 4 a)
      ok (record dns { v4 = dns.v4 ++ (n ∷ []) }))
    else if typ == 2
    then (do
      a ← field_bytes address
      n ← bytes_to_ipv6 (take 16 a)
      ok (record dns { v6 = dns.v6 ++ (n ∷ []) }))
    else ok dns

-- `for i in range(16)` over `vals[1:]`; a slice that is too short does not unpack.
unfoldable pub dns_loop : ℕ → List Field → Dns → Result Dns
unfolding add_server
dns_loop (suc n) (address ∷ typ ∷ vals) dns = do
  dns' ← add_server address typ dns
  dns_loop n vals dns'
dns_loop zero vals dns = ok dns
dns_loop (suc n) vals dns = err value

-- `'n' + 'sn' * 16 + 'nsnnnn'`
abbrev pub dns_format : List ℕ
dns_format = codes "nsnsnsnsnsnsnsnsnsnsnsnsnsnsnsnsnnsnnnn"

unfoldable pub unpack_uta_ms_call_ps_get_negotiated_dns_req : Bytes → Result Dns
unfolding dns_loop
unpack_uta_ms_call_ps_get_negotiated_dns_req reply = do
  vals ← unpack dns_format reply
  dns_loop 16 (drop 1 vals) (record { v4 = []; v6 = [] })

unfoldable pub pack_uta_ms_call_ps_connect_req : Result Bytes
pack_uta_ms_call_ps_connect_req = pack (codes "BLLL") (int 0 ∷ int 6 ∷ int 0 ∷ int 0 ∷ [])

unfoldable pub pack_uta_rpc_ps_connect_to_datachannel_req : List ℕ → Result Bytes
unfolding encode_ascii
pack_uta_rpc_ps_connect_to_datachannel_req path = do
  encoded ← encode_ascii path
  pack (codes "s24") (bytes (encoded ++ (0 ∷ [])) ∷ [])

-- The default argument of the function above.
abbrev pub default_path : List ℕ
default_path = codes "/sioscc/PCIE/IOSM/IPS/0"

unfoldable pub pack_uta_sys_get_info : ℕ → Result Bytes
pack_uta_sys_get_info index = pack (codes "Ls0L") (int 0 ∷ bytes [] ∷ int index ∷ [])

-- `unpack('nns', body)[-1]`
unfoldable pub last_field : List Field → Result Field
last_field [] = err xmm7360_mvp.Result.index
last_field (x ∷ []) = ok x
last_field (x ∷ y ∷ xs) = last_field (y ∷ xs)

unfoldable pub unpack_uta_sys_get_info : Bytes → Result Field
unfolding last_field
unpack_uta_sys_get_info body = do fields ← unpack (codes "nns") body; last_field fields
