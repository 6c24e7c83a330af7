-- ===== src/Tests/Codec.antt =====
-- Runs of rpc.py's codec, the expected bytes of test_rpc.py among them, and its theorems at
-- concrete inputs.
use xmm7360_mvp.Prelude.{
  ◌<◌, ◌≡◌, ◌≢◌, refl, List, [], ◌∷◌, ◌++◌, replicate, arith, codes, none, some, lookup_name,
  lookup_code,
}
use xmm7360_mvp.Result.{Result, ok, err, assertion, value, index, struct, out_of_fuel}
use xmm7360_mvp.Bytes.{Bytes}
use xmm7360_mvp.Rpc.Take.{num, str, take_string, unpack_unknown, unpack}
use xmm7360_mvp.Rpc.Take.Agree.{unpack-unpack_unknown}
use xmm7360_mvp.Rpc.Take.Ends.{unpack_unknown-ne-out_of_fuel}
use xmm7360_mvp.Rpc.Pack.{Arg, int, bytes, pack, pack_string}
use xmm7360_mvp.Rpc.Pack.RoundTrip.{field_of, unpack_unknown-pack}
use xmm7360_mvp.Rpc.Pack.Ends.{pack-ne-out_of_fuel}
use xmm7360_mvp.Rpc.Pack.Long.{take_string-pack_long}
use xmm7360_mvp.Rpc.Format.{format_unknown}
use xmm7360_mvp.Rpc.CallIds.{call_ids}
use xmm7360_mvp.Rpc.UnsolTable.{xmm7360_unsol}
use xmm7360_mvp.Rpc.Tables.{call_ids_apart}
use xmm7360_mvp.Rpc.Calls.{
  pack_uta_ms_net_attach_req, pack_uta_ms_call_ps_get_neg_ip_addr_req,
  pack_uta_ms_call_ps_connect_req, pack_uta_rpc_ps_connect_to_datachannel_req, default_path,
}

abbrev long0 : Bytes
long0 = 0x02 ∷ 0x04 ∷ 0 ∷ 0 ∷ 0 ∷ 0 ∷ []

abbrev byte0 : Bytes
byte0 = 0x02 ∷ 0x01 ∷ 0 ∷ []

net_attach_req_bytes :
    pack_uta_ms_net_attach_req
    ≡ ok (
        byte0
        ++ (long0
            ++ (long0
                ++ (long0
                    ++ (long0
                        ++ (0x02
                            ∷ 0x02
                            ∷ 0xff
                            ∷ 0xff
                            ∷ 0x02
                            ∷ 0x02
                            ∷ 0xff
                            ∷ 0xff
                            ∷ (long0 ++ long0)))))))
unfolding pack_uta_ms_net_attach_req pack
net_attach_req_bytes = refl

neg_ip_addr_req_bytes : pack_uta_ms_call_ps_get_neg_ip_addr_req ≡ ok (byte0 ++ (long0 ++ long0))
unfolding pack_uta_ms_call_ps_get_neg_ip_addr_req pack
neg_ip_addr_req_bytes = refl

connect_req_bytes :
    pack_uta_ms_call_ps_connect_req ≡ ok (byte0 ++ (0x02 ∷ 0x04 ∷ 0 ∷ 0 ∷ 0 ∷ 6 ∷ (long0 ++ long0)))
unfolding pack_uta_ms_call_ps_connect_req pack
connect_req_bytes = refl

datachannel_req_bytes :
    pack_uta_rpc_ps_connect_to_datachannel_req default_path
    ≡ ok (
        0x55
        ∷ 0x18
        ∷ 0x02
        ∷ 0x04
        ∷ 0
        ∷ 0
        ∷ 0
        ∷ 0x18
        ∷ (long0 ++ (codes "/sioscc/PCIE/IOSM/IPS/0" ++ (0 ∷ []))))
unfolding pack_uta_rpc_ps_connect_to_datachannel_req pack
datachannel_req_bytes = refl

-- An element type of eight bytes has no field type.
native_long_refused : pack (codes "SL3") (bytes (1 ∷ []) ∷ []) ≡ err xmm7360_mvp.Result.key
unfolding pack
native_long_refused = refl

too_many_args : pack (codes "B") (int 1 ∷ int 2 ∷ []) ≡ err value
unfolding pack
too_many_args = refl

too_few_args : pack (codes "BB") (int 1 ∷ []) ≡ err index
unfolding pack
too_few_args = refl

byte_overflow : pack (codes "B") (int 256 ∷ []) ≡ err struct
unfolding pack
byte_overflow = refl

string_overflow : pack (codes "s2") (bytes (1 ∷ 2 ∷ 3 ∷ []) ∷ []) ≡ err assertion
unfolding pack
string_overflow = refl

unknown_tag : unpack_unknown (0x03 ∷ []) ≡ err value
unfolding unpack_unknown
unknown_tag = refl

formatted :
    format_unknown (0x02 ∷ 0x02 ∷ 1 ∷ 0 ∷ 0x55 ∷ 2 ∷ 2 ∷ 1 ∷ 2 ∷ 2 ∷ 1 ∷ 0 ∷ 39 ∷ 7 ∷ [])
    ≡ ok (codes "0x100, bytearray(b\"\\'\\x07\")")
unfolding format_unknown unpack_unknown
formatted = refl

abbrev some_args : List Arg
some_args = int 7 ∷ bytes (1 ∷ 2 ∷ 3 ∷ []) ∷ int 0x1234 ∷ []

abbrev some_bytes : Bytes
some_bytes =
    0x02 ∷ 0x01 ∷ 7 ∷ 0x55 ∷ 3 ∷ 0x02 ∷ 0x04 ∷ 0 ∷ 0 ∷ 0 ∷ 5 ∷ 0x02 ∷ 0x04 ∷ 0 ∷ 0 ∷ 0 ∷ 2 ∷ 1 ∷ 2
    ∷ 3 ∷ 0 ∷ 0 ∷ 0x02 ∷ 0x02 ∷ 0x12 ∷ 0x34 ∷ []

some_packed : pack (codes "Bs5H") some_args ≡ ok some_bytes
unfolding pack
some_packed = refl

unpack_unknown-pack_example :
    unpack_unknown some_bytes
    ≡ ok (field_of (int 7) ∷ field_of (bytes (1 ∷ 2 ∷ 3 ∷ [])) ∷ field_of (int 0x1234) ∷ [])
unpack_unknown-pack_example =
    unpack_unknown-pack (codes "Bs5H") some_args (omega arith) (tt, (omega arith, (tt, tt)))
      some_packed

some_read : unpack_unknown some_bytes ≡ ok (num 7 ∷ str (1 ∷ 2 ∷ 3 ∷ []) ∷ num 0x1234 ∷ [])
unfolding unpack_unknown
some_read = refl

unpack-unpack_unknown_example :
    unpack (codes "nsn") some_bytes ≡ ok (num 7 ∷ str (1 ∷ 2 ∷ 3 ∷ []) ∷ num 0x1234 ∷ [])
unpack-unpack_unknown_example =
    unpack-unpack_unknown some_bytes (num 7 ∷ str (1 ∷ 2 ∷ 3 ∷ []) ∷ num 0x1234 ∷ []) some_read

unpack_unknown-ne-out_of_fuel_example : unpack_unknown some_bytes ≢ err out_of_fuel
unpack_unknown-ne-out_of_fuel_example = unpack_unknown-ne-out_of_fuel some_bytes

pack-ne-out_of_fuel_example : pack (codes "Bs5H") some_args ≢ err out_of_fuel
pack-ne-out_of_fuel_example = pack-ne-out_of_fuel (codes "Bs5H") some_args

-- 258 zeros: the length is written as 1, 2 and read as 2 * 256 + 1.
abbrev long_piece : Bytes
long_piece =
    0x55
    ∷ 0x82
    ∷ 1
    ∷ 2
    ∷ 0x02
    ∷ 0x04
    ∷ 0
    ∷ 0
    ∷ 1
    ∷ 4
    ∷ 0x02
    ∷ 0x04
    ∷ 0
    ∷ 0
    ∷ 0
    ∷ 2
    ∷ replicate 260 0

long_packed : pack_string (bytes (replicate 258 0)) (codes "260") b'B' ≡ ok (long_piece, [])
unfolding pack_string
long_packed = refl

take_string-pack_long_example : take_string (long_piece ++ (9 ∷ [])) ≡ err assertion
take_string-pack_long_example =
    take_string-pack_long (replicate 258 0) (codes "260") (9 ∷ []) (omega arith) (omega arith)
      (omega arith) long_packed

fcc_query_id : lookup_name "CsiFccLockQueryReq" call_ids ≡ some 0x18e
unfolding lookup_name call_ids
fcc_query_id = refl

call_ids_apart_example : (0x18e < 2000) × (lookup_code 0x18e xmm7360_unsol ≡ none)
call_ids_apart_example = call_ids_apart "CsiFccLockQueryReq" 0x18e fcc_query_id
