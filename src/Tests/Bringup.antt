-- ===== src/Tests/Bringup.antt =====
-- The bring-up script with a modem that answers everything, and the theorems on it.
use xmm7360_mvp.Prelude.{
  ℕ, zero, suc, ◌≡◌, ◌≢◌, refl, List, [], ◌∷◌, ◌++◌, replicate, codes, true, false, ◌⊎◌, length,
}
use xmm7360_mvp.Result.{Result, ok, err, out_of_fuel}
use xmm7360_mvp.Bytes.{Bytes, le_bytes, be_bytes}
use xmm7360_mvp.Rpc.Take.{unpack, unpack_unknown}
use xmm7360_mvp.Rpc.Pack.{pack, asn_int4}
use xmm7360_mvp.Rpc.Message.{request, handle_message, handle_unsolicited, unsol_is, field_at}
use xmm7360_mvp.Rpc.Format.{format_unknown}
use xmm7360_mvp.Rpc.CallIds.{call_ids}
use xmm7360_mvp.Rpc.UnsolTable.{xmm7360_unsol}
use xmm7360_mvp.Rpc.Calls.{
  Dns, pack_uta_ms_net_attach_req, pack_uta_ms_call_ps_attach_apn_config_req,
  pack_uta_ms_call_ps_connect_req, pack_uta_rpc_ps_connect_to_datachannel_req,
  pack_uta_ms_call_ps_get_neg_ip_addr_req, pack_uta_ms_call_ps_get_negotiated_dns_req,
  unpack_uta_ms_call_ps_get_neg_ip_addr_req, unpack_uta_ms_call_ps_get_negotiated_dns_req,
}
use xmm7360_mvp.Rpc.Fcc.{do_fcc_unlock}
use xmm7360_mvp.Rpc.Session.{
  Modem, pump, await_response, execute, execute_default, uta_mode_set, await_mode, get_ip,
  last_nonzero,
}
use xmm7360_mvp.Bringup.{
  Config, attach_failed, request_attach, wait_allowed, attach_network, establish, Change,
  flush_addr, link_up, add_addr, add_default_route, resolv_header, nameserver_v4, plan, bring_up,
  attempt, init_calls, fetch_ip, perform, connect,
}
use xmm7360_mvp.Bringup.Protocol.{Stage, unlock, Talk}
use xmm7360_mvp.Bringup.Host.{bring_up-Talked, Applied, bring_up-changes}
use xmm7360_mvp.Bringup.Attach.{AttachedAs, attach_network-AttachedAs}
use xmm7360_mvp.Tests.Modem.{message, n4, modem, sevens}

-- An answer to a call without and with a transaction of its own.
abbrev sync_reply : Bytes
sync_reply = message 0x1e 0x11000100 (n4 0)

abbrev async_reply : Bytes → Bytes
async_reply body = message 0x1e 0x11000101 (n4 0x11000101 ++ body)

abbrev allowed : Bytes
allowed = message 0x06c 0 (n4 0 ++ (n4 0 ++ n4 1))

-- A string field of the bytes, without padding.
abbrev text : Bytes → Bytes
text bs = (0x55 ∷ length bs ∷ []) ++ (n4 (length bs) ++ (n4 0 ++ bs))

abbrev unlocked_reply : Bytes
unlocked_reply = async_reply (n4 0 ++ (n4 1 ++ n4 1))

-- 10.20.30.40 in the second place.
abbrev ip_reply : Bytes
ip_reply = async_reply (
    n4 0
    ++ (text (0 ∷ 0 ∷ 0 ∷ 0 ∷ 10 ∷ 20 ∷ 30 ∷ 40 ∷ 0 ∷ 0 ∷ 0 ∷ 0 ∷ [])
        ++ (n4 0 ++ (n4 0 ++ (n4 0 ++ n4 0)))))

abbrev empty_servers : ℕ → Bytes
empty_servers zero = []
empty_servers (suc n) = text [] ++ (n4 0 ++ empty_servers n)

-- 8.8.8.8 is the name server.
abbrev dns_reply : Bytes
dns_reply = async_reply (
    n4 0
    ++ (text (8 ∷ 8 ∷ 8 ∷ 8 ∷ [])
        ++ (n4 1
            ++ (empty_servers 15 ++ (n4 0 ++ (text [] ++ (n4 0 ++ (n4 0 ++ (n4 0 ++ n4 0)))))))))

-- The first attach request is refused; then the modem allows attaching.
abbrev attach_replies : List Bytes
attach_replies = async_reply (n4 0 ++ n4 attach_failed) ∷ allowed ∷ async_reply (n4 0 ++ n4 0) ∷ []

abbrev all_replies : List Bytes
all_replies =
    (unlocked_reply ∷ replicate 7 sync_reply)
    ++ ((unlocked_reply
          ∷ message 0x12f 0x11000100 (n4 0)
          ∷ message 0x12d 0 (n4 1)
          ∷ async_reply (n4 0)
          ∷ [])
        ++ (attach_replies
            ++ (ip_reply ∷ dns_reply ∷ async_reply (n4 0) ∷ sync_reply ∷ sync_reply ∷ [])))

abbrev config : Config
config = record {
  apn = codes "web";
  nodefaultroute = false;
  metric = 1000;
  noresolv = false;
  dbus = true;
}

abbrev willing : Change → Result (Unit {0})
willing _ = ok tt

-- Attaching: one refusal, one notice, one answer.
abbrev attached : Modem
attached = (attach_network (modem attach_replies)).1

attach_ok : attach_network (modem attach_replies) ≡ (ok tt, attached)
unfolding attach_network request_attach wait_allowed pack execute await_response request asn_int4
    call_ids pump handle_message handle_unsolicited format_unknown unpack_unknown xmm7360_unsol
    le_bytes be_bytes unsol_is field_at unpack pack_uta_ms_net_attach_req
attach_ok = refl

attach_network-AttachedAs_example : AttachedAs (modem attach_replies) attached
attach_network-AttachedAs_example =
    attach_network-AttachedAs (modem attach_replies) attached attach_ok

bring_up-Talked_example :
    (q : Stage) × Talk
      (unlock false 0)
      q
      (modem all_replies)
      (bring_up willing sevens config (3 ∷ []) (modem all_replies)).modem
    × ((bring_up willing sevens config (3 ∷ []) (modem all_replies)).result ≢ err out_of_fuel)
bring_up-Talked_example =
    bring_up-Talked willing (λ c. λ e. cc e) sevens config (3 ∷ []) (modem all_replies)

bring_up-changes_example :
    ((bring_up willing sevens config (3 ∷ []) (modem all_replies)).changes ≡ [])
    ⊎ Applied willing config
        (3 ∷ [])
        (bring_up willing sevens config (3 ∷ []) (modem all_replies)).changes
        (establish sevens config (modem all_replies)).0
bring_up-changes_example = bring_up-changes willing sevens config (3 ∷ []) (modem all_replies)

abbrev given : ℕ × Dns
given = (0x0a141e28, record { v4 = 0x08080808 ∷ []; v6 = [] })

abbrev host_changes : List Change
host_changes =
    flush_addr 3
    ∷ link_up 3
    ∷ add_addr 3 0x0a141e28
    ∷ add_default_route 1000 3
    ∷ resolv_header
    ∷ nameserver_v4 0x08080808
    ∷ []

brought_up :
    ((bring_up willing sevens config (3 ∷ []) (modem all_replies)).result ≡ ok given)
    × ((bring_up willing sevens config (3 ∷ []) (modem all_replies)).changes ≡ host_changes)
    × ((bring_up willing sevens config (3 ∷ []) (modem all_replies)).modem.inbox ≡ [])
unfolding bring_up establish attempt do_fcc_unlock init_calls uta_mode_set await_mode attach_network
    request_attach wait_allowed fetch_ip get_ip last_nonzero perform plan connect execute_default
    execute await_response request pack asn_int4 call_ids pump handle_message handle_unsolicited
    format_unknown unpack_unknown xmm7360_unsol le_bytes be_bytes unsol_is field_at unpack
    pack_uta_ms_net_attach_req pack_uta_ms_call_ps_attach_apn_config_req
    pack_uta_ms_call_ps_connect_req pack_uta_rpc_ps_connect_to_datachannel_req
    pack_uta_ms_call_ps_get_neg_ip_addr_req pack_uta_ms_call_ps_get_negotiated_dns_req
    unpack_uta_ms_call_ps_get_neg_ip_addr_req unpack_uta_ms_call_ps_get_negotiated_dns_req
brought_up = (refl, refl, refl)
