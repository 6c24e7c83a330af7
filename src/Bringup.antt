-- ===== src/Bringup.antt =====
-- src/rpc/open_xdatachannel.py up to the data channel: `establish` gets the modem to give an address,
-- `plan` is what is then changed on the host, and `connect` opens the channel. The options and the
-- answers of the host (netlink, the resolver's file) are parameters.
pub mod Protocol
pub mod Follows
pub mod Unlock
pub mod Talks
pub mod Address
pub mod Host
pub mod Attach
use xmm7360_mvp.Prelude.{
  ℕ, zero, suc, ◌+◌, ◌-◌, ◌==◌, Bool, true, false, not, Option, none, some, List, [], ◌∷◌, ◌++◌,
  map, length, take, codes, if◌then◌else◌,
}
use xmm7360_mvp.Result.{Result, Error, ok, err, exit, index, value, blocked, out_of_fuel}
use xmm7360_mvp.Bytes.{Bytes}
use xmm7360_mvp.Rpc.Take.{Field, num, str, unpack}
use xmm7360_mvp.Rpc.Message.{name}
use xmm7360_mvp.Rpc.Calls.{
  Dns, pack_uta_ms_call_ps_attach_apn_config_req, pack_uta_ms_net_attach_req,
  pack_uta_ms_call_ps_connect_req, pack_uta_rpc_ps_connect_to_datachannel_req, default_path,
}
use xmm7360_mvp.Rpc.Session.{
  Modem, M, pure, raise, lift, step, ◌>>=◌, ◌>>◌, pump, execute, execute_default, uta_mode_set,
  get_ip,
}
use xmm7360_mvp.Rpc.Fcc.{do_fcc_unlock}

-- The options that the script reads; waiting between two attempts changes nothing.
pub record Config : Type 0 where
  pub apn : List ℕ
  pub nodefaultroute : Bool
  pub metric : ℕ
  pub noresolv : Bool
  pub dbus : Bool

-- What `except Exception` lets pass: SystemExit, and what is no exception of Python's.
abbrev pub passes : Error → Bool
passes exit = true
passes blocked = true
passes out_of_fuel = true
passes _ = false

-- `try: …; except Exception: …`, where the handler only prints.
abbrev pub caught : Result (Unit {0}) × Modem → Result (Unit {0}) × Modem
caught (ok a, t) = (ok tt, t)
caught (err e, t) = (if passes e then err e else ok tt, t)

unfoldable pub attempt : M (Unit {0}) → M (Unit {0})
attempt m s = caught (m s)

-- The truth of a Python value.
abbrev pub truthy : Field → Bool
truthy (num zero) = false
truthy (num (suc n)) = true
truthy (str []) = false
truthy (str (b ∷ bs)) = true

abbrev pub status_field : List Field → Result ℕ
status_field (_ ∷ num status ∷ []) = ok status
status_field _ = err value

-- One attach request, with its status.
unfoldable pub request_attach : M ℕ
request_attach = do
  body ← lift pack_uta_ms_net_attach_req
  attach ← execute (name "UtaMsNetAttachReq") body true
  fields ← lift (unpack (codes "nn") attach.body)
  lift (status_field fields)

-- `while not r.attach_allowed: r.pump()`, with fuel.
unfoldable pub wait_allowed : ℕ → M (Unit {0})
wait_allowed zero = raise out_of_fuel
wait_allowed (suc fuel) = λ s. elim (truthy s.attach_allowed) [
  | true ↦ (ok tt, s)
  | false ↦ step (pump s) (λ _. wait_allowed fuel)
]

abbrev pub attach_failed : ℕ
attach_failed = 0xffffffff

unfoldable pub attach_network : M (Unit {0})
attach_network = do
  status ← request_attach
  elim (status == attach_failed) [
    | true ↦ (do
      λ s. wait_allowed (suc (length s.inbox)) s
      status' ← request_attach
      elim (status' == attach_failed) [ true ↦ raise exit | false ↦ pure tt ])
    | false ↦ pure tt
  ]

-- `while True: ip_addr, dns_values = rpc.get_ip(r)`, with fuel.
unfoldable pub fetch_ip : ℕ → M (ℕ × Dns)
fetch_ip zero = raise out_of_fuel
fetch_ip (suc fuel) = do found ← get_ip; elim found [ none ↦ fetch_ip fuel | some p ↦ pure p ]

unfoldable pub init_calls : M (Unit {0})
init_calls = do
  _ ← execute_default "UtaMsSmsInit" false
  _ ← execute_default "UtaMsCbsInit" false
  _ ← execute_default "UtaMsNetOpen" false
  _ ← execute_default "UtaMsCallCsInit" false
  _ ← execute_default "UtaMsCallPsInitialize" false
  _ ← execute_default "UtaMsSsInit" false
  _ ← execute_default "UtaMsSimOpenReq" false
  pure tt

module _ (sha256 : Bytes → Bytes) where
  unfoldable pub establish : Config → M (ℕ × Dns)
  establish cfg = do
    attempt (do_fcc_unlock sha256)
    init_calls
    do_fcc_unlock sha256
    uta_mode_set 1
    body ← lift (pack_uta_ms_call_ps_attach_apn_config_req cfg.apn)
    _ ← execute (name "UtaMsCallPsAttachApnConfigReq") body true
    attach_network
    λ s. fetch_ip (suc (length s.inbox)) s

-- A change of the host, in the script's order: the calls of IPRoute, and the lines of resolv.conf.
pub data Change : Type 0 where
  flush_addr : ℕ → Change
  link_up : ℕ → Change
  add_addr : ℕ → ℕ → Change
  add_default_route : ℕ → ℕ → Change
  resolv_header : Change
  nameserver_v4 nameserver_v6 : ℕ → Change

-- `ipr.link_lookup(ifname='wwan0')[0]`
abbrev pub first_link : List ℕ → Result ℕ
first_link [] = err index
first_link (idx ∷ links) = ok idx

abbrev pub route_changes : Config → ℕ → List Change
route_changes cfg idx = if cfg.nodefaultroute then [] else add_default_route cfg.metric idx ∷ []

abbrev pub resolv_changes : Config → Dns → List Change
resolv_changes cfg dns =
    if cfg.noresolv
    then []
    else resolv_header ∷ (map nameserver_v4 dns.v4 ++ map nameserver_v6 dns.v6)

unfoldable pub plan : Config → ℕ → ℕ → Dns → List Change
plan cfg idx addr dns =
    flush_addr idx
    ∷ link_up idx
    ∷ add_addr idx addr
    ∷ (route_changes cfg idx ++ resolv_changes cfg dns)

unfoldable pub connect : M (Unit {0})
connect = do
  pscr_body ← lift pack_uta_ms_call_ps_connect_req
  pscr ← execute (name "UtaMsCallPsConnectReq") pscr_body true
  dcr_body ← lift (pack_uta_rpc_ps_connect_to_datachannel_req default_path)
  dcr ← execute (name "UtaRPCPsConnectToDatachannelReq") dcr_body false
  let csr_req =
      take (length pscr.body - 6) pscr.body ++ (dcr.body ++ (0x02 ∷ 0x04 ∷ 0 ∷ 0 ∷ 0 ∷ 0 ∷ []))
  _ ← execute (name "UtaRPCPSConnectSetupReq") csr_req false
  pure tt

-- How the script ends, the modem then, and the changes that were made.
pub record Outcome : Type 0 where
  pub result : Result (ℕ × Dns)
  pub modem : Modem
  pub changes : List Change

-- Without `--dbus` the script exits when the channel is open.
abbrev pub after_connect : Config → ℕ × Dns → List Change → Result (Unit {0}) × Modem → Outcome
after_connect cfg got made (ok _, u) = record {
  result = if cfg.dbus then ok got else err exit;
  modem = u;
  changes = made;
}
after_connect cfg got made (err e, u) = record { result = err e; modem = u; changes = made }

abbrev pub after_perform : Config → ℕ × Dns → Modem → Result (Unit {0}) × List Change → Outcome
after_perform cfg got t (ok _, made) = after_connect cfg got made (connect t)
after_perform cfg got t (err e, made) = record { result = err e; modem = t; changes = made }

-- A change that is refused ends the script.
abbrev pub on_answer :
    Change → Result (Unit {0}) → Result (Unit {0}) × List Change → Result (Unit {0}) × List Change
on_answer c (ok _) later = (later.0, c ∷ later.1)
on_answer c (err e) later = (err e, [])

-- `host` is what the host answers to a change: it makes it, or raises.
module _ (host : Change → Result (Unit {0})) where
  unfoldable pub perform : List Change → Result (Unit {0}) × List Change
  perform [] = (ok tt, [])
  perform (c ∷ cs) = on_answer c (host c) (perform cs)

  abbrev pub after_lookup : Config → ℕ × Dns → Modem → Result ℕ → Outcome
  after_lookup cfg got t (ok idx) = after_perform cfg got t (perform (plan cfg idx got.0 got.1))
  after_lookup cfg got t (err e) = record { result = err e; modem = t; changes = [] }

  abbrev pub after_establish : Config → List ℕ → Result (ℕ × Dns) × Modem → Outcome
  after_establish cfg links (ok got, t) = after_lookup cfg got t (first_link links)
  after_establish cfg links (err e, t) = record { result = err e; modem = t; changes = [] }

  -- The script, with what the host lists as `wwan0`.
  unfoldable pub bring_up : (Bytes → Bytes) → Config → List ℕ → Modem → Outcome
  bring_up sha256 cfg links s = after_establish cfg links (establish sha256 cfg s)
