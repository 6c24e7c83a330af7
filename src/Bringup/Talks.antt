-- ===== src/Bringup/Talks.antt =====
-- `establish` and `connect` in the protocol.
use xmm7360_mvp.Prelude.{
  ℕ, zero, suc, ◌<◌, ◌≡◌, refl, ap, arith, Bool, true, false, ◌==◌, Bool-cases, Option, none, some,
  List, [], ◌∷◌, length, codes, inl, inr,
}
use mathlib.Core.Path.{subst}
use xmm7360_mvp.Result.{Result, ok, err, exit}
use xmm7360_mvp.Result.Ends.{Ends, returns, raises, Ends-of_ne}
use xmm7360_mvp.Bytes.{Bytes}
use xmm7360_mvp.Rpc.Take.{Field}
use xmm7360_mvp.Rpc.Take.Ends.{unpack-Ends}
use xmm7360_mvp.Rpc.Calls.{Dns, default_path}
use xmm7360_mvp.Rpc.Calls.Ends.{
  apn_config_req-Ends, datachannel_req-Ends, net_attach_req-Ends, connect_req-Ends,
  neg_ip_addr_req-Ends, neg_ip_addr-Ends, negotiated_dns_req-Ends, negotiated_dns-Ends,
}
use xmm7360_mvp.Rpc.Session.{Modem, M, pure, get_ip, last_nonzero, with_dns}
use xmm7360_mvp.Rpc.Session.Effects.{
  Holds, gave, threw, Holds-step, Holds-weaken, Holds-both, Quiet, Quiet-refl, Quiet-trans,
  pump-Holds,
}
use xmm7360_mvp.Rpc.Session.Lookup.{get_ip-shorter}
use xmm7360_mvp.Rpc.Fcc.{do_fcc_unlock}
use xmm7360_mvp.Bringup.{
  Config, passes, caught, attempt, truthy, status_field, request_attach, wait_allowed,
  attach_failed, attach_network, fetch_ip, init_calls, establish, connect,
}
use xmm7360_mvp.Bringup.Protocol.{
  Stage, unlock, init, mode_asked, apn_set, attach_asked, ip_asked, dns_asked, set_up, Step, query,
  sms_init, cbs_init, net_open, call_cs_init, call_ps_initialize, ss_init, sim_open, query_again,
  set_apn, attach, attach_again, ask_ip, ask_dns, ask_ip_again, connect_ps, open_datachannel, setup,
  Talk, Talk-trans,
}
use xmm7360_mvp.Bringup.Follows.{
  Follows, Follows-bind, Follows-lift, Follows-Quiet, Follows-pure, Follows-raise, Follows-execute,
  Follows-execute_default, Follows-at, Follows-if,
}
use xmm7360_mvp.Bringup.Unlock.{Unlocking, Anywhere, do_fcc_unlock-Follows, uta_mode_set-Follows}

caught-Unlocking :
    (s : Modem) (r : Result (Unit {0}) × Modem)
    → Holds
        (λ _ t. (q : Stage) × Unlocking false q × Talk (unlock false 0) q s t)
        (λ t. (q : Stage) × Unlocking false q × Talk (unlock false 0) q s t)
        r
    → Holds
        (λ _ t. (q : Stage) × Unlocking false q × Talk (unlock false 0) q s t)
        (λ t. (q : Stage) × Unlocking false q × Talk (unlock false 0) q s t)
        (caught r)
caught-Unlocking s (ok a, t) (gave h) = gave h
caught-Unlocking s (err e, t) (threw ne h) = elim (Bool-cases (passes e)) [
  | inl through ↦ rw through (threw ne h)
  | inr stopped ↦ rw stopped (gave h)
]

module _ (sha256 : Bytes → Bytes) where
  early-Follows :
      Follows (unlock false 0) (Unlocking false) (Unlocking false) (attempt (do_fcc_unlock sha256))
  unfolding attempt
  early-Follows s = caught-Unlocking s (do_fcc_unlock sha256 s) (
      do_fcc_unlock-Follows sha256 false (Unlocking false) (λ n. (n, refl)) (unlock false 0)
        (query false) (0, refl) s)

init_calls-Follows : (n : ℕ) → Follows (unlock false n) (λ z. z ≡ init 7) Anywhere init_calls
unfolding init_calls
init_calls-Follows n = Follows-execute_default "UtaMsSmsInit" false (sms_init n) tt tt λ _.
    Follows-execute_default "UtaMsCbsInit" false cbs_init tt tt λ _.
      Follows-execute_default "UtaMsNetOpen" false net_open tt tt λ _.
        Follows-execute_default "UtaMsCallCsInit" false call_cs_init tt tt λ _.
          Follows-execute_default "UtaMsCallPsInitialize" false call_ps_initialize tt tt λ _.
            Follows-execute_default "UtaMsSsInit" false ss_init tt tt λ _.
              Follows-execute_default "UtaMsSimOpenReq" false sim_open tt tt
                λ _. Follows-pure tt refl

status_field-Ends : (xs : List Field) → Ends (λ _. Unit {0}) (status_field xs)
status_field-Ends xs = Ends-of_ne (status_field xs) (λ e. ground arith)

Follows-lift_end {ℓ} :
    {A : Type ℓ} {p : Stage} {R E : Stage → Type 0} {r : Result A}
    → Ends (λ _. Unit {0}) r
    → R p
    → E p
    → Follows p R E (λ s. (r, s))
Follows-lift_end {p} (returns {a} _) h e = Follows-pure a h
Follows-lift_end {p} (raises {e = x} ne) h e = Follows-raise x ne e

pub request_attach-Follows :
    (p q : Stage) → Step p "UtaMsNetAttachReq" q → Follows p (λ z. z ≡ q) Anywhere request_attach
unfolding request_attach
request_attach-Follows p q st = Follows-lift net_attach_req-Ends tt λ body.
    Follows-execute "UtaMsNetAttachReq" body true st tt tt λ reply.
      Follows-lift (unpack-Ends (codes "nn") reply.body) tt
        λ fields. Follows-lift_end (status_field-Ends fields) refl tt

pub wait_allowed-Holds :
    (fuel : ℕ) (s : Modem)
    → length s.inbox < fuel
    → Holds (λ _ t. Quiet s t) (Quiet s) (wait_allowed fuel s)
unfolding wait_allowed
wait_allowed-Holds zero s h = absurd (omega arith)
wait_allowed-Holds (suc fuel) s h = elim (Bool-cases (truthy s.attach_allowed)) [
  | inl allowed ↦ rw (allowed, wait_allowed) (gave (Quiet-refl s))
  | inr other ↦
      rw (other, wait_allowed)
        (Holds-step (pump-Holds s) λ r t (out, m, split, _).
          let got : Quiet s t = (out, m ∷ [], split) in
          Holds-weaken (wait_allowed-Holds fuel t (omega (arith, ap length split)))
            (λ _ u quiet. Quiet-trans s t u got quiet) (λ u quiet. Quiet-trans s t u got quiet))
]

abbrev Attached : Stage → Type 0
Attached q = (again : Bool) × (q ≡ attach_asked again)

attach_network-Follows : Follows apn_set Attached Anywhere attach_network
unfolding attach_network
attach_network-Follows =
    Follows-bind (request_attach-Follows apn_set (attach_asked false) attach) λ status q e.
      Follows-at (attach_asked false) q e (
        Follows-if (status == attach_failed) _ _
          (Follows-Quiet (λ s. wait_allowed-Holds (suc (length s.inbox)) s (omega arith)) tt
            λ _.
              Follows-bind
                (request_attach-Follows (attach_asked false) (attach_asked true) attach_again)
                λ status' q' e'. Follows-at (attach_asked true) q' e' (
                  Follows-if (status' == attach_failed) _ _ (Follows-raise exit (λ x. cc) tt)
                    (Follows-pure tt (true, refl))))
          (Follows-pure tt (false, refl)))

get_ip-Follows :
    (p : Stage)
    → Step p "UtaMsCallPsGetNegIpAddrReq" ip_asked
    → Follows p (λ z. z ≡ dns_asked) Anywhere get_ip
unfolding get_ip
get_ip-Follows p st = Follows-lift neg_ip_addr_req-Ends tt λ body.
    Follows-execute "UtaMsCallPsGetNegIpAddrReq" body true st tt tt λ ip.
      Follows-lift (neg_ip_addr-Ends ip.body) tt λ addresses.
        Follows-lift negotiated_dns_req-Ends tt λ body'.
          Follows-execute "UtaMsCallPsGetNegotiatedDnsReq" body' true ask_dns tt tt λ dns.
            Follows-lift (negotiated_dns-Ends dns.body) tt
              λ servers. Follows-pure (with_dns (last_nonzero addresses) servers) refl

-- Where the loop over `get_ip` goes on.
fetch_again :
    (rest : M (ℕ × Dns)) (p : Stage) (s t : Modem)
    → Talk p dns_asked s t
    → Holds
        (λ _ u. (z : Stage) × (z ≡ dns_asked) × Talk dns_asked z t u)
        (λ u. (z : Stage) × Anywhere z × Talk dns_asked z t u)
        (rest t)
    → (found : Option (ℕ × Dns))
    → Holds
        (λ _ u. (z : Stage) × (z ≡ dns_asked) × Talk p z s u)
        (λ u. (z : Stage) × Anywhere z × Talk p z s u)
        (elim found as (λ _. M (ℕ × Dns)) [ none ↦ rest | some got ↦ pure got ] t)
fetch_again rest p s t talk later (some got) = gave (dns_asked, refl, talk)
fetch_again rest p s t talk later none =
    Holds-weaken later (λ a u (z, e, more). (z, e, Talk-trans p dns_asked z s t u talk more))
      (λ u (z, e, more). (z, e, Talk-trans p dns_asked z s t u talk more))

fetch_ip-Follows :
    (fuel : ℕ) (p : Stage) (s : Modem)
    → Step p "UtaMsCallPsGetNegIpAddrReq" ip_asked
    → length s.inbox < fuel
    → Holds
        (λ _ t. (q : Stage) × (q ≡ dns_asked) × Talk p q s t)
        (λ t. (q : Stage) × Anywhere q × Talk p q s t)
        (fetch_ip fuel s)
unfolding fetch_ip
fetch_ip-Follows zero p s st h = absurd (omega arith)
fetch_ip-Follows (suc fuel) p s st h =
    Holds-step
      (Holds-weaken (Holds-both (get_ip-Follows p st s) (get_ip-shorter s)) (λ a t x. x)
        (λ t x. x.0))
      λ found t ((q, e, talk), less).
        fetch_again (fetch_ip fuel) p s t (subst (λ z. Talk p z s t) e talk)
          (fetch_ip-Follows fuel dns_asked t ask_ip_again (omega arith)) found

module _ (sha256 : Bytes → Bytes) where
  pub establish-Follows :
      (cfg : Config) → Follows (unlock false 0) (λ z. z ≡ dns_asked) Anywhere (establish sha256 cfg)
  unfolding establish
  establish-Follows cfg = Follows-bind (anywhere (early-Follows sha256)) λ _ q (n, e).
      Follows-at (unlock false n) q e (
        Follows-bind (init_calls-Follows n) λ _ q₁ e₁. Follows-at (init 7) q₁ e₁ (
          Follows-bind
            (do_fcc_unlock-Follows sha256 true Anywhere (λ _. tt) (init 7) query_again tt)
            λ _ q₂ (m, e₂). Follows-at (unlock true m) q₂ e₂ (
              Follows-bind (uta_mode_set-Follows 1 m) λ _ q₃ e₃. Follows-at mode_asked q₃ e₃ (
                Follows-lift (apn_config_req-Ends cfg.apn) tt λ body.
                  Follows-execute "UtaMsCallPsAttachApnConfigReq" body true set_apn tt tt λ _.
                    Follows-bind attach_network-Follows λ _ q₄ (again, e₄).
                      Follows-at (attach_asked again) q₄ e₄ (λ s.
                        fetch_ip-Follows (suc (length s.inbox)) (attach_asked again) s
                          (ask_ip again) (omega arith))))))
    where
      anywhere :
          {m : M (Unit {0})}
          → Follows (unlock false 0) (Unlocking false) (Unlocking false) m
          → Follows (unlock false 0) (Unlocking false) Anywhere m
      anywhere hm s = Holds-weaken (hm s) (λ a t h. h) (λ t (q, _, talk). (q, tt, talk))

pub connect-Follows : Follows dns_asked (λ z. z ≡ set_up) Anywhere connect
unfolding connect
connect-Follows = Follows-lift connect_req-Ends tt λ body.
    Follows-execute "UtaMsCallPsConnectReq" body true connect_ps tt tt λ pscr.
      Follows-lift (datachannel_req-Ends default_path) tt λ body'.
        Follows-execute "UtaRPCPsConnectToDatachannelReq" body' false open_datachannel tt tt λ dcr.
          Follows-execute "UtaRPCPSConnectSetupReq" _ false setup tt tt λ _. Follows-pure tt refl
