-- ===== src/Bringup/Address.antt =====
-- About the address that the modem gives.
use mathlib.Core.Path.{subst}
use xmm7360_mvp.Prelude.{
  ℕ, zero, suc, ◌≡◌, ◌≢◌, ap, arith, true, not, ◌==◌, Bool-cases, Option, none, some, length, inl,
  inr,
}
use xmm7360_mvp.Result.{Result, Error, ok, err}
use xmm7360_mvp.Bytes.{Bytes}
use xmm7360_mvp.Rpc.Message.{name}
use xmm7360_mvp.Rpc.Calls.{
  Dns, pack_uta_ms_call_ps_attach_apn_config_req, pack_uta_ms_call_ps_get_neg_ip_addr_req,
  pack_uta_ms_call_ps_get_negotiated_dns_req, unpack_uta_ms_call_ps_get_neg_ip_addr_req,
  unpack_uta_ms_call_ps_get_negotiated_dns_req,
}
use xmm7360_mvp.Rpc.Fcc.{do_fcc_unlock}
use xmm7360_mvp.Rpc.Session.{
  Modem, M, step, lift, execute, uta_mode_set, get_ip, last_nonzero, with_dns,
}
use xmm7360_mvp.Bringup.{Config, attempt, init_calls, attach_network, fetch_ip, establish}

-- The call returned a value with `P`, or raised.
pub data Gives {ℓ} {A : Type ℓ} (P : A → Type 0) : Result A × Modem → Type ℓ where
  gives : {a : A} {t : Modem} → P a → Gives P (ok a, t)
  fails : {e : Error} {t : Modem} → Gives P (err e, t)

Gives-ok {ℓ} :
    {A : Type ℓ} {P : A → Type 0} {r : Result A × Modem} {a : A} {t : Modem}
    → Gives P r
    → r ≡ (ok a, t)
    → P a
Gives-ok {A} {P} (gives h) e = subst P (cc (ap (λ (p : Result A × Modem). p.0) e)) h
Gives-ok {A} fails e = cc (ap (λ (p : Result A × Modem). p.0) e)

Gives-step {ℓ κ} :
    {A : Type ℓ} {B : Type κ} {P : A → Type 0} {Q : B → Type 0} {r : Result A × Modem} {f : A → M B}
    → Gives P r
    → ((a : A) (t : Modem) → P a → Gives Q (f a t))
    → Gives Q (step r f)
Gives-step (gives {a} {t} h) k = k a t h
Gives-step fails k = fails

Gives-past {ℓ κ} :
    {A : Type ℓ} {B : Type κ} {Q : B → Type 0} (r : Result A × Modem) {f : A → M B}
    → ((a : A) (t : Modem) → Gives Q (f a t))
    → Gives Q (step r f)
Gives-past (ok a, t) k = k a t
Gives-past (err e, t) k = fails

abbrev Nonzero : Option (ℕ × Dns) → Type 0
Nonzero none = Unit {0}
Nonzero (some (addr, dns)) = addr ≢ 0

ne_zero : (n : ℕ) → not (n == 0) ≡ true → n ≢ 0
ne_zero n h = ground arith

last_nonzero-Nonzero : (ips : ℕ × ℕ × ℕ) (dns : Dns) → Nonzero (with_dns (last_nonzero ips) dns)
unfolding last_nonzero
last_nonzero-Nonzero (a1, a2, a3) dns = elim (Bool-cases (not (a3 == 0))) [
  | inl here ↦ rw here (ne_zero a3 here)
  | inr zero₃ ↦ rw zero₃ (elim (Bool-cases (not (a2 == 0))) [
    | inl here ↦ rw here (ne_zero a2 here)
    | inr zero₂ ↦ rw zero₂ (elim (Bool-cases (not (a1 == 0))) [
      | inl here ↦ rw here (ne_zero a1 here)
      | inr zero₁ ↦ rw zero₁ tt
    ])
  ])
]

get_ip-Nonzero : (s : Modem) → Gives Nonzero (get_ip s)
unfolding get_ip
get_ip-Nonzero s = Gives-past (lift pack_uta_ms_call_ps_get_neg_ip_addr_req s) λ body t.
    Gives-past (execute (name "UtaMsCallPsGetNegIpAddrReq") body true t) λ ip u.
      Gives-past (lift (unpack_uta_ms_call_ps_get_neg_ip_addr_req ip.body) u) λ ips v.
        Gives-past (lift pack_uta_ms_call_ps_get_negotiated_dns_req v) λ body' w.
          Gives-past (execute (name "UtaMsCallPsGetNegotiatedDnsReq") body' true w) λ dns x.
            Gives-past (lift (unpack_uta_ms_call_ps_get_negotiated_dns_req dns.body) x)
              λ found y. gives (last_nonzero-Nonzero ips found)

abbrev pub IsAddress : ℕ × Dns → Type 0
IsAddress (addr, dns) = addr ≢ 0

fetch_ip-IsAddress : (fuel : ℕ) (s : Modem) → Gives IsAddress (fetch_ip fuel s)
unfolding fetch_ip
fetch_ip-IsAddress zero s = fails
fetch_ip-IsAddress (suc fuel) s =
    Gives-step (get_ip-Nonzero s) (again (fetch_ip fuel) (fetch_ip-IsAddress fuel))
  where
    again :
        (rest : M (ℕ × Dns))
        → ((t : Modem) → Gives IsAddress (rest t))
        → (found : Option (ℕ × Dns)) (t : Modem) → Nonzero found
        → Gives IsAddress
            (elim found as (λ _. M (ℕ × Dns)) [ none ↦ rest | some got ↦ (λ u. (ok got, u)) ] t)
    again rest h none t x = h t
    again rest h (some got) t x = gives x

pub establish-IsAddress :
    (sha256 : Bytes → Bytes) (cfg : Config) (s : Modem) → Gives IsAddress (establish sha256 cfg s)
unfolding establish
establish-IsAddress sha256 cfg s = Gives-past (attempt (do_fcc_unlock sha256) s) λ _ t.
    Gives-past (init_calls t) λ _ u. Gives-past (do_fcc_unlock sha256 u) λ _ v.
      Gives-past (uta_mode_set 1 v) λ _ w.
        Gives-past (lift (pack_uta_ms_call_ps_attach_apn_config_req cfg.apn) w) λ body x.
          Gives-past (execute (name "UtaMsCallPsAttachApnConfigReq") body true x)
            λ _ y. Gives-past (attach_network y) λ _ z. fetch_ip-IsAddress (suc (length z.inbox)) z
