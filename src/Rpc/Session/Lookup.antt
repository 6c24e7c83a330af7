-- ===== src/Rpc/Session/Lookup.antt =====
-- `get_ip`: its fuel, and the messages it reads.
use xmm7360_mvp.Prelude.{◌<◌, ◌≡◌, refl, ap, arith, length, true}
use xmm7360_mvp.Rpc.Message.{name}
use xmm7360_mvp.Rpc.Calls.Ends.{
  neg_ip_addr_req-Ends, neg_ip_addr-Ends, negotiated_dns_req-Ends, negotiated_dns-Ends,
}
use xmm7360_mvp.Rpc.Session.{Modem, get_ip}
use xmm7360_mvp.Rpc.Session.Effects.{Holds, gave, Holds-step, Holds-lift}
use xmm7360_mvp.Rpc.Session.Await.{execute-shorter}

-- Where `get_ip` returns, it read a message at least.
pub get_ip-shorter :
    (s : Modem) → Holds (λ _ t. length t.inbox < length s.inbox) (λ _. Unit {0}) (get_ip s)
unfolding get_ip
get_ip-shorter s =
    Holds-step {P = λ _ t. t ≡ s} (Holds-lift neg_ip_addr_req-Ends (λ _ _. refl) tt) λ body t same.
      Holds-step (execute-shorter (name "UtaMsCallPsGetNegIpAddrReq") body true t) λ ip u less.
        Holds-step {P = λ _ v. v ≡ u} (Holds-lift (neg_ip_addr-Ends ip.body) (λ _ _. refl) tt)
          λ ips v same'.
            Holds-step {P = λ _ w. w ≡ v} (Holds-lift negotiated_dns_req-Ends (λ _ _. refl) tt)
              λ body' w same''.
                Holds-step (execute-shorter (name "UtaMsCallPsGetNegotiatedDnsReq") body' true w)
                  λ dns x less'.
                    Holds-step {P = λ _ y. y ≡ x}
                      (Holds-lift (negotiated_dns-Ends dns.body) (λ _ _. refl) tt)
                      λ found y same₃. gave (
                        omega (
                          arith,
                          ap (λ (m : Modem). length m.inbox) same,
                          ap (λ (m : Modem). length m.inbox) same',
                          ap (λ (m : Modem). length m.inbox) same'',
                          ap (λ (m : Modem). length m.inbox) same₃,
                          less,
                          less',
                        ))
