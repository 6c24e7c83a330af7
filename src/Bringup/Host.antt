-- ===== src/Bringup/Host.antt =====
-- About the changes that the script makes on the host, and how it ends.
use mathlib.Core.Path.{subst}
use xmm7360_mvp.Prelude.{
  ℕ, ◌≡◌, ◌≢◌, refl, ap, ◌∙◌, Bool, true, false, List, [], ◌∷◌, ◌++◌, inl, inr, ◌⊎◌, if◌then◌else◌,
}
use xmm7360_mvp.Result.{Result, ok, err, exit, out_of_fuel}
use xmm7360_mvp.Bytes.{Bytes}
use xmm7360_mvp.Rpc.Calls.{Dns}
use xmm7360_mvp.Rpc.Session.{Modem}
use xmm7360_mvp.Rpc.Session.Effects.{Holds, gave, threw}
use xmm7360_mvp.Bringup.{
  Config, establish, connect, Change, first_link, plan, Outcome, after_connect, after_perform,
  on_answer, perform, after_lookup, after_establish, bring_up,
}
use xmm7360_mvp.Bringup.Address.{Gives, gives, fails, IsAddress, establish-IsAddress}
use xmm7360_mvp.Bringup.Protocol.{Stage, unlock, dns_asked, set_up, Talk, Talk-trans}
use xmm7360_mvp.Bringup.Unlock.{Anywhere}
use xmm7360_mvp.Bringup.Talks.{establish-Follows, connect-Follows}

-- The script as a whole: it followed the protocol, and its fuel did not run out.
abbrev Talked : Modem → Outcome → Type 0
Talked s o = (q : Stage) × Talk (unlock false 0) q s o.modem × (o.result ≢ err out_of_fuel)

ends_by : (dbus : Bool) (got : ℕ × Dns) → (if dbus then ok got else err exit) ≢ err out_of_fuel
ends_by true got e = cc
ends_by false got e = cc

after_connect-Talked :
    (cfg : Config) (got : ℕ × Dns) (made : List Change) (s t : Modem)
    → Talk (unlock false 0) dns_asked s t
    → (r : Result (Unit {0}) × Modem)
    → Holds
        (λ _ u. (q : Stage) × (q ≡ set_up) × Talk dns_asked q t u)
        (λ u. (q : Stage) × Anywhere q × Talk dns_asked q t u)
        r
    → Talked s (after_connect cfg got made r)
after_connect-Talked cfg got made s t talk (ok a, u) (gave (q, e, more)) =
    (q, Talk-trans (unlock false 0) dns_asked q s t u talk more, ends_by cfg.dbus got)
after_connect-Talked cfg got made s t talk (err x, u) (threw ne (q, _, more)) =
    (q, Talk-trans (unlock false 0) dns_asked q s t u talk more, λ e. ne (cc))

module _ (host : Change → Result (Unit {0})) where
  answered-ne :
      (c : Change) (r : Result (Unit {0})) (later : Result (Unit {0}) × List Change)
      → r ≢ err out_of_fuel
      → later.0 ≢ err out_of_fuel
      → (on_answer c r later).0 ≢ err out_of_fuel
  answered-ne c (ok a) later ne h = h
  answered-ne c (err x) later ne h = λ e. ne (cc)

  perform-ne :
      ((c : Change) → host c ≢ err out_of_fuel)
      → (cs : List Change) → (perform host cs).0 ≢ err out_of_fuel
  unfolding perform
  perform-ne lawful [] = λ e. cc
  perform-ne lawful (c ∷ cs) =
      answered-ne c (host c) (perform host cs) (lawful c) (perform-ne lawful cs)

  -- The changes that were made are the first of those that were planned.
  answered-prefix :
      (c : Change) (cs : List Change) (r : Result (Unit {0}))
      (later : Result (Unit {0}) × List Change)
      → (rest : List Change) × (cs ≡ later.1 ++ rest)
      → (rest : List Change) × (c ∷ cs ≡ (on_answer c r later).1 ++ rest)
  answered-prefix c cs (ok a) later (rest, e) = (rest, ap (λ xs. c ∷ xs) e)
  answered-prefix c cs (err x) later h = (c ∷ cs, refl)

  perform-prefix : (cs : List Change) → (rest : List Change) × (cs ≡ (perform host cs).1 ++ rest)
  unfolding perform
  perform-prefix [] = ([], refl)
  perform-prefix (c ∷ cs) = answered-prefix c cs (host c) (perform host cs) (perform-prefix cs)

  after_perform-Talked :
      (cfg : Config) (got : ℕ × Dns) (s t : Modem)
      → Talk (unlock false 0) dns_asked s t
      → (r : Result (Unit {0}) × List Change) → r.0 ≢ err out_of_fuel
      → Talked s (after_perform cfg got t r)
  after_perform-Talked cfg got s t talk (ok a, made) ne =
      after_connect-Talked cfg got made s t talk (connect t) (connect-Follows t)
  after_perform-Talked cfg got s t talk (err x, made) ne = (dns_asked, talk, λ e. ne (cc))

  after_lookup-Talked :
      ((c : Change) → host c ≢ err out_of_fuel)
      → (cfg : Config) (got : ℕ × Dns) (s t : Modem) (links : List ℕ)
      → Talk (unlock false 0) dns_asked s t
      → Talked s (after_lookup host cfg got t (first_link links))
  after_lookup-Talked lawful cfg got s t [] talk = (dns_asked, talk, λ e. cc)
  after_lookup-Talked lawful cfg got s t (idx ∷ links) talk =
      after_perform-Talked cfg got s t talk (perform host (plan cfg idx got.0 got.1))
        (perform-ne lawful (plan cfg idx got.0 got.1))

  after_establish-Talked :
      ((c : Change) → host c ≢ err out_of_fuel)
      → (cfg : Config) (links : List ℕ) (s : Modem) (r : Result (ℕ × Dns) × Modem)
      → Holds
          (λ _ t. (q : Stage) × (q ≡ dns_asked) × Talk (unlock false 0) q s t)
          (λ t. (q : Stage) × Anywhere q × Talk (unlock false 0) q s t)
          r
      → Talked s (after_establish host cfg links r)
  after_establish-Talked lawful cfg links s (ok got, t) (gave (q, e, talk)) =
      after_lookup-Talked lawful cfg got s t links (subst (λ z. Talk (unlock false 0) z s t) e talk)
  after_establish-Talked lawful cfg links s (err x, t) (threw ne (q, _, talk)) =
      (q, talk, λ e. ne (cc))

  -- However the script ends, the requests that it wrote follow the protocol from its start, and its
  -- fuel did not run out, where the host's answers are exceptions of Python's.
  pub bring_up-Talked :
      ((c : Change) → host c ≢ err out_of_fuel)
      → (sha256 : Bytes → Bytes) (cfg : Config) (links : List ℕ) (s : Modem)
      → (q : Stage) × Talk (unlock false 0) q s (bring_up host sha256 cfg links s).modem
        × ((bring_up host sha256 cfg links s).result ≢ err out_of_fuel)
  unfolding bring_up
  bring_up-Talked lawful sha256 cfg links s =
      after_establish-Talked lawful cfg links s (establish sha256 cfg s)
        (establish-Follows sha256 cfg s)

  -- The address that the modem gave, and how far its changes came.
  abbrev pub Applied : Config → List ℕ → List Change → Result (ℕ × Dns) → Type 0
  Applied cfg links made r =
      (addr : ℕ) × (dns : Dns) × (idx : ℕ) × (rest : List Change) × (r ≡ ok (addr, dns))
      × (addr ≢ 0)
      × (first_link links ≡ ok idx)
      × (plan cfg idx addr dns ≡ made ++ rest)

  changed_by_link :
      (cfg : Config) (got : ℕ × Dns) (t : Modem) (links : List ℕ)
      → got.0 ≢ 0
      → ((after_lookup host cfg got t (first_link links)).changes ≡ [])
        ⊎ Applied cfg links (after_lookup host cfg got t (first_link links)).changes (ok got)
  changed_by_link cfg got t [] h = inl refl
  changed_by_link cfg got t (idx ∷ links) h = inr (
    got.0,
    got.1,
    idx,
    made.0,
    refl,
    h,
    refl,
    made.1 ∙ rw (same (perform host (plan cfg idx got.0 got.1))) refl,
  )
    where
      made :
          (rest : List Change) × (plan cfg idx got.0 got.1
            ≡ (perform host (plan cfg idx got.0 got.1)).1 ++ rest)
      made = perform-prefix (plan cfg idx got.0 got.1)

      same_end :
          (m : List Change) (r : Result (Unit {0}) × Modem)
          → (after_connect cfg got m r).changes ≡ m
      same_end m (ok a, u) = refl
      same_end m (err x, u) = refl

      same : (r : Result (Unit {0}) × List Change) → (after_perform cfg got t r).changes ≡ r.1
      same (ok a, m) = same_end m (connect t)
      same (err x, m) = refl

  changed_by :
      (cfg : Config) (links : List ℕ) (r : Result (ℕ × Dns) × Modem)
      → Gives IsAddress r
      → ((after_establish host cfg links r).changes ≡ [])
        ⊎ Applied cfg links (after_establish host cfg links r).changes r.0
  changed_by cfg links (ok got, t) (gives h) = changed_by_link cfg got t links h
  changed_by cfg links (err e, t) fails = inl refl

  -- The host is left alone until the modem has given an address other than 0.0.0.0. Then the changes
  -- that were made are the first of those planned for it, in their order, on the first link.
  pub bring_up-changes :
      (sha256 : Bytes → Bytes) (cfg : Config) (links : List ℕ) (s : Modem)
      → ((bring_up host sha256 cfg links s).changes ≡ [])
        ⊎ Applied cfg links (bring_up host sha256 cfg links s).changes (establish sha256 cfg s).0
  unfolding bring_up
  bring_up-changes sha256 cfg links s =
      changed_by cfg links (establish sha256 cfg s) (establish-IsAddress sha256 cfg s)
