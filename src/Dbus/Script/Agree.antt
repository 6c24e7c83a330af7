-- ===== src/Dbus/Script/Agree.antt =====
-- About the script's code for NetworkManager and the class's, as far as the connection is set.
use mathlib.Core.Path.{subst}
use xmm7360_mvp.Prelude.{
  ℕ, ◌≡◌, ◌≢◌, refl, ap, sym, ◌∙◌, String, Bool, true, false, ◌&&◌, ◌==◌, ==_iff, Bool-cases,
  Option, some, List, [], ◌∷◌, ◌++◌, All, lookup_name, inl, inr,
}
use xmm7360_mvp.Result.{ok, key, from_option-ok}
use xmm7360_mvp.Result.Action.{change}
use xmm7360_mvp.Result.Action.Laws.{lift-ok, bind-ok, pure-ok, change-ok, lift_run}
use xmm7360_mvp.Rpc.Calls.{Dns}
use xmm7360_mvp.Bytes.{same_bytes}
use xmm7360_mvp.Dbus.Assoc.{get, insert}
use xmm7360_mvp.Dbus.{
  Value, text, dotted, other, numbers, address_data, Section, Settings, NetworkManager, new_ipv4,
  dbus_ipv4_dns, update_connection,
}
use xmm7360_mvp.Dbus.Lawful.{UuidOf, Others}
use xmm7360_mvp.Dbus.SetUp.{with_connection}
use xmm7360_mvp.Dbus.Script.{Globals, same_value, dbus_ip, renew_if, renew, renew_all}

UuidOf-unique :
    (N : NetworkManager) (s : N.State) (path : String) (a b : Value)
    → UuidOf N s path a
    → UuidOf N s path b
    → a ≡ b
UuidOf-unique N s path a b c d = cc (c.read, c.found, c.named, d.read, d.found, d.named)

same_bytes_refl : (t : List ℕ) → same_bytes t t ≡ true
unfolding same_bytes
same_bytes_refl [] = refl
same_bytes_refl (a ∷ t) = rw ((==_iff a a).1 refl) (same_bytes_refl t)

same_value_refl : (a : Value) → same_value a a ≡ true
same_value_refl (text t) = same_bytes_refl t
same_value_refl (dotted n) = (==_iff n n).1 refl
same_value_refl (other n) = (==_iff n n).1 refl
same_value_refl (numbers ns) = same_bytes_refl ns
same_value_refl (address_data a n) = rw ((==_iff a a).1 refl) ((==_iff n n).1 refl)

both : (a b : Bool) → (a && b) ≡ true → (a ≡ true) × (b ≡ true)
both true b h = (refl, h)
both false b h = cc

same_bytes-eq : (t u : List ℕ) → same_bytes t u ≡ true → t ≡ u
unfolding same_bytes
same_bytes-eq [] [] h = refl
same_bytes-eq [] (b ∷ u) h = cc
same_bytes-eq (a ∷ t) [] h = cc
same_bytes-eq (a ∷ t) (b ∷ u) h =
    let (first, rest) = both (a == b) (same_bytes t u) h in
    let e : a ≡ b = (==_iff a b).0 first in cc (e, same_bytes-eq t u rest)

same_value-eq : (a b : Value) → same_value a b ≡ true → a ≡ b
same_value-eq (text t) (text u) h = ap text (same_bytes-eq t u h)
same_value-eq (dotted m) (dotted n) h = ap dotted ((==_iff m n).0 h)
same_value-eq (other m) (other n) h = ap other ((==_iff m n).0 h)
same_value-eq (numbers t) (numbers u) h = ap numbers (same_bytes-eq t u h)
same_value-eq (address_data a m) (address_data b n) h =
    let (first, rest) = both (a == b) (m == n) h in
    let e : a ≡ b = (==_iff a b).0 first in let f : m ≡ n = (==_iff m n).0 rest in cc (e, f)
same_value-eq _ _ h = cc

module _ (N : NetworkManager) (my : Value) (ip : ℕ) (dns : Dns) where
  renew_if-other :
      (b : Bool) (path : String) (config : Settings) (g g' : Globals) (s u : N.State)
      → b ≡ false
      → renew_if N b ip dns path config g s ≡ (ok g', u)
      → (g ≡ g') × (s ≡ u)
  unfolding renew_if
  renew_if-other true path config g g' s u e h = cc
  renew_if-other false path config g g' s u e h = pure-ok g g' s u h

  -- A connection with another identifier is passed over.
  abbrev Stranger : N.State → String → Type 0
  Stranger s q = (b : Value) → UuidOf N s q b → same_value b my ≡ false

  renew-Stranger :
      (q : String) (g g' : Globals) (s u : N.State)
      → Stranger s q
      → renew N my ip dns q g s ≡ (ok g', u)
      → (g ≡ g') × (s ≡ u)
  unfolding renew
  renew-Stranger q g g' s u stranger h =
      let (config, e₁, h₁) = lift-ok (N.get_settings q s) s _ g' u h in
      let (section, e₂, h₂) = lift-ok (get "connection" config) s _ g' u h₁ in
      let (uuid, e₃, h₃) = lift-ok (get "uuid" section) s _ g' u h₂ in
      renew_if-other (same_value uuid my) q config g g' s u
        (stranger uuid (record {
          config = config;
          section = section;
          read = e₁;
          found = from_option-ok (lookup_name "connection" config) key e₂;
          named = from_option-ok (lookup_name "uuid" section) key e₃;
        }))
        h₃

  renew_all-Stranger :
      (qs : List String) (g g' : Globals) (s u : N.State)
      → All (Stranger s) qs
      → renew_all N my ip dns qs g s ≡ (ok g', u)
      → (g ≡ g') × (s ≡ u)
  unfolding renew_all
  renew_all-Stranger [] g g' s u strangers h = pure-ok g g' s u h
  renew_all-Stranger (q ∷ qs) g g' s u (stranger, strangers) h =
      let (mid, t, e, h₁) = bind-ok (renew N my ip dns q g s) _ g' u h in
      let (same, at) = renew-Stranger q g mid s t stranger e in
      let (same', at') =
        renew_all-Stranger qs mid g' s u strangers
          (subst (λ z. renew_all N my ip dns qs mid z ≡ (ok g', u)) (sym at) h₁) in
      (same ∙ same', at')

  -- Our connection is updated as the class does it.
  abbrev pub Renewed : Option Section → String → Globals → N.State → N.State → Type 0
  Renewed section path g s t =
      (g.connection_path ≡ some path)
      × (update_connection N (with_connection section (some path) ip dns) s ≡ (ok tt, t))
      × (c : Settings) × (N.update path c s ≡ ok t)

  renew_if-ours :
      (b : Bool) (path : String) (config : Settings) (section : Option Section) (g g' : Globals)
      (s u : N.State)
      → b ≡ true
      → N.get_settings path s ≡ ok config
      → renew_if N b ip dns path config g s ≡ (ok g', u)
      → Renewed section path g' s u
  unfolding renew_if update_connection dbus_ipv4_dns
  renew_if-ours true path config section g g' s u e read h =
      let (ipv4, e₁, h₁) = lift-ok (get "ipv4" config) s _ g' u h in
      let new = insert "ipv4" (new_ipv4 ip (dbus_ip dns) ipv4) config in
      let (_, t, e₂, h₂) = bind-ok (change (N.update path new) s) _ g' u h₁ in
      let (same, at) = pure-ok (record g { connection_path = some path }) g' t u h₂ in
      let changed : change (N.update path new) s ≡ (ok tt, u) =
        subst (λ z. change (N.update path new) s ≡ (ok tt, z)) at e₂ in
      (
        ap (λ (z : Globals). z.connection_path) (sym same),
        lift_run _ read (lift_run _ e₁ changed),
        new,
        change-ok (N.update path new) s u changed,
      )
  renew_if-ours false path config section g g' s u e read h = cc

  renew-ours :
      (path : String) (section : Option Section) (g g' : Globals) (s u : N.State)
      → UuidOf N s path my
      → renew N my ip dns path g s ≡ (ok g', u)
      → Renewed section path g' s u
  unfolding renew
  renew-ours path section g g' s u ours h =
      let (config, e₁, h₁) = lift-ok (N.get_settings path s) s _ g' u h in
      let (con, e₂, h₂) = lift-ok (get "connection" config) s _ g' u h₁ in
      let (uuid, e₃, h₃) = lift-ok (get "uuid" con) s _ g' u h₂ in
      renew_if-ours (same_value uuid my) path config section g g' s u
        (rw
          (UuidOf-unique N s path uuid my
            (record {
              config = config;
              section = con;
              read = e₁;
              found = from_option-ok (lookup_name "connection" config) key e₂;
              named = from_option-ok (lookup_name "uuid" con) key e₃;
            })
            ours)
          (same_value_refl my))
        e₁ h₃

  -- Only the connection at the path has the identifier, and an update leaves the others.
  module _ (s : N.State) (path : String) (ours : UuidOf N s path my)
      (alone : (q : String) → UuidOf N s q my → q ≡ path)
      (update_others : (c : Settings) (t : N.State) (q : String)
        → N.update path c s ≡ ok t
        → q ≢ path
        → N.get_settings q t ≡ N.get_settings q s) where
    stranger :
        (q : String) (t : N.State)
        → q ≢ path
        → N.get_settings q t ≡ N.get_settings q s
        → Stranger t q
    stranger q t ne kept b has = elim (Bool-cases (same_value b my)) [
      | inl same ↦ absurd (
          ne (
            alone q (
              subst (UuidOf N s q) (same_value-eq b my same) (record {
                config = has.config;
                section = has.section;
                read = sym kept ∙ has.read;
                found = has.found;
                named = has.named;
              }))))
      | inr apart ↦ apart
    ]

    All-Stranger :
        (qs : List String) (t : N.State)
        → ((q : String) → q ≢ path → N.get_settings q t ≡ N.get_settings q s)
        → Others path qs
        → All (Stranger t) qs
    All-Stranger [] t kept ne = tt
    All-Stranger (q ∷ qs) t kept (ne, nes) =
        (stranger q t ne (kept q ne), All-Stranger qs t kept nes)

    pub renew_all-Renewed :
        (section : Option Section) (before after : List String) (g g' : Globals) (u : N.State)
        → Others path before
        → Others path after
        → renew_all N my ip dns (before ++ (path ∷ after)) g s ≡ (ok g', u)
        → Renewed section path g' s u
    unfolding renew_all
    renew_all-Renewed section [] after g g' u ne nes h =
        let (mid, t, e, h₁) = bind-ok (renew N my ip dns path g s) _ g' u h in
        let (known, done, c, updated) = renew-ours path section g mid s t ours e in
        let (same, at) =
          renew_all-Stranger after mid g' t u
            (All-Stranger after t (λ q. update_others c t q updated) nes) h₁ in
        (
          ap (λ (z : Globals). z.connection_path) (sym same) ∙ known,
          done ∙ ap (λ (z : N.State). (ok tt, z)) at,
          c,
          updated ∙ ap ok at,
        )
    renew_all-Renewed section (q ∷ before) after g g' u (ne, nes) nes' h =
        let (mid, t, e, h₁) = bind-ok (renew N my ip dns q g s) _ g' u h in
        let (same, at) = renew-Stranger q g mid s t (stranger q s ne refl) e in
        renew_all-Renewed section before after mid g' u nes nes' (
          subst (λ z. renew_all N my ip dns (before ++ (path ∷ after)) mid z ≡ (ok g', u)) (sym at)
            h₁)
