-- ===== src/Dbus/Script/Together.antt =====
-- About the script's code for NetworkManager as a whole, and the class's.
use mathlib.Core.Path.{subst}
use xmm7360_mvp.Prelude.{
  ℕ, ◌≡◌, ◌≢◌, refl, ap, sym, ◌∙◌, String, true, Option, none, some, List, [], ◌∷◌, ◌++◌, All,
  lookup_name, inl, inr,
}
use xmm7360_mvp.Result.{ok, from_option, from_option-ok, unbound}
use xmm7360_mvp.Result.Action.{change}
use xmm7360_mvp.Result.Action.Laws.{lift-ok, bind-ok, change-ok, bind_run, lift_run}
use xmm7360_mvp.Rpc.Calls.{Dns}
use xmm7360_mvp.Dbus.Assoc.{get}
use xmm7360_mvp.Dbus.{
  Value, Props, NetworkManager, Dbus, path_of, dbus_ipv4_dns, new_connection, add_connection,
  get_connections, get_device_prop_iface, update_or_add, activate_found, activate,
  setup_network_manager, new_dbus,
}
use xmm7360_mvp.Dbus.Connections.{Named, Searched, absent, last, get_connections-Searched}
use xmm7360_mvp.Dbus.Devices.{Device}
use xmm7360_mvp.Dbus.Lawful.{UuidOf, Others, Distinct, IsLawful, IsUnique}
use xmm7360_mvp.Dbus.SetUp.{with_connection}
use xmm7360_mvp.Dbus.Script.{
  Globals, no_globals, dbus_ip, find_connections, configure, sweep, network_manager,
}
use xmm7360_mvp.Dbus.Script.Search.{
  Same, neither, both, find_connections-Same, get_connections-Same,
}
use xmm7360_mvp.Dbus.Script.Agree.{renew_all-Renewed}
use xmm7360_mvp.Dbus.Script.Sweep.{Met, sweep-Met}

Distinct-middle :
    (before after : List String) (p : String)
    → Distinct (before ++ (p ∷ after))
    → Others p before × Others p after
Distinct-middle [] after p (apart, _) = (tt, apart)
Distinct-middle (q ∷ before) after p (apart, distinct) =
    let (nes, nes') = Distinct-middle before after p distinct in
    (((λ e. head before apart (sym e)), nes), nes')
  where
    head : (qs : List String) → All (λ r. r ≢ q) (qs ++ (p ∷ after)) → p ≢ q
    head [] (ne, _) = ne
    head (r ∷ qs) (_, nes) = head qs nes

Same-path : (g : Globals) (d : Dbus) → Same g d → d.connection_path ≡ g.connection_path
Same-path g d (neither _ e _ f) = f ∙ sym e
Same-path g d (both _ _ _ _ _ e _ f) = f ∙ sym e

module _ (N : NetworkManager) (lawful : IsLawful N) (uuid : List ℕ) (ip : ℕ) (dns : Dns) where
  abbrev SameDevices : N.State → N.State → Type 0
  SameDevices s t =
      (N.get_devices t ≡ N.get_devices s) × ((e : String) → N.get_all e t ≡ N.get_all e s)

  -- What the class makes of the state that the script leaves after the settings.
  abbrev After : Dbus → N.State → Globals → N.State → Type 0
  After d s g' t =
      (d' : Dbus) × (update_or_add N uuid d.xmm_connection d.connection_path
          (record d { ip_addr = ip; dns_values = dns }) s
        ≡ (ok d', t))
      × (d'.connection_path ≡ g'.connection_path)
      × SameDevices s t

  configure-none :
      (g g' : Globals) (s t : N.State)
      → Same g (with_connection none none ip dns)
      → configure N uuid ip dns none g s ≡ (ok g', t)
      → After new_dbus s g' t
  unfolding configure update_or_add add_connection dbus_ipv4_dns
  configure-none g g' s t same h =
      let add = change (N.add_connection (new_connection uuid ip (dbus_ip dns))) in
      let (_, v, e₁, h₁) = bind-ok (add s) _ g' t h in
      let (at, d', found, same') =
        find_connections-Same N v t g g' (with_connection none none ip dns) h₁ same in
      let found' : get_connections N (with_connection none none ip dns) v ≡ (ok d', t) =
        found ∙ ap (λ (z : N.State). (ok d', z)) at in
      let made = change-ok (N.add_connection (new_connection uuid ip (dbus_ip dns))) s v e₁ in
      (
        d',
        bind_run _ e₁ found',
        Same-path g' d' same',
        subst (λ z. SameDevices s z) at
            (lawful.add_devices (new_connection uuid ip (dbus_ip dns)) s v made),
      )

  configure-some :
      (g g' : Globals) (s t : N.State) (a : Value) (before after : List String) (p : String)
      (c : Named N true s p)
      → IsUnique N s
      → lookup_name "uuid" c.section ≡ some a
      → N.list_connections s ≡ ok (before ++ (p ∷ after))
      → configure N uuid ip dns (some a) g s ≡ (ok g', t)
      → After (record new_dbus { xmm_connection = some c.section; connection_path = some p }) s g' t
  unfolding configure update_or_add
  configure-some g g' s t a before after p c unique named listed h =
      let (paths, e, h₁) = lift-ok (N.list_connections s) s _ g' t h in
      let same : paths ≡ before ++ (p ∷ after) = cc (e, listed) in
      let ours : UuidOf N s p a = record {
        config = c.config;
        section = c.section;
        read = c.read;
        found = c.found;
        named = named;
      } in
      let got : get "uuid" c.section ≡ ok a = rw named refl in
      let (nes, nes') = Distinct-middle before after p (unique.connections_once _ listed) in
      let (known, done, config, updated) =
        renew_all-Renewed N a ip dns s p ours (λ q has. unique.uuids p q a ours has)
          (λ config t q. lawful.update_others p config s t q) (some c.section) before after g g' t
          nes nes' (rw same at h₁) in
      (
        with_connection (some c.section) (some p) ip dns,
        lift_run _ got (bind_run _ done refl),
        sym known,
        lawful.update_devices p config s t updated,
      )

  configured :
      (s t : N.State) (g g' : Globals) (d : Dbus) (paths : List String)
      → IsUnique N s
      → N.list_connections s ≡ ok paths
      → Searched N s new_dbus paths d
      → Same g d
      → configure N uuid ip dns g.myconnection g s ≡ (ok g', t)
      → After d s g' t
  configured s t g g' d paths unique listed (absent cs) (neither e f _ _) h =
      configure-none g g' s t (neither e f refl refl)
        (subst (λ z. configure N uuid ip dns z g s ≡ (ok g', t)) e h)
  configured s t g g' d paths unique listed (absent cs) (both _ _ _ _ _ _ e _) h = cc e
  configured s t g g' d paths unique listed (last before after p c cs) (neither _ _ e _) h = cc e
  configured s t g g' d paths unique listed (last before after p c cs)
        (both section a path named e _ f _) h =
      configure-some g g' s t a before after p c unique
        (subst (λ z. lookup_name "uuid" z ≡ some a) (cc f) named) listed
        (subst (λ z. configure N uuid ip dns z g s ≡ (ok g', t)) e h)

  -- From the settings on: the same device is managed and the connection activated on it.
  activate-Met :
      (d : Dbus) (t v u : N.State) (devices : List String) (dev : Option String)
      (path device : String)
      → N.get_devices t ≡ ok devices
      → Met N devices t dev d v
      → d.connection_path ≡ some path
      → dev ≡ some device
      → change (N.activate_connection path device) v ≡ (ok tt, u)
      → activate N d t ≡ (ok tt, u)
  unfolding activate activate_found get_device_prop_iface
  activate-Met d t v u devices dev path device listed (e, props, is, loop, managed) known dev_is h =
      let same : device ≡ e = cc (is, dev_is) in
      let got : path_of d.connection_path ≡ ok path = rw known refl in
      bind_run _ (lift_run _ listed loop) (
        bind_run _ managed (
          lift_run _ got
            (subst (λ z. change (N.activate_connection path z) v ≡ (ok tt, u)) same h)))

  -- Where methods change what they are documented to, and identifiers and interfaces are unique at
  -- the start: if the script's code returns, `setup_network_manager` on a new object returns as well,
  -- and leaves NetworkManager in the same state.
  pub setup_network_manager-network_manager :
      (s u : N.State)
      → IsUnique N s
      → network_manager N uuid ip dns s ≡ (ok tt, u)
      → setup_network_manager N uuid ip dns new_dbus s ≡ (ok tt, u)
  unfolding network_manager setup_network_manager
  setup_network_manager-network_manager s u unique h =
      let (g, s₁, e₁, h₁) = bind-ok (find_connections N no_globals s) _ tt u h in
      let (at, d, found, same) = get_connections-Same N s s₁ g e₁ in
      let (paths, listed, _, searched) = get_connections-Searched N new_dbus d s s found in
      let (g', t, e₂, h₂) = bind-ok (configure N uuid ip dns g.myconnection g s₁) _ tt u h₁ in
      let (d', set, known, (devices_same, all_same)) =
        configured s t g g' d paths unique listed searched same
          (subst (λ z. configure N uuid ip dns g.myconnection g z ≡ (ok g', t)) (sym at) e₂) in
      let (devices, e₃, h₃) = lift-ok (N.get_devices t) t _ tt u h₂ in
      let (dev, v, e₄, h₄) = bind-ok (sweep N devices none t) _ tt u h₃ in
      let (path, e₅, h₅) = lift-ok (from_option g'.connection_path unbound) v _ tt u h₄ in
      let (device, e₆, h₆) = lift-ok (from_option dev unbound) v _ tt u h₅ in
      let dev_is = from_option-ok dev unbound e₆ in
      bind_run _ found (
        bind_run _ set
          (elim (sweep-Met N lawful t (interfaces_at t all_same) devices dev d' v
            (unique.devices_once devices (sym devices_same ∙ e₃)) e₄) [
              | inl missing ↦ cc (missing, dev_is)
              | inr met ↦
                  activate-Met d' t v u devices dev path device e₃ met
                    (known ∙ from_option-ok g'.connection_path unbound e₅) dev_is h₆
            ]))
    where
      interfaces_at :
          (t : N.State)
          → ((e : String) → N.get_all e t ≡ N.get_all e s)
          → (d e : String) (x y : Props) → Device N true t d x
          → Device N true t e y
          → e ≡ d
      interfaces_at t kept d e x y c k =
          unique.interfaces d e x y (record { read = sym (kept d) ∙ c.read; test = c.test })
            (record { read = sym (kept e) ∙ k.read; test = k.test })
