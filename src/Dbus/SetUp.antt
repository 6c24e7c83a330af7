-- ===== src/Dbus/SetUp.antt =====
-- About `setup_network_manager` as a whole.
use mathlib.Core.Path.{subst, sym}
use xmm7360_mvp.Prelude.{
  ℕ, ◌≡◌, refl, String, Bool, true, false, ◌==◌, Option, none, some, List, ◌∷◌, ◌++◌, All,
}
use xmm7360_mvp.Result.{ok, from_option-ok, type}
use xmm7360_mvp.Result.Action.Laws.{bind-ok, lift-ok, pure-ok, change-ok}
use xmm7360_mvp.Rpc.Calls.{Dns}
use xmm7360_mvp.Dbus.{
  Props, NetworkManager, Dbus, Section, dbus_ipv4_dns, new_connection, attribute_of, path_of,
  update_connection, add_connection, get_connections, get_device_prop_iface, manage, manage_if,
  update_or_add, activate_found, activate, setup_network_manager, new_dbus,
}
use xmm7360_mvp.Dbus.Assoc.{get}
use xmm7360_mvp.Dbus.Connections.{Named, Searched, absent, last, get_connections-Searched}
use xmm7360_mvp.Dbus.Devices.{Device, Other, Looked, absent, first, get_device_prop_iface-Looked}

-- The last listed connection that is named `xmm7360` is at this path; none is.
abbrev pub Listed : (N : NetworkManager) → N.State → String → Type 0
Listed N s path =
    (before after : List String) × (N.list_connections s ≡ ok (before ++ (path ∷ after)))
    × Named N true s path
    × All (Named N false s) after

abbrev pub Unlisted : (N : NetworkManager) → N.State → Type 0
Unlisted N s =
    (paths : List String) × (N.list_connections s ≡ ok paths) × All (Named N false s) paths

-- The first device of the interface `wwan0`, with its properties.
abbrev pub HasDevice : (N : NetworkManager) → N.State → String → Props → Type 0
HasDevice N s device props =
    (before after : List String) × (N.get_devices s ≡ ok (before ++ (device ∷ after)))
    × All (Other N s) before
    × Device N true s device props

-- The object with the address and the name servers, and a connection that was found.
abbrev pub with_connection : Option Section → Option String → ℕ → Dns → Dbus
with_connection section path ip dns = record new_dbus {
  xmm_connection = section;
  connection_path = path;
  ip_addr = ip;
  dns_values = dns;
}

-- How the settings got to NetworkManager: by an update of the connection there was, or as a new one.
pub data Configured (N : NetworkManager) (uuid : List ℕ) (ip : ℕ) (dns : Dns) (s : N.State)
    : String → N.State → Type 0 where
  updated :
      {path : String} {t : N.State} (c : Named N true s path)
      → Listed N s path
      → update_connection N (with_connection (some c.section) (some path) ip dns) s ≡ (ok tt, t)
      → Configured N uuid ip dns s path t
  added :
      {path : String} {t : N.State}
      → Unlisted N s
      → N.add_connection
          (new_connection uuid ip (dbus_ipv4_dns (with_connection none none ip dns)))
          s
        ≡ ok t
      → Listed N t path
      → Configured N uuid ip dns s path t

-- The device is managed before the connection is activated.
pub data Managed (N : NetworkManager) (device : String) (props : Props) (t : N.State)
    : N.State → Type 0 where
  already : (props.managed == 0) ≡ false → Managed N device props t t
  set :
      {v : N.State}
      → (props.managed == 0) ≡ true
      → N.set_managed device 1 t ≡ ok v
      → Managed N device props t v

manage_if-Managed :
    (N : NetworkManager) (device : String) (props : Props) (t v : N.State) (b : Bool)
    → (props.managed == 0) ≡ b
    → manage_if N b (some device) t ≡ (ok tt, v)
    → Managed N device props t v
unfolding manage_if manage
manage_if-Managed N device props t v true e h = set e (change-ok (N.set_managed device 1) t v h)
manage_if-Managed N device props t v false e h =
    subst (Managed N device props t) ((pure-ok tt tt t v h).1) (already e)

-- From the object after the settings: the device is found, managed and the connection activated.
abbrev pub Activated : (N : NetworkManager) → N.State → String → N.State → Type 0
Activated N t path u =
    (device : String) × (props : Props) × (v : N.State) × HasDevice N t device props
    × Managed N device props t v
    × (N.activate_connection path device v ≡ ok u)

activate_found-Activated :
    (N : NetworkManager) (d : Dbus) (t u : N.State) (devices : List String)
    (r : Option String × Dbus)
    → d.device_props ≡ none
    → N.get_devices t ≡ ok devices
    → Looked N t d devices r
    → activate_found N r.0 r.1 t ≡ (ok tt, u)
    → (path : String) × (d.connection_path ≡ some path) × Activated N t path u
unfolding activate_found
activate_found-Activated N d t u devices r none_yet e (absent cs) h =
    cc (none_yet, (lift-ok (attribute_of d.device_props) t _ tt u h).1)
activate_found-Activated N d t u devices r none_yet e (first before after device props cs c) h =
    let (_, v, managed, h₁) = bind-ok (manage_if N (props.managed == 0) (some device) t) _ tt u h in
    let (path, e₂, h₂) = lift-ok (path_of d.connection_path) v _ tt u h₁ in
    (
      path,
      from_option-ok d.connection_path type e₂,
      (
        device,
        props,
        v,
        (before, after, e, cs, c),
        manage_if-Managed N device props t v (props.managed == 0) refl managed,
        change-ok (N.activate_connection path device) v u h₂,
      ),
    )

activate-Activated :
    (N : NetworkManager) (d : Dbus) (t u : N.State)
    → d.device_props ≡ none
    → activate N d t ≡ (ok tt, u)
    → (path : String) × (d.connection_path ≡ some path) × Activated N t path u
unfolding activate
activate-Activated N d t u none_yet h =
    let (r, t', e₁, h₁) = bind-ok (get_device_prop_iface N d t) _ tt u h in
    let (devices, e₂, same, looked) = get_device_prop_iface-Looked N d r t t' e₁ in
    activate_found-Activated N d t u devices r none_yet e₂ looked (rw (← same) at h₁)

-- The object after the settings, where it has a path.
readd-Configured :
    (N : NetworkManager) (uuid : List ℕ) (ip : ℕ) (dns : Dns) (s t : N.State) (paths : List String)
    (d : Dbus)
    → Unlisted N s
    → N.add_connection (new_connection uuid ip (dbus_ipv4_dns (with_connection none none ip dns))) s
      ≡ ok t
    → N.list_connections t ≡ ok paths
    → Searched N t (with_connection none none ip dns) paths d
    → (d.device_props ≡ none)
      × ((path : String) → d.connection_path ≡ some path → Configured N uuid ip dns s path t)
readd-Configured N uuid ip dns s t paths d unlisted e l (absent cs) = (refl, λ path e. cc)
readd-Configured N uuid ip dns s t paths d unlisted e l (last before after p c cs) =
    (refl, λ path same. added unlisted e (subst (Listed N t) (cc same) (before, after, l, c, cs)))

update_or_add-Configured :
    (N : NetworkManager) (uuid : List ℕ) (ip : ℕ) (dns : Dns) (s t : N.State) (paths : List String)
    (d d' : Dbus)
    → N.list_connections s ≡ ok paths
    → Searched N s new_dbus paths d
    → update_or_add N uuid d.xmm_connection d.connection_path
        (record d { ip_addr = ip; dns_values = dns })
        s
      ≡ (ok d', t)
    → (d'.device_props ≡ none)
      × ((path : String) → d'.connection_path ≡ some path → Configured N uuid ip dns s path t)
unfolding update_or_add add_connection
update_or_add-Configured N uuid ip dns s t paths d d' e (absent cs) h =
    let (_, v, e₁, h₁) =
      bind-ok (add_connection N uuid (with_connection none none ip dns) s) _ d' t h in
    let (paths', e₂, same, searched) =
      get_connections-Searched N (with_connection none none ip dns) d' v t h₁ in
    let added_by =
      change-ok
        (N.add_connection
          (new_connection uuid ip (dbus_ipv4_dns (with_connection none none ip dns))))
        s v e₁ in
    rw (← same) (readd-Configured N uuid ip dns s v paths' d' (paths, e, cs) added_by e₂ searched)
update_or_add-Configured N uuid ip dns s t paths d d' e (last before after p c cs) h =
    let found = with_connection (some c.section) (some p) ip dns in
    let (_, _, h₁) = lift-ok (get "uuid" c.section) s _ d' t h in
    let (_, v, e₁, h₂) = bind-ok (update_connection N found s) _ d' t h₁ in
    let (same, e₂) = pure-ok found d' v t h₂ in
    rw (← same, ← e₂)
      (
        refl,
        λ path at.
            subst (λ z. Configured N uuid ip dns s z v) (cc at)
              (updated c (before, after, e, c, cs) e₁),
      )

-- Where `setup_network_manager` returns on a new object, a connection named `xmm7360` was configured,
-- then the device of `wwan0` was managed if it was not, and last that connection was activated on it.
pub setup_network_manager-Activated :
    (N : NetworkManager) (uuid : List ℕ) (ip : ℕ) (dns : Dns) (s u : N.State)
    → setup_network_manager N uuid ip dns new_dbus s ≡ (ok tt, u)
    → (path : String) × (t : N.State) × Configured N uuid ip dns s path t × Activated N t path u
unfolding setup_network_manager
setup_network_manager-Activated N uuid ip dns s u h =
    let (d₁, s₁, e₁, h₁) = bind-ok (get_connections N new_dbus s) _ tt u h in
    let (paths, e₂, same, searched) = get_connections-Searched N new_dbus d₁ s s₁ e₁ in
    let (d₃, t, e₃, h₃) =
      bind-ok
        (update_or_add N uuid d₁.xmm_connection d₁.connection_path
          (record d₁ { ip_addr = ip; dns_values = dns }) s₁)
        _ tt u h₁ in
    let (none_yet, configured) =
      update_or_add-Configured N uuid ip dns s t paths d₁ d₃ e₂ searched (
        subst
          (λ z.
            update_or_add N uuid d₁.xmm_connection d₁.connection_path
              (record d₁ { ip_addr = ip; dns_values = dns }) z
            ≡ (ok d₃, t))
          (sym same) e₃) in
    let (path, e₄, activated) = activate-Activated N d₃ t u none_yet h₃ in
    (path, t, configured path e₄, activated)
